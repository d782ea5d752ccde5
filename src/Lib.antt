-- ===== src/Lib.antt =====
-- ProcessBus: a generator and a receiver of IEC 61850 process bus traffic (GOOSE and Sampled Values,
-- on layer 2 and routable over UDP as IEC 61850-90-5 has it).
--
-- The parts and how they interact. The generator writes a frame prefix (src/common/r_frame_builder),
-- builds a session envelope around an APDU (src/common/r_session) and seals it with a tag or encrypts
-- it (src/common/r_session_crypto). The receiver sorts frames by protocol, checks the envelope of a
-- routable one and walks the APDU (src/bus_processor/process_bus_parser). It looks the stream up in a
-- container (src/bus_processor/appid_container) and counts gaps per stream (src/common/goose_container,
-- src/common/sv_container), burst by burst in a chain of stages (src/bus_processor/pipeline_pbus.hpp).
--
-- Which file models which part:
--   Prelude     names of the libraries, Boolean tests, lists over native numbers, Result, and Failing:
--               calls that may fail and change a state.
--   Memory      a buffer behind a pointer as a function from offsets to bytes, put_u16 to get_u32,
--               memcpy (write) and the bytes that two buffers share.
--   RSession    src/common/r_session.hpp and .cpp: build, parse_session, parse_payload, parse. Layout has
--               the constants, Security seal and unseal, Modes the names of the security modes, Crypto the
--               class Crypto (src/common/r_session_crypto.hpp and r_session_crypto_common.cpp). Backend
--               has its backends: OpenSsl is src/common/r_session_crypto_openssl.cpp, Mbedtls is
--               src/common/r_session_crypto_mbedtls.cpp, each with the laws of its library in Refines;
--               Calls has sequences of calls, Interop a session between both backends.
--   Frame       src/common/r_frame_builder: build_prefix, ipv4_checksum, make_dst_fields, and the three
--               copies of the send path of src/bus_generator/r_sv_traffic_gen.hpp (set_dst); Address has
--               parse_ipv4.
--   Parser      src/bus_processor/process_bus_parser: Envelope (get_proto_type, validate_r_envelope), Asn1
--               (the decoders of lengths and numbers, take_tlv), Sv (parse_sv_apdu), Packets
--               (parse_sv_packet, unwrap_r_frame, parse_r_sv_packet) and Goose (parse_alldata,
--               parse_goose_packet, parse_r_goose_packet).
--   Container   src/bus_processor/appid_container.hpp: AppIdContainer with find, insert and operator[].
--   Stream      passports, their comparison, and the counters of GooseSource and SVStreamSource.
--   Pipeline    src/bus_processor/pipeline.hpp and pipeline_pbus.hpp: the router, the stages and the
--               chain, on the counters and containers of src/bus_processor/rx_application.hpp.
--   Receiver    src/bus_processor/rx_application.cpp: Cores is multi_core_rss, which deals the received
--               packets out to the cores; Registration is Init, which registers the streams (with the
--               setters of their passports), and CountGaps; Loops the main loop of single_core.
--   Dpdk        src/dpdk_cpp: UdmabufHeap is udmabuf_heap.hpp, with what a process holds in Resources;
--               WaitLink is Port::WaitLink of dpdk_port_class.hpp.
--   Generator   src/bus_generator: ied_slice of gen_application.cpp and make_burst_plan of tx_unit.hpp.
--               Units makes the schedules of goose_traffic_gen.cpp and sv_traffic_gen.cpp, Sender sends
--               them (tx_packets_cycle), Burst is burst mode (tx_burst_worker_cycle, CheckBurstFits),
--               Amend what AmendPacket of the layer 2 generators writes, Routable the skeletons and AmendPacket
--               of r_goose_traffic_gen and r_sv_traffic_gen. Application is the class GenApplication: the
--               constructor reads the options, Run has the workers that Run and RunBurstCycles start, Jobs
--               what each has to write, and Reasons why Run throws.
--   Tests       runs on concrete packets and instances of the theorems.
--
-- How state and results correspond. A function that writes a buffer returns the new one. A negative
-- error code is the number without its sign in `err`. Sizes and offsets are natural numbers; where the
-- source computes in uint32_t and may pass its end, `% 2 ^ 32` is written out. A `string_view` is the
-- list of bytes it shows. int16_t fields are their bit patterns. What DPDK answers in the course of a
-- loop (mbufs or none, the room in a queue or a ring, the clock, whether the run goes on) is an explicit
-- list that the loop consumes. A packet of a generator is the function that AmendPacket applies to the
-- buffer, which may hold the skeleton or an earlier packet; the offsets that libiec61850 reports for the
-- skeleton are a parameter (SvLayout, GooseLayout).
--
-- Bounds and fuel. The two loops of the SV walker take as fuel the size of the APDU, of which each
-- round consumes two bytes at least. The GOOSE walkers take fuel from their caller, since the code does
-- not end on every frame; out of fuel, they are `stuck`. The loop that folds a checksum takes two
-- rounds, since the carry of a uint32_t is below 2 ^ 16 and that of the next sum is 0 or 1. A number is
-- printed with fuel 10, since a uint32_t has ten digits at most.
--
-- What is not modelled, and why: OpenSSL and mbedTLS are parameters (Evp, Mbed) with what their
-- documents promise of each call (IsEvp, IsMbed; Answers where the calls of mbedTLS are to succeed),
-- over SHA-256 and AES-128-GCM as functions of a key (Primitives); where only the answers of a
-- backend matter, the class is a parameter (Crypto, IsSound). The calls of the system and of DPDK
-- that UdmabufHeap makes are a parameter too (Os, IsOs). DPDK's checksum flags are a parameter
-- (CksumFlags). cxxopts splits the command line: what it finds is a parameter (CommandLine), as is
-- what sscanf makes of a number that does not fit. Printing, DPDK queues and clocks are left out.
-- libiec61850 builds the layer 2 skeletons: their bytes and offsets are parameters (L2Skeleton,
-- SvLayout, GooseLayout), and so is whether the constructor of a generator returns (the argument
-- `makes` of Run). The loop of lcore_processor is left out: its workers share one RX_Application,
-- and its counters are not atomic. What a failed call of a crypto backend leaves in the place of its
-- result is left out: the bytes stay as they were, and no theorem depends on them.
pub mod Prelude
pub mod Memory
pub mod RSession
pub mod Frame
pub mod Parser
pub mod Container
pub mod Stream
pub mod Pipeline
pub mod Receiver
pub mod Dpdk
pub mod Generator
pub mod Tests
