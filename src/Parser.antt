-- ===== src/Parser.antt =====
-- src/bus_processor/process_bus_parser: the classifier of received frames and the check of a routable frame's
-- envelope. The walkers of the APDU are the children.
pub mod Envelope
pub mod Asn1
pub mod Sv
pub mod Packets
pub mod Goose
