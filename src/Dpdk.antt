-- ===== src/Dpdk.antt =====
-- src/dpdk_cpp: the wrappers of DPDK.
pub mod UdmabufHeap
pub mod WaitLink
