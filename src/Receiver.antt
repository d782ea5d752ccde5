-- ===== src/Receiver.antt =====
-- src/bus_processor/rx_application.cpp: what the receiver does around the pipeline. It registers the
-- streams (Registration) deals the packets out to the cores (Cores) and works
-- off their bursts (Loops).
pub mod Cores
pub mod Loops
pub mod Registration
