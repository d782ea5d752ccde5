-- ===== src/Tests.antt =====
-- Runs of the model on concrete packets, and instances of its theorems.
pub mod Data
pub mod Backend
pub mod Heap
pub mod Options
pub mod Session
pub mod Frames
pub mod Walker
pub mod Streams
pub mod Goose
pub mod Pipeline
pub mod Sending
pub mod Receiving
pub mod Routable
