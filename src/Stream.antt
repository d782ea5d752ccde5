-- ===== src/Stream.antt =====
-- The streams that the processor follows: their passports, by which frames are matched, and their
-- sources, which count the gaps of each sequence.
pub mod Passport
pub mod Goose
pub mod Sv
pub mod Sessions
