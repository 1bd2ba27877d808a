-- ===== src/Words.antt =====
-- Machine words: the laws of `^`, and words as bytes in network order. It models no code.
pub mod Bits
pub mod Network
