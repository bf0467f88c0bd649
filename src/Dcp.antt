-- ===== src/Dcp.antt =====
-- The data co-processor (hw/misc/stmp3770_dcp.c): its hashing and its cipher blocks.
pub mod Host
pub mod Sha1
pub mod Hash
pub mod Blocks
pub mod Stream
pub mod Padding
pub mod Digest
pub mod Words
pub mod Cipher
pub mod Inverse
pub mod Involution
pub mod Decipher
