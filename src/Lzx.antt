-- ===== src/Lzx.antt =====
-- lzx/: the LZX codec of one WIM chunk.
pub mod Consts
pub mod Stream
pub mod BitReader
pub mod BitWriter
pub mod Compress
pub mod Huffman
pub mod Tree
pub mod Decode
pub mod E8
pub mod Codes
pub mod Tokens
pub mod Frequencies
mod Tests
