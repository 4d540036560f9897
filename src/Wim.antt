-- ===== src/Wim.antt =====
-- The package itself: the WIM file, its resources, its blob table, its trees and its file system.
pub mod ResHdr
pub mod Resource
pub mod Names
pub mod Info
pub mod Dentry
pub mod Fs
pub mod Header
pub mod Open
pub mod Parts
pub mod Encode
pub mod Chunks
pub mod Writer
mod Tests
