-- ===== src/Hashline.antt =====
-- src/core/Hashline.cpp and include/core/Hashline.h: files as numbered, hashed lines, and edits that
-- are anchored on the hashes. Line numbers are `int`s that do not overflow.
pub mod Hash
pub mod Parse
pub mod Read
pub mod Edit
