-- ===== src/Std.antt =====
-- The kernel's own standard library: kernel/std/ and include/std/.
pub mod Ringbuffer
pub mod Cstring
pub mod Number
pub mod Vector
pub mod Algorithm
pub mod Bitset
pub mod Text
pub mod Tokens
pub mod Strtol
pub mod Format
