-- ===== src/Memory.antt =====
-- The memory managers of the kernel: kernel/memory/.
pub mod Bitmap
pub mod Paging
pub mod Bytes
pub mod Heap
