-- ===== src/Memory.antt =====
-- The memory manager of Memory_Manager/totalrecall.c and totalrecall.h.
mod Tests
pub mod Word
pub mod Region
pub mod Release
pub mod Pages
pub mod Layout
pub mod Fault
pub mod Allocate
