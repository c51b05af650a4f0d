-- ===== src/Memory/Tests.antt =====
-- Runs of the memory manager on small regions and tables.
mod Data
mod Blocks
mod Paging
mod Requests
