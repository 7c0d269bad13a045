-- ===== src/Cowolf.antt =====
-- src/cowolf.c: copy-on-write of large files by sparse copies and data-range maps.
pub mod Data
