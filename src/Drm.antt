-- ===== src/Drm.antt =====
-- Data-range maps: which bytes of a sparse file are valid in the upper branch.
pub mod Mem
pub mod Codec
pub mod File
