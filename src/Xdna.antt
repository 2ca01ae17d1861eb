-- ===== src/Xdna.antt =====
-- The accelerator's kernels, src/xdna.
pub mod Kernel
pub mod Window
pub mod Tests
