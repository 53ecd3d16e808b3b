-- ===== src/Kernels.antt =====
-- core/core_kernel.cc, and `Kernel::execute` of core/core.cc.
pub mod Select
pub mod Copy
pub mod Memory
pub mod Execute
mod Tests
