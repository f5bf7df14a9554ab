-- ===== src/Worker.antt =====
pub mod Registry
pub mod Members
pub mod Job
