-- ===== src/Host.antt =====
-- native/host.c: private job directories and files.
pub mod Names
pub mod Directory
pub mod Files
pub mod Call
pub mod Request
