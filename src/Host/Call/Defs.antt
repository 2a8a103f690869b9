-- ===== src/Host/Call/Defs.antt =====
-- native/host.c: `jfh_request`, `jfh_spawn_process` and `jfh_call`.
mod Spawn
mod Steps
unfoldable pub use Spawn.*
unfoldable pub use Steps.*
