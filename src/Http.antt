-- ===== src/Http.antt =====
-- native/http.c: pooled HTTPS POST requests through libcurl.
mod Defs
mod Body
mod Policy
mod Transfer
mod Released
mod Load
mod Loaded
mod Pack
mod Answers
mod Trusted
unfoldable pub use Defs.*
pub use Body.*
pub use Policy.*
unfoldable pub use Transfer.*
pub use Released.*
unfoldable pub use Pack.*
pub use Answers.*
pub use Trusted.*
unfoldable pub use Load.*
pub use Loaded.*
