-- ===== src/Protocols/EventGuard.antt =====
-- protocols/event_guard.py: the search of run event data for credentials, money and fallbacks.
-- `Json` is the wire value that `json_projection` yields. Unicode folding and the regular
-- expressions of the secret patterns run in libraries, so both are parameters.
mod Defs
pub mod Laws
unfoldable pub use Defs.*
