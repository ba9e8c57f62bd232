-- ===== src/Http.antt =====
-- src/http: the HTTP module.
pub mod Escape
pub mod Bodies
