-- ===== src/Service.antt =====
-- internal/service: the session service.
pub mod Popups
pub mod Handler
pub mod Handling
