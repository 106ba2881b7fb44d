-- ===== src/Ipc.antt =====
-- internal/cacheipc/ipc.go: the socket between the adapter and the session service.
pub mod Callers
pub mod Frames
pub mod Handle
