-- ===== src/Tests.antt =====
-- Runs of the model on small inputs, and the theorems applied to them.
mod CacheTests
mod IpcTests
mod TouchTests
mod PopupTests
mod AskpassTests
mod AdapterTests
mod PreferenceTests
mod HandlerTests
mod MonitorTests
mod FidoTests
