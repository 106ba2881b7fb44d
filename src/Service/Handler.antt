-- ===== src/Service/Handler.antt =====
-- `Handle` of internal/service/service.go: one request of an adapter.
pub mod World
pub mod Windows
pub mod Opening
pub mod Devices
pub mod Attempts
pub mod Sessions
pub mod Delivery
use gtkaskpass_yubikey.Base.{ℕ}
use gtkaskpass_yubikey.Service.Handler.World.{Context, Handler, ◌>>=◌, ◌>>◌}
use gtkaskpass_yubikey.Service.Handler.Opening.{
  open_request, parse_request, answer_at_once, opening_view,
}
use gtkaskpass_yubikey.Service.Handler.Sessions.{prepare, lock_hardware, sessions}
use gtkaskpass_yubikey.Service.Handler.Delivery.{deliver}

-- `Handle`
unfoldable pub handle : {W : Type 0} (c : Context W) → ℕ → Handler W (Unit {0})
handle c fuel = do
  req ← parse_request c
  open_request c req
  answer_at_once c fuel req
  found ← prepare c req
  lock_hardware c found.1
  l ← sessions c found.1 fuel fuel (opening_view req)
  deliver c found.1 found.0 l
