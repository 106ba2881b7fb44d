-- ===== src/Dialog.antt =====
-- internal/dialog/protocol.go and internal/device/device.go: what the service and a window tell each
-- other, and security keys.
use gtkaskpass_yubikey.Base.{Bool, Option, List, [], Bytes}
use gtkaskpass_yubikey.Base.Int.{ℤ, pos}
use gtkaskpass_yubikey.Askpass.{Request}

pub record Device : Type 0 where
  pub path : Bytes
  pub label : Bytes
  pub stable_id : Bytes
  pub connection : Bytes
  pub retries : ℤ

-- `Device{}`
abbrev pub no_device : Device
no_device = record { path = []; label = []; stable_id = []; connection = []; retries = pos 0 }

pub data Status : Type 0 where
  accepted invalid blocked temporary_block unavailable : Status

-- `Result` of a verification
pub record Verdict : Type 0 where
  pub status : Status
  pub retries : ℤ
  pub message : Bytes

-- The stages that the service shows.
pub data Stage : Type 0 where
  input choose wait error busy close : Stage

-- A view of a request, or of none. `PassiveTouch` is false in them.
pub record View : Type 0 where
  pub request : Option Request
  pub stage : Stage
  pub message : Bytes
  pub ttl : ℤ
  pub devices : List Device
  pub selected : ℤ
  pub change_device : Bool

-- `kind` is what the window sends: "shown", "submit", "cancel", "select", "change", or anything else.
pub record Action : Type 0 where
  pub kind : Bytes
  pub value : Bytes
  pub selected : ℤ
  pub remember : Bool
