-- ===== src/Service/Handling/Delivered.antt =====
-- Where `Handle` of internal/service/service.go is after its loop: what each event leaves.
use gtkaskpass_yubikey.Base.{◌≡◌, refl, ◌∙◌, Bool, true, false, Option, some, ◌∷◌, Bytes, arith}
use gtkaskpass_yubikey.Cache.Identity.{Identity, Key}
use gtkaskpass_yubikey.Dialog.{Device}
use gtkaskpass_yubikey.Service.Handler.World.{
  Ack, Event, Log, answered, cache_update, acknowledged, committed, forgotten, saved, sent,
}
use gtkaskpass_yubikey.Service.Handler.Attempts.{Locals}
use gtkaskpass_yubikey.Service.Handler.Delivery.{is_delivered}
use gtkaskpass_yubikey.Service.Handling.Trace.{
  Safe, Vouched, Phase, phase, offered, delivered, entry, verified,
}
use gtkaskpass_yubikey.Service.Handling.Entered.{VouchedBy, IsFinal}

-- The frames are this far, and the variables hold what was entered and verified.
pub record IsAt (p : Phase) (verify : Bool) (l : Locals) (log : Log) : Type 0 where
  pub is_in : phase log ≡ p
  pub is_entered : entry log ≡ some (l.value, l.remember)
  pub is_vouched : VouchedBy verify l.selected log
  pub safe : Safe verify log

abbrev pub IsDelivered : Bool → Locals → Log → Type 0
IsDelivered verify l log = IsAt (delivered l.value) verify l log

-- The adapter's answer came last.
pub record HasAck (verify : Bool) (l : Locals) (ack : Option Ack) (log : Log) : Type 0 where
  pub before : Log
  pub is_last : log ≡ acknowledged ack ∷ before
  pub is_offered : IsAt (offered l.value) verify l before

vouched : (verify : Bool) (d : Device) (log : Log) → VouchedBy verify d log → Vouched verify log
vouched false d log v = tt
vouched true d log v = (d, v)

-- An event that is neither an entry nor an attempt leaves the vouching device.
keeps-VouchedBy :
    (verify : Bool) (d : Device) (e : Event) (log : Log)
    → verified (e ∷ log) ≡ verified log
    → VouchedBy verify d log
    → VouchedBy verify d (e ∷ log)
keeps-VouchedBy false d e log p v = tt
keeps-VouchedBy true d e log p v = p ∙ v

pub sent-IsAt :
    (verify ok : Bool) (l : Locals) (log : Log)
    → IsFinal verify l log
    → IsAt (offered l.value) verify l (sent (answered l.value) ok ∷ log)
unfolding phase Safe entry verified
sent-IsAt verify ok l log f = record {
  is_in = refl;
  is_entered = f.is_entered;
  is_vouched = keeps-VouchedBy verify l.selected _ log refl f.is_vouched;
  safe = (
    (f.is_open.is_opened, (l.remember, f.is_entered), vouched verify l.selected log f.is_vouched),
    f.is_open.safe,
  );
}

pub HasAck-Safe :
    (verify : Bool) (l : Locals) (ack : Option Ack) (log : Log)
    → HasAck verify l ack log
    → Safe verify log
unfolding Safe
HasAck-Safe verify l ack log h = rw h.is_last ((l.value, h.is_offered.is_in), h.is_offered.safe)

pub HasAck-IsAt :
    (verify : Bool) (l : Locals) (ack : Ack) (log : Log)
    → is_delivered ack ≡ true
    → HasAck verify l (some ack) log
    → IsDelivered verify l log
unfolding phase Safe entry verified
HasAck-IsAt verify l ack log e h = record {
  is_in = rw (h.is_last, e, h.is_offered.is_in) refl;
  is_entered = rw h.is_last h.is_offered.is_entered;
  is_vouched =
      rw h.is_last (keeps-VouchedBy verify l.selected _ h.before refl h.is_offered.is_vouched);
  safe = HasAck-Safe verify l (some ack) log h;
}

pub committed-IsAt :
    (verify : Bool) (l : Locals) (id : Identity) (ok : Bool) (log : Log)
    → l.remember ≡ true
    → IsDelivered verify l log
    → IsDelivered verify l (committed id l.value ok ∷ log)
unfolding phase Safe entry verified
committed-IsAt verify l id ok log e h = record {
  is_in = h.is_in;
  is_entered = h.is_entered;
  is_vouched = keeps-VouchedBy verify l.selected _ log refl h.is_vouched;
  safe = ((h.is_in, rw (← e) h.is_entered, vouched verify l.selected log h.is_vouched), h.safe);
}

pub forgotten-IsAt :
    (verify : Bool) (l : Locals) (key : Key) (log : Log)
    → l.remember ≡ false
    → IsDelivered verify l log
    → IsDelivered verify l (forgotten key ∷ log)
unfolding phase Safe entry verified
forgotten-IsAt verify l key log e h = record {
  is_in = h.is_in;
  is_entered = h.is_entered;
  is_vouched = keeps-VouchedBy verify l.selected _ log refl h.is_vouched;
  safe = ((l.value, h.is_in, rw (← e) h.is_entered), h.safe);
}

pub update-IsAt :
    (verify ok : Bool) (l : Locals) (stored : Bool) (log : Log)
    → IsDelivered verify l log
    → IsDelivered verify l (sent (cache_update stored) ok ∷ log)
unfolding phase Safe entry verified
update-IsAt verify ok l stored log h = record {
  is_in = h.is_in;
  is_entered = h.is_entered;
  is_vouched = keeps-VouchedBy verify l.selected _ log refl h.is_vouched;
  safe = ((l.value, h.is_in), h.safe);
}

pub saved-IsAt :
    (verify : Bool) (l : Locals) (fingerprint : Bytes) (log : Log)
    → verify ≡ true
    → IsDelivered verify l log
    → IsDelivered verify l (saved fingerprint l.selected.stable_id ∷ log)
unfolding phase Safe entry verified
saved-IsAt false l fingerprint log e h = absurd (ground arith)
saved-IsAt true l fingerprint log e h = record {
  is_in = h.is_in;
  is_entered = h.is_entered;
  is_vouched = h.is_vouched;
  safe = ((l.value, l.selected, h.is_in, h.is_vouched, refl), h.safe);
}
