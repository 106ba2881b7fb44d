-- ===== src/Service/Handling/Delivery.antt =====
-- The events after the loop, Service/Handler/Delivery.
use gtkaskpass_yubikey.Base.{
  ℕ, ◌≡◌, refl, sym, ◌∙◌, Bool, true, false, not, ◌&&◌, Option, none, some, is_empty, ◌==◌, decide,
  arith,
}
use gtkaskpass_yubikey.Cache.Identity.{Identity, Key, Identity-discrete}
use gtkaskpass_yubikey.Service.Handler.World.{
  Ack, Log, State, Context, answered, cache_update, finished, acknowledged, committed, forgotten,
  saved, commit_cache, forget_cache,
}
use gtkaskpass_yubikey.Service.Handler.Attempts.{Job, Locals}
use gtkaskpass_yubikey.Service.Handler.Delivery.{
  is_delivered, close_window, require, hand_over, commit_if, store_value, settle, save_preference,
  deliver,
}
use gtkaskpass_yubikey.Service.Handling.Rules.{
  Ensures, Ensures-pure, Ensures-stop, Ensures-if, Ensures-bind,
}
use gtkaskpass_yubikey.Service.Handling.Trace.{Safe, Safely, offered}
use gtkaskpass_yubikey.Service.Handling.Windows.{
  call-Safely, lock_store-Safely, clock-Safely, update-Safely, read-Safely, note-Safely,
  has_window-Safely, send-Safely, open-check_over, open-check_cancelled,
}
use gtkaskpass_yubikey.Service.Handling.Entered.{IsFinal}
use gtkaskpass_yubikey.Service.Handling.Delivered.{
  IsAt, IsDelivered, HasAck, sent-IsAt, HasAck-Safe, HasAck-IsAt, committed-IsAt, forgotten-IsAt,
  update-IsAt, saved-IsAt,
}

module _ {W : Type 0} (c : Context W) where
  close-Safely : {R X P : Log → Type 0} → Ensures State.log R X P (close_window c) (λ t. P)
  unfolding close_window
  close-Safely = Ensures-bind (has_window-Safely c) λ b.
      Ensures-if b (λ e. Ensures-bind (call-Safely c _) λ ok. Ensures-pure λ log p. p)
        (λ e. Ensures-pure λ log p. p)

  require-Safely :
      (verify : Bool) (l : Locals) (ack : Option Ack)
      → Safely verify (HasAck verify l ack) (require c ack) (λ t. IsDelivered verify l)
  require-Safely verify l none = Ensures-stop λ log h. HasAck-Safe verify l none log h
  require-Safely verify l (some ack) =
      Ensures-if (is_delivered ack) (λ e. Ensures-pure λ log h. HasAck-IsAt verify l ack log e h)
        (λ e. Ensures-stop λ log h. HasAck-Safe verify l (some ack) log h)

  hand_over-Safely :
      (verify : Bool) (l : Locals)
      → Safely verify (IsFinal verify l) (hand_over c l.value) (λ t. IsDelivered verify l)
  unfolding hand_over
  hand_over-Safely verify l =
      Ensures-bind {Q = λ ok. IsAt (offered l.value) verify l}
        (send-Safely c (answered l.value) λ ok. sent-IsAt verify ok l)
        λ ok.
          Ensures-bind {Q = λ t. IsAt (offered l.value) verify l}
            (Ensures-if ok (λ e. Ensures-pure λ log h. h) (λ e. Ensures-stop λ log h. h.safe))
            λ t. Ensures-bind (call-Safely c _) λ ack.
              Ensures-bind {Q = λ t. HasAck verify l ack}
                (note-Safely c (acknowledged ack)
                  λ log h. record { before = log; is_last = refl; is_offered = h })
                λ t. require-Safely verify l ack

-- A preference that is saved is for a PIN that was verified.
saves_verified :
    (saves verify has_preferences : Bool)
    → saves ≡ (verify && saves)
    → not (saves && has_preferences) ≡ false
    → verify ≡ true
saves_verified saves verify has_preferences e n = ground arith

module _ {W : Type 0} (c : Context W) {verify : Bool} where
  commit-Safely :
      (l : Locals) (token : ℕ)
      → l.remember ≡ true
      → Safely verify
          (IsDelivered verify l)
          (commit_cache c token l.id l.value)
          (λ ok. IsDelivered verify l)
  unfolding commit_cache
  commit-Safely l token e = Ensures-bind (lock_store-Safely c) λ t.
      Ensures-bind (clock-Safely c) λ now. Ensures-bind (clock-Safely c) λ later.
        Ensures-bind (read-Safely c _) λ ok.
          Ensures-bind {Q = λ t. IsDelivered verify l}
            (note-Safely c (committed l.id l.value ok)
              λ log h. committed-IsAt verify l l.id ok log e h)
            λ t. Ensures-pure λ log h. h

  forget-Safely :
      (l : Locals) (key : Key)
      → l.remember ≡ false
      → Safely verify (IsDelivered verify l) (forget_cache c key) (λ t. IsDelivered verify l)
  unfolding forget_cache
  forget-Safely l key e = Ensures-bind (lock_store-Safely c) λ t.
      Ensures-bind (update-Safely c _)
        λ t. note-Safely c (forgotten key) λ log h. forgotten-IsAt verify l key log e h

  commit_if-Safely :
      (job : Job) (l : Locals) (id : Option Identity)
      → l.remember ≡ true
      → Safely verify (IsDelivered verify l) (commit_if c job l id) (λ ok. IsDelivered verify l)
  commit_if-Safely job l none e = Ensures-pure λ log h. h
  commit_if-Safely job l (some id) e =
      Ensures-if (decide (Identity-discrete id l.id)) (λ same. commit-Safely l _ e)
        (λ other. Ensures-pure λ log h. h)

  store_value-Safely :
      (job : Job) (key : Key) (l : Locals)
      → Safely verify (IsDelivered verify l) (store_value c job key l) (λ ok. IsDelivered verify l)
  unfolding store_value
  store_value-Safely job key l =
      Ensures-if (not l.remember)
        (λ e. Ensures-bind (forget-Safely l l.id.key (ground arith)) λ t. Ensures-pure λ log h. h)
        λ e.
          Ensures-if (is_empty l.value) (λ blank. Ensures-pure λ log h. h)
            λ full. Ensures-bind (call-Safely c _) λ files. commit_if-Safely job l _ (ground arith)

  settle-Safely :
      (job : Job) (key : Key) (l : Locals)
      → Safely verify
          (IsDelivered verify l)
          (settle c job key l)
          (λ saves log. (saves ≡ (job.verify && saves)) × IsDelivered verify l log)
  unfolding settle
  settle-Safely job key l =
      Ensures-if (l.candidate.token == 0) (λ e. Ensures-pure λ log h. (ground arith, h))
        λ e. Ensures-bind (store_value-Safely job key l) λ stored.
          Ensures-bind {Q = λ ok. IsDelivered verify l}
            (Ensures-if c.request.trace
              (λ t.
                send-Safely c (cache_update stored)
                  λ ok log h. update-IsAt verify ok l stored log h)
              (λ t. Ensures-pure λ log h. h))
            λ ok. Ensures-pure λ log h. (ground arith, h)

  save-Safely :
      (job : Job) (saves : Bool) (l : Locals)
      → job.verify ≡ verify
      → Safely verify
          (λ log. (saves ≡ (job.verify && saves)) × IsDelivered verify l log)
          (save_preference c job saves l)
          (λ t. IsDelivered verify l)
  unfolding save_preference
  save-Safely job saves l e =
      Ensures-if (not (saves && c.has_preferences)) (λ n. Ensures-pure λ log h. h.1)
        λ n. Ensures-bind (call-Safely c _) λ ok.
          note-Safely c (saved job.fingerprint l.selected.stable_id) λ log h.
            saved-IsAt verify l job.fingerprint log
              (sym e ∙ saves_verified saves job.verify c.has_preferences h.0 n) h.1

  pub deliver-Safely :
      (job : Job) (key : Key) (l : Locals)
      → job.verify ≡ verify
      → Safely verify (IsFinal verify l) (deliver c job key l) (λ t. Safe verify)
  unfolding deliver Safe
  deliver-Safely job key l e = Ensures-bind (open-check_over c λ log f. f.is_open) λ t.
      Ensures-bind (open-check_cancelled c λ log f. f.is_open) λ t.
        Ensures-bind (close-Safely c) λ t. Ensures-bind (hand_over-Safely c verify l) λ t.
          Ensures-bind (settle-Safely job key l) λ saves.
            Ensures-bind (save-Safely job saves l e) λ t.
              Ensures-bind {Q = λ ok. Safe verify}
                (send-Safely c finished λ ok log h. ((l.value, h.is_in), h.safe))
                λ ok. Ensures-pure λ log h. h
