-- ===== src/Touch/Tracker/Opening.antt =====
-- Which reports open a wait for a touch.
use gtkaskpass_yubikey.Base.{
  ℕ, ◌+◌, ◌*◌, ◌≡◌, ◌≢◌, true, false, ◌∷◌, Bytes, ℕ_discrete, arith, inl, inr,
}
use gtkaskpass_yubikey.Base.Maps.{lookup-insert, lookup-delete}
use gtkaskpass_yubikey.Touch.Descriptor.{Layout}
use gtkaskpass_yubikey.Touch.Tracker.{
  Tracker, is_pending, keepalive, up_needed, report, renew, close, stale_after,
}
use gtkaskpass_yubikey.Touch.Tracker.Reports.{channel, header_cases, report_cases, IsData}
use gtkaskpass_yubikey.Touch.Tracker.Pending.{Effect, keeps, renews, closes, command-Effect}

-- The frame by which a key asks for a touch: CTAPHID_KEEPALIVE, one byte of data, "UP needed".
pub data IsTouchRequest : Bytes → ℕ → Type 0 where
  touch_request :
      (a b c d : ℕ) (rest : Bytes)
      → IsTouchRequest (a ∷ b ∷ c ∷ d ∷ 0xbb ∷ 0 ∷ 1 ∷ 2 ∷ rest) (channel a b c d)

renew_other :
    (t : Tracker) (cid now x : ℕ)
    → is_pending x t ≡ false
    → is_pending x (renew t cid now) ≡ true
    → x ≡ cid
renew_other t cid now x e f =
    ground (arith, e, f, lookup-insert ℕ_discrete cid x (now + stale_after) t.pending)

close_other : (t : Tracker) (cid x : ℕ) → is_pending x t ≡ false → is_pending x (close t cid) ≢ true
close_other t cid x e f = ground (arith, e, f, lookup-delete ℕ_discrete cid x t.pending)

Effect-opens :
    {t : Tracker} {cid cmd len status now : ℕ} {u : Tracker} (x : ℕ)
    → Effect t cid cmd len status now u
    → is_pending x t ≡ false
    → is_pending x u ≡ true
    → (x ≡ cid) × (cmd ≡ keepalive) × (len ≡ 1) × (status ≡ up_needed)
Effect-opens x keeps e f = ground (arith, e, f)
Effect-opens {t = t} {cid = cid} {now = now} x (renews isk one (inl held)) e f =
    ground (arith, renew_other t cid now x e f, held, e)
Effect-opens {t = t} {cid = cid} {now = now} x (renews isk one (inr (up, room))) e f =
    (renew_other t cid now x e f, isk, one, up)
Effect-opens {t = t} {cid = cid} x (closes other) e f = absurd (close_other t cid x e f)

request :
    (bytes : Bytes) (a b c d cmd hi lo status : ℕ) (rest : Bytes) (cid : ℕ)
    → bytes ≡ a ∷ b ∷ c ∷ d ∷ cmd ∷ hi ∷ lo ∷ status ∷ rest
    → (cid ≡ channel a b c d) × (cmd ≡ keepalive) × (hi * 256 + lo ≡ 1) × (status ≡ up_needed)
    → IsTouchRequest bytes cid
request bytes a b c d cmd hi lo status rest cid e (same, isk, one, up) =
    let high : hi ≡ 0 = omega (arith, one) in
    let low : lo ≡ 1 = omega (arith, one) in
    rw (e, same, isk, high, low, up) (touch_request a b c d rest)

abbrev Opens : Bytes → ℕ → Tracker → Type 0
Opens text cid u =
    is_pending cid u ≡ true → (bytes : Bytes) × IsData text bytes × IsTouchRequest bytes cid

-- A report makes a channel wait that did not only where its data, which is the report or the
-- report without its identifier, is a keep-alive frame of that channel, with one byte of data,
-- which says that a touch is needed.
pub report-opens :
    (t : Tracker) (layout : Layout) (text : Bytes) (now cid : ℕ)
    → is_pending cid t ≡ false
    → is_pending cid (report t layout text now) ≡ true
    → (bytes : Bytes) × IsData text bytes × IsTouchRequest bytes cid
report-opens t layout text now cid shut =
    report_cases (Opens text cid) t layout text now (λ f. absurd (ground (arith, f, shut)))
      (λ bytes is_data.
        header_cases (Opens text cid) t bytes now (λ f. absurd (ground (arith, f, shut)))
          (λ a b c d cmd hi lo status rest e _ _ f. (
            bytes,
            is_data,
            request bytes a b c d cmd hi lo status rest cid e (
                Effect-opens cid (command-Effect t (channel a b c d) cmd (hi * 256 + lo) status now)
                  shut f),
          )))
