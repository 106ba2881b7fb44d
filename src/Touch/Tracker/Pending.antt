-- ===== src/Touch/Tracker/Pending.antt =====
-- The channels that a tracker holds.
use gtkaskpass_yubikey.Base.{
  ℕ, ◌+◌, ◌*◌, ◌≡◌, ◌≢◌, ◌≤◌, ◌<◌, Bool, true, false, not, Bytes, ℕ_discrete, All, length, arith,
  if_cases, Bool-cases, inl, inr, if◌then◌else◌, ◌⊎◌, ltb, leb, ◌||◌, ◌==◌,
}
use gtkaskpass_yubikey.Base.Maps.{
  Distinct, All-insert, All-delete, All-retain, All-map, insert-Distinct, delete-Distinct,
  retain-Distinct, length-insert, length-delete-le, length-retain-le,
}
use gtkaskpass_yubikey.Touch.Descriptor.{Layout}
use gtkaskpass_yubikey.Touch.Tracker.{
  Tracker, is_pending, max_channels, stale_after, keepalive, cbor_response, error_response,
  init_response, processing, up_needed, command, report, expire, before_deadline, close, renew,
}
use gtkaskpass_yubikey.Touch.Tracker.Reports.{channel, header_cases, report_cases}

-- The deadlines, as seen at a time: none is later than a full term from it.
abbrev pub IsChannel : ℕ → ℕ × ℕ → Type 0
IsChannel now (cid, deadline) = (cid ≢ 0) × (cid ≢ 0xffff_ffff) × (deadline ≤ now + stale_after)

pub record IsTracker (t : Tracker) (now : ℕ) : Type 0 where
  pub cap : length t.pending ≤ max_channels
  pub distinct : Distinct ℕ_discrete t.pending
  pub channels : All (IsChannel now) t.pending

pub IsTracker-later :
    (t : Tracker) (now later : ℕ) → now ≤ later → IsTracker t now → IsTracker t later
IsTracker-later t now later h v = record {
  cap = v.cap;
  distinct = v.distinct;
  channels =
      All-map (IsChannel now) (IsChannel later) t.pending
        (λ cid deadline c. (c.0, c.1, omega arith)) v.channels;
}

renew-IsTracker :
    (t : Tracker) (cid now : ℕ)
    → cid ≢ 0
    → cid ≢ 0xffff_ffff
    → (is_pending cid t ≡ true) ⊎ (length t.pending < max_channels)
    → IsTracker t now
    → IsTracker (renew t cid now) now
renew-IsTracker t cid now h k room v = record {
  cap = ground (arith, v.cap, length-insert ℕ_discrete cid (now + stale_after) t.pending);
  distinct = insert-Distinct ℕ_discrete cid (now + stale_after) t.pending v.distinct;
  channels =
      All-insert ℕ_discrete (IsChannel now) cid (now + stale_after) t.pending (h, k, omega arith)
        v.channels;
}

close-IsTracker : (t : Tracker) (cid now : ℕ) → IsTracker t now → IsTracker (close t cid) now
close-IsTracker t cid now v = record {
  cap = omega (arith, v.cap, length-delete-le ℕ_discrete cid t.pending);
  distinct = delete-Distinct ℕ_discrete cid t.pending v.distinct;
  channels = All-delete ℕ_discrete (IsChannel now) cid t.pending v.channels;
}

-- A command leaves the tracker alone, renews its own channel, or closes it.
pub data Effect (t : Tracker) (cid cmd len status now : ℕ) : Tracker → Type 0 where
  keeps : Effect t cid cmd len status now t
  renews :
      cmd ≡ keepalive
      → len ≡ 1
      → (is_pending cid t ≡ true) ⊎ ((status ≡ up_needed) × (length t.pending < max_channels))
      → Effect t cid cmd len status now (renew t cid now)
  closes : cmd ≢ keepalive → Effect t cid cmd len status now (close t cid)

room_cases :
    (t : Tracker) (cid status : ℕ)
    → status ≡ up_needed
    → (is_pending cid t || ltb (length t.pending) max_channels) ≡ true
    → (is_pending cid t ≡ true) ⊎ ((status ≡ up_needed) × (length t.pending < max_channels))
room_cases t cid status up room = elim (Bool-cases (is_pending cid t)) [
  | inl held ↦ inl held
  | inr free ↦ inr (up, ground (arith, free, room))
]

closing :
    {t : Tracker} {cid cmd len status now : ℕ}
    → cmd ≢ keepalive
    → (b : Bool) → Effect t cid cmd len status now (if b then close t cid else t)
closing h true = closes h
closing h false = keeps

pub command-Effect :
    (t : Tracker) (cid cmd len status now : ℕ)
    → Effect t cid cmd len status now (command t cid cmd len status now)
unfolding command
command-Effect t cid cmd len status now =
    if_cases (Effect t cid cmd len status now) (cmd == keepalive)
      (λ isk.
        if_cases (Effect t cid cmd len status now) (not (len == 1)) (λ _. keeps)
          (λ one.
            if_cases (Effect t cid cmd len status now) (status == up_needed)
              (λ up.
                if_cases (Effect t cid cmd len status now)
                  (is_pending cid t || ltb (length t.pending) max_channels)
                  (λ room.
                    renews (ground (arith, isk)) (ground (arith, one))
                      (room_cases t cid status (ground (arith, up)) room))
                  (λ _. keeps))
              (λ _.
                if_cases (Effect t cid cmd len status now) (status == processing)
                  (λ _.
                    if_cases (Effect t cid cmd len status now) (is_pending cid t)
                      (λ held. renews (ground (arith, isk)) (ground (arith, one)) (inl held))
                      (λ _. keeps))
                  (λ _. keeps))))
      (λ notk.
        if_cases (Effect t cid cmd len status now) (cmd == cbor_response)
          (λ _. closing (λ h. ground (arith, h, notk)) (leb 1 len))
          (λ _.
            if_cases (Effect t cid cmd len status now) (cmd == error_response)
              (λ _. closing (λ h. ground (arith, h, notk)) (len == 1))
              (λ _.
                if_cases (Effect t cid cmd len status now) (cmd == init_response)
                  (λ _. closing (λ h. ground (arith, h, notk)) (len == 17)) (λ _. keeps))))

Effect-IsTracker :
    {t : Tracker} {cid cmd len status now : ℕ} {u : Tracker}
    → cid ≢ 0
    → cid ≢ 0xffff_ffff
    → IsTracker t now
    → Effect t cid cmd len status now u
    → IsTracker u now
Effect-IsTracker h k v keeps = v
Effect-IsTracker {t = t} {cid = cid} {now = now} h k v (renews isk one (inl held)) =
    renew-IsTracker t cid now h k (inl held) v
Effect-IsTracker {t = t} {cid = cid} {now = now} h k v (renews isk one (inr (up, room))) =
    renew-IsTracker t cid now h k (inr room) v
Effect-IsTracker {t = t} {cid = cid} {now = now} h k v (closes other) = close-IsTracker t cid now v

pub report-IsTracker :
    (t : Tracker) (layout : Layout) (text : Bytes) (now : ℕ)
    → IsTracker t now
    → IsTracker (report t layout text now) now
report-IsTracker t layout text now v =
    report_cases (λ u. IsTracker u now) t layout text now v
      (λ bytes _.
        header_cases (λ u. IsTracker u now) t bytes now v
          (λ a b c d cmd hi lo status rest _ h k.
            Effect-IsTracker h k v
              (command-Effect t (channel a b c d) cmd (hi * 256 + lo) status now)))

pub expire-IsTracker : (t : Tracker) (now : ℕ) → IsTracker t now → IsTracker (expire t now) now
unfolding expire
expire-IsTracker t now v = record {
  cap = omega (arith, v.cap, length-retain-le (before_deadline now) t.pending);
  distinct = retain-Distinct ℕ_discrete (before_deadline now) t.pending v.distinct;
  channels = All-retain (IsChannel now) (before_deadline now) t.pending v.channels;
}
