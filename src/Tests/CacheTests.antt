-- ===== src/Tests/CacheTests.antt =====
-- A key file's secret is committed, served, and asked for again, in a store of internal/cache.
use gtkaskpass_yubikey.Base.{
  List, ◌≡◌, ◌≢◌, ◌↔◌, refl, inr, Bool, true, false, some, [], ◌∷◌, Bytes, Bytes-discrete,
  ℕ_discrete, codes, arith, All,
}
use gtkaskpass_yubikey.Base.Int.{ℤ, pos, add64, ◌+ℤ◌}
use gtkaskpass_yubikey.Base.Maps.{lookup, insert, delete, retain}
use gtkaskpass_yubikey.Text.{has_line_break}
use gtkaskpass_yubikey.Text.Utf8.{valid_utf8}
use gtkaskpass_yubikey.Askpass.{validate}
use gtkaskpass_yubikey.Askpass.Fingerprint.{valid_fingerprint}
use gtkaskpass_yubikey.Cache.Identity.{Key, Identity, Key-discrete, Identity-discrete, agent_pin}
use gtkaskpass_yubikey.Cache.Store.{
  Entry, Ticket, Store, Lookup, SeenKey-discrete, hit, miss, retry, new, next, erase,
  expire_entries, is_fresh, expire, issue, serve, begin_retry, begin_current, begin_entry,
  begin_live, begin_checked, begin, current, reject, is_acceptable, store_secret, commit_ticket,
  commit_checked, commit, is_meant, forget_entries, is_kept, forget,
}
use gtkaskpass_yubikey.Cache.Store.Serving.{Answers, begin-Answers}
use gtkaskpass_yubikey.Cache.Store.Committing.{begin-commit}
use gtkaskpass_yubikey.Cache.Store.Forgetting.{forget_forgets}
use gtkaskpass_yubikey.Cache.Store.Denied.{later, current-later}
use gtkaskpass_yubikey.Cache.Store.Leases.{Accepts, commit_iff, commit_once}
use gtkaskpass_yubikey.Cache.Store.Retries.{IsBlank, begin_again}
use gtkaskpass_yubikey.Cache.Store.Bounded.{IsBounded}
use gtkaskpass_yubikey.Cache.Store.Sweeping.{IsSwept, sweep-IsSwept}
use gtkaskpass_yubikey.Cache.Store.{sweep}
use gtkaskpass_yubikey.Cache.Store.Run.{
  Call, begins, commits, step, after, Offered, begin-Offered, after-IsBounded,
}

abbrev file : Identity
file = record {
  key = record { path = codes "/k"; kind = codes "passphrase"; fingerprint = [] };
  stamp = codes "1:2";
}

abbrev first_caller : Bytes
first_caller = codes "10:7"

abbrev second_caller : Bytes
second_caller = codes "11:9"

abbrev minute : ℤ
minute = pos 60_000_000_000

-- The definitions that the runs compute.
program : Unit {0}
unfolding ℕ_discrete new next erase expire_entries is_fresh expire issue serve begin_retry
    begin_current begin_entry begin_live begin_checked begin current reject is_acceptable
    store_secret commit_ticket commit_checked commit forget_entries is_kept forget lookup insert
    delete retain has_line_break valid_utf8 validate valid_fingerprint agent_pin Key-discrete
    Identity-discrete SeenKey-discrete Bytes-discrete add64 ◌+ℤ◌ step after
program = tt

abbrev asked : Store × Lookup
asked = begin (new minute) file first_caller (pos 0) (pos 1)

abbrev stored : Store × Bool
stored = commit asked.0 2 file first_caller (codes "s3cret") (pos 2) (pos 3)

abbrev served : Store × Lookup
served = begin stored.0 file second_caller (pos 4) (pos 5)

asked_miss : asked.1.reason ≡ miss
unfolding program
asked_miss = refl

asked_token : asked.1.token ≡ 2
unfolding program
asked_token = refl

stored_ok : stored.1 ≡ true
unfolding program
stored_ok = refl

served_hit : (served.1.reason ≡ hit) × (served.1.secret ≡ codes "s3cret")
unfolding program
served_hit = (refl, refl)

begin-Offered_example :
    Offered
      (commits 2 file first_caller (codes "s3cret") (pos 2) (pos 3)
        ∷ begins file first_caller (pos 0) (pos 1)
        ∷ [])
      file
      (begin
        (after minute (
          commits 2 file first_caller (codes "s3cret") (pos 2) (pos 3)
          ∷ begins file first_caller (pos 0) (pos 1)
          ∷ []))
        file
        second_caller
        (pos 4)
        (pos 5)).1.secret
unfolding program
begin-Offered_example =
    begin-Offered minute
      (commits 2 file first_caller (codes "s3cret") (pos 2) (pos 3)
        ∷ begins file first_caller (pos 0) (pos 1)
        ∷ [])
      file second_caller (pos 4) (pos 5) refl

after-IsBounded_example : IsBounded (after minute (begins file first_caller (pos 0) (pos 1) ∷ []))
after-IsBounded_example =
    after-IsBounded minute (begins file first_caller (pos 0) (pos 1) ∷ []) (tt, tt)

begin-Answers_example :
    Answers (lookup Key-discrete file.key (expire stored.0 (pos 4)).entries) file served.1
begin-Answers_example = begin-Answers stored.0 file second_caller (pos 4) (pos 5)

begin-commit_example : (served.1.reason ≡ hit) × (served.1.secret ≡ codes "s3cret")
unfolding program
begin-commit_example =
    begin-commit asked.0 stored.0 2 file first_caller second_caller (codes "s3cret") (pos 2) (pos 3)
      (pos 4) (pos 5) refl refl refl (inr (refl, ground arith)) (ground arith)

commit_iff_example : (stored.1 ≡ true) ↔ (
    (t : Ticket) × (e : Entry) × Accepts
      (expire asked.0 (pos 2))
      t
      e
      2
      file
      first_caller
      (codes "s3cret"))
commit_iff_example = commit_iff asked.0 2 file first_caller (codes "s3cret") (pos 2) (pos 3)

commit_once_example :
    (commit stored.0 2 file first_caller (codes "other") (pos 4) (pos 5)).1 ≡ false
unfolding program
commit_once_example =
    commit_once asked.0 2 file file first_caller (codes "s3cret") (codes "other") (pos 2) (pos 3)
      (pos 4) (pos 5) (refl, tt)

begin_again_example :
    let again = begin served.0 file second_caller (pos 6) (pos 7) in
    (again.1.reason ≢ hit)
    × (again.1.secret ≡ [])
    × (again.1.reason ≡ retry → IsBlank (lookup Key-discrete file.key again.0.entries))
unfolding program
begin_again_example =
    begin_again stored.0 file second_caller (pos 4) (pos 5) (pos 6) (pos 7) refl refl

forget_forgets_example :
    let s' = forget stored.0 (some file.key) in
    ((begin s' file second_caller (pos 4) (pos 5)).1.reason ≢ hit)
    × ((begin s' file second_caller (pos 4) (pos 5)).1.secret ≡ [])
    × ((commit s' 2 file second_caller (codes "x") (pos 4) (pos 5)).1 ≡ false)
    × All (λ p. is_meant (some file.key) p.1.identity.key ≡ false) s'.tickets
    × ((k : Key)
        → is_meant (some file.key) k ≡ false
        → lookup Key-discrete k s'.entries ≡ lookup Key-discrete k stored.0.entries)
unfolding program
forget_forgets_example =
    forget_forgets stored.0 (some file.key) file second_caller (codes "x") 2 (pos 4) (pos 5) refl

-- A caller's secret, which another asks for after it was rejected.
abbrev held : List Call
held =
    commits 2 file first_caller (codes "s3cret") (pos 2) (pos 3)
    ∷ begins file first_caller (pos 0) (pos 1)
    ∷ []

abbrev asked_later : List Call
asked_later = begins file second_caller (pos 5) (pos 6) ∷ []

current-later_example :
    (current (later (reject (after minute held) file 3) asked_later) file 3 (pos 9)).1 ≡ false
current-later_example =
    current-later (after minute held) file 3 asked_later (pos 9)
      (after-IsBounded minute held (tt, (tt, tt))) tt

abbrev nobody : Bytes → Bool
nobody caller = false

sweep-IsSwept_example :
    IsSwept
      (after minute (begins file first_caller (pos 0) (pos 1) ∷ []))
      (sweep (after minute (begins file first_caller (pos 0) (pos 1) ∷ [])) nobody nobody (pos 9))
      nobody
      nobody
      (pos 9)
sweep-IsSwept_example =
    sweep-IsSwept (after minute (begins file first_caller (pos 0) (pos 1) ∷ [])) nobody nobody
      (pos 9) (after-IsBounded minute (begins file first_caller (pos 0) (pos 1) ∷ []) (tt, tt))
