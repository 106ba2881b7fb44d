-- ===== src/Conversation/Ends.antt =====
-- In every run of the handler, the adapter ends as the result says that was sent.
use mathlib.Core.Path.{subst}
use gtkaskpass_yubikey.Base.{
  ℕ, ◌≡◌, refl, sym, ◌∙◌, Bool, true, false, none, some, [], ◌∷◌, Bytes, inl, inr, arith,
  Bool-cases,
}
use gtkaskpass_yubikey.Askpass.{parse}
use gtkaskpass_yubikey.Adapter.{lost, run}
use gtkaskpass_yubikey.Adapter.Outputs.{standard_output}
use gtkaskpass_yubikey.Service.Handler.World.{
  Reply, Ack, Event, Log, State, Context, accepted, window_shown, cache_reason, failed, confirmed,
  answered, cache_update, finished, acted, discovered, begun, rejected, tried, sent, acknowledged,
  committed, forgotten, saved,
}
use gtkaskpass_yubikey.Service.Handler.Delivery.{is_delivered}
use gtkaskpass_yubikey.Service.Handler.{handle}
use gtkaskpass_yubikey.Service.Handling.Trace.{Phase, offered, phase, Safe, MaySend}
use gtkaskpass_yubikey.Service.Handling.Requests.{must_verify, handle-Safe}
use gtkaskpass_yubikey.Conversation.{AllWritten, incoming, good_start, end_of}
use gtkaskpass_yubikey.Conversation.Meanings.{
  Means, Means-lost, frame, told-update, told-finished, follow-accepted, follow-shown,
  follow-reason, follow-failed, follow-answered, follow-confirmed,
}

module _ (verify b : Bool) (out : Bytes) where
  at : {p : Phase} (log : Log) → phase log ≡ p → Means b out (phase log) log → Means b out p log
  at log e m = subst (λ q. Means b out q log) e m

  back :
      {p : Phase} (log : Log) (e : Event)
      → phase log ≡ p
      → Means b out p (e ∷ log)
      → Means b out (phase log) (e ∷ log)
  back log x e m = subst (λ q. Means b out q (x ∷ log)) (sym e) m

  sent-Means :
      (r : Reply) (log : Log)
      → MaySend verify r log
      → Means b out (phase log) log
      → Means b out (phase (sent r true ∷ log)) (sent r true ∷ log)
  unfolding phase incoming end_of
  sent-Means (accepted n) log e m =
      let m' = at log e m in
      (n, (λ more. rw (m'.0 (frame (accepted n) ∷ more)) (follow-accepted out false more n)), refl)
  sent-Means window_shown log e m =
      let m' = at log e m in
      back log (sent window_shown true) e
        (m'.0, (λ more. m'.1 (frame window_shown ∷ more) ∙ follow-shown out m'.0 more), m'.2)
  sent-Means (cache_reason r) log e m =
      let m' = at log e m in
      back log (sent (cache_reason r) true) e
        (m'.0, (λ more. m'.1 (frame (cache_reason r) ∷ more) ∙ follow-reason out m'.0 more r), m'.2)
  sent-Means (failed n) log (z, inl e) m =
      let m' = at log e m in
      rw (m'.0 (frame (failed n) ∷ lost b ∷ [])) (follow-failed out false (lost b ∷ []) n z)
  sent-Means (failed n) log (z, inr e) m =
      let m' = at log e m in
      m'.1 (frame (failed n) ∷ lost b ∷ []) ∙ follow-failed out m'.0 (lost b ∷ []) n z
  sent-Means confirmed log e m =
      let m' = at log e m in
      m'.1 (frame confirmed ∷ lost b ∷ []) ∙ follow-confirmed out m'.0 (lost b ∷ [])
  sent-Means (answered v) log e m =
      let m' = at log e.0 m in
      ((λ more. m'.1 (frame (answered v) ∷ more) ∙ follow-answered out m'.0 more v), refl)
  sent-Means (cache_update s) log (v, e) m =
      let m' = at log e m in
      back log (sent (cache_update s) true) e
        ((λ more. m'.0 (frame (cache_update s) ∷ more) ∙ told-update v s more out), m'.1)
  sent-Means finished log (v, e) m =
      let m' = at log e m in
      m'.0 (frame finished ∷ lost b ∷ []) ∙ told-finished v (lost b ∷ []) out ∙ rw m'.1 refl

  acknowledged-Means :
      (a : Ack) (v : Bytes) (log : Log)
      → phase log ≡ offered v
      → Means b out (phase log) log
      → Means b out (phase (acknowledged (some a) ∷ log)) (acknowledged (some a) ∷ log)
  unfolding phase incoming end_of
  acknowledged-Means a v log e m = elim (Bool-cases (is_delivered a)) [
    | inl d ↦ rw (d, e) (at log e m)
    | inr d ↦ rw d (Means-lost b out (offered v) log (at log e m))
  ]

  log-Means : (log : Log) → Safe verify log → AllWritten log → Means b out (phase log) log
  unfolding phase Safe incoming end_of
  log-Means [] s w = ((λ more. refl), refl)
  log-Means (sent r true ∷ log) s w = sent-Means r log s.0 (log-Means log s.1 w.1)
  log-Means (sent r false ∷ log) s w = absurd (ground (arith, w.0))
  log-Means (acknowledged none ∷ log) s w =
      Means-lost b out (offered s.0.0) log (at log s.0.1 (log-Means log s.1 w))
  log-Means (acknowledged (some a) ∷ log) s w =
      acknowledged-Means a s.0.0 log s.0.1 (log-Means log s.1 w)
  log-Means (acted a ∷ log) s w = log-Means log s.1 w
  log-Means (discovered d ∷ log) s w = log-Means log s.1 w
  log-Means (begun id r ∷ log) s w = log-Means log s.1 w
  log-Means (rejected id n ∷ log) s w = log-Means log s.1 w
  log-Means (tried d v r ∷ log) s w = log-Means log s.1 w
  log-Means (committed id v ok ∷ log) s w = log-Means log s.1 w
  log-Means (forgotten key ∷ log) s w = log-Means log s.1 w
  log-Means (saved f n ∷ log) s w = log-Means log s.1 w

-- If every frame of a run of the handler is written, then an adapter that reaches the service, whose own
-- deadlines are set and whose standard output takes all, and which is not cancelled while it reads the
-- frames until the connection is lost, ends as the run says: with the code of a failure that was sent, with "yes" written, with the
-- value written and its delivery reported, or, if no result was sent, with the status for a lost
-- connection. A value that is not well formed is not written, and the status is 2.
pub handle-end :
    {W : Type 0} (c : Context W) (fuel : ℕ) (s : State W) (b : Bool) (out : Bytes)
    → s.log ≡ []
    → AllWritten (handle c fuel s).1.log
    → run standard_output good_start (incoming (handle c fuel s).1.log (lost b ∷ [])) out
      ≡ some (end_of b (handle c fuel s).1.log out)
unfolding run
handle-end c fuel s b out e w =
    let verify = must_verify c (parse c.request.args c.request.hint) in
    let log = (handle c fuel s).1.log in
    Means-lost b out (phase log) log (log-Means verify b out log (handle-Safe c fuel s e) w)
