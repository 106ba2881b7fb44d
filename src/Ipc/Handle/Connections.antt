-- ===== src/Ipc/Handle/Connections.antt =====
-- What can become of a connection.
use gtkaskpass_yubikey.Base.{
  refl, Option, none, some, ◌≡◌, Bool, true, false, not, ◌&&◌, [], Bytes, codes, if_cases,
  Bool-cases, Option-cases, inl, inr, arith,
}
use gtkaskpass_yubikey.Base.Int.{ℤ}
use gtkaskpass_yubikey.Cache.Store.{Store}
use gtkaskpass_yubikey.Ipc.Callers.{caller}
use gtkaskpass_yubikey.Ipc.Handle.{
  Request, Response, Connection, World, Outcome, closed, passed, answered, is_version, is_op,
  refuse, dispatch, handle_request, with_request, with_peer, handle,
}
use gtkaskpass_yubikey.Ipc.Handle.Effects.{Calls, dispatch-Calls}
use gtkaskpass_yubikey.Ipc.Handle.Answers.{Serves, dispatch-Serves}

-- The request asks for the handler, which there is.
abbrev is_ask : Bool → Request → Bool
is_ask has_handler req = is_version 2 req.version && is_op req (codes "ask") && has_handler

-- The connection has its deadline, the process at its other end is known, and its request is read.
pub record IsRead (c : Connection) (pid : ℤ) (req : Request) : Type 0 where
  pub timed : c.has_deadline ≡ true
  pub known : c.peer ≡ some pid
  pub got : c.request ≡ some req

pub data IsHandled (w : World) (has_handler : Bool) (c : Connection) (s : Store)
    : Store × Outcome → Type 0 where
  untimed : c.has_deadline ≡ false → IsHandled w has_handler c s (s, closed)
  unknown : c.peer ≡ none → IsHandled w has_handler c s (s, closed)
  unread : c.request ≡ none → IsHandled w has_handler c s (s, closed)
  unnamed :
      (pid : ℤ) (req : Request)
      → IsRead c pid req
      → is_ask has_handler req ≡ true
      → caller w.processes pid ≡ none
      → IsHandled w has_handler c s (s, closed)
  limited :
      (pid : ℤ) (req : Request)
      → IsRead c pid req
      → is_ask has_handler req ≡ true
      → c.has_no_deadline ≡ false
      → IsHandled w has_handler c s (s, closed)
  handed :
      (pid : ℤ) (req : Request) (who : Bytes)
      → IsRead c pid req
      → is_ask has_handler req ≡ true
      → caller w.processes pid ≡ some who
      → c.has_no_deadline ≡ true
      → IsHandled w has_handler c s (s, passed req who)
  unsupported :
      (pid : ℤ) (req : Request) (r : Response)
      → IsRead c pid req
      → is_ask has_handler req ≡ false
      → is_version 1 req.version ≡ false
      → r.error ≡ codes "version"
      → r.secret ≡ []
      → IsHandled w has_handler c s (s, answered r)
  replied :
      (pid : ℤ) (req : Request) (p : Store × Response)
      → IsRead c pid req
      → is_version 1 req.version ≡ true
      → Calls w req s p.0
      → Serves w pid req s p
      → IsHandled w has_handler c s (p.0, answered p.1)

dispatch_unsupported :
    (w : World) (pid : ℤ) (req : Request) (s : Store)
    → is_version 1 req.version ≡ false
    → dispatch w pid req s ≡ refuse (codes "version") s
unfolding dispatch
dispatch_unsupported w pid req s e = rw e refl

module _ (w : World) (has_handler : Bool) (c : Connection) (s : Store) where
  dispatch-IsHandled :
      (pid : ℤ) (req : Request)
      → IsRead c pid req
      → is_ask has_handler req ≡ false
      → IsHandled w has_handler c s ((dispatch w pid req s).0, answered (dispatch w pid req s).1)
  dispatch-IsHandled pid req g other = elim (Bool-cases (is_version 1 req.version)) [
    | inl one ↦
        replied pid req (dispatch w pid req s) g one (dispatch-Calls w pid req s)
          (dispatch-Serves w pid req s)
    | inr old ↦
        rw (dispatch_unsupported w pid req s old) (unsupported pid req _ g other old refl refl)
  ]

  request-IsHandled :
      (pid : ℤ) (req : Request)
      → IsRead c pid req
      → IsHandled w has_handler c s (handle_request w has_handler c pid req s)
  unfolding handle_request
  request-IsHandled pid req g =
      if_cases (IsHandled w has_handler c s) (is_ask has_handler req)
        (λ e. elim (Option-cases (caller w.processes pid)) [
          | inl f ↦ rw f (unnamed pid req g e f)
          | inr (who, f) ↦ rw f (
              if_cases (λ o. IsHandled w has_handler c s (s, o)) c.has_no_deadline
                (λ free. handed pid req who g e f free) (λ timed. limited pid req g e timed))
        ])
        (λ e. dispatch-IsHandled pid req g e)

  request_read-IsHandled :
      (pid : ℤ) (o : Option Request)
      → c.has_deadline ≡ true
      → c.peer ≡ some pid
      → c.request ≡ o
      → IsHandled w has_handler c s (with_request w has_handler c pid o s)
  request_read-IsHandled pid none a b e = unread e
  request_read-IsHandled pid (some req) a b e =
      request-IsHandled pid req (record { timed = a; known = b; got = e })

  peer-IsHandled :
      (o : Option ℤ)
      → c.has_deadline ≡ true
      → c.peer ≡ o
      → IsHandled w has_handler c s (with_peer w has_handler c o s)
  peer-IsHandled none a e = unknown e
  peer-IsHandled (some pid) a e = request_read-IsHandled pid c.request a e refl

  -- `handle` closes a connection, and leaves the store, only if its deadline cannot be set, the process
  -- at the other end is not known, no request is read, or the request is an "ask" of version 2, there is
  -- a handler, and the process cannot be named or the deadline cannot be taken away. It passes a request
  -- on, and leaves the store, only if it is such an "ask" of a process that is named. A request of a
  -- version that is not 1 and that is no such "ask" is answered with the error "version" and no secret,
  -- and leaves the store. A request of version 1 is answered: the store changes by no call, one call of
  -- which a Commit offers the request's secret for the identity that its key resolves to, or two Forgets;
  -- and the answer has a secret only if it is a "begin" of a process that is named, whose key resolves
  -- to an identity for which Begin gives that secret out as a hit.
  pub handle-IsHandled : IsHandled w has_handler c s (handle w has_handler c s)
  unfolding handle
  handle-IsHandled =
      if_cases (IsHandled w has_handler c s) (not c.has_deadline) (λ a. untimed (ground (arith, a)))
        (λ a. peer-IsHandled c.peer (ground (arith, a)) refl)
