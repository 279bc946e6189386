-- ===== src/Rest/Session.antt =====
-- `session` of src/utility/restservice.cpp, with the encryption that the default build has: one
-- connection as its asynchronous operations and their completions. `scope_guard`
-- (src/utility/scopeguard.cpp) is what runs at the end of each function that declares one.
pub mod Wakes
use muondetector_cluster.Prelude.{
  ℕ, zero, suc, ◌+◌, ◌<◌, ◌≡◌, ◌≢◌, refl, ◌⊎◌, inl, inr, Bool, true, false, List, [], ◌∷◌, Option,
  none, some, arith, if◌then◌else◌,
}
use muondetector_cluster.Source.Run.{Run, done, invalid, overflow, fault}
use muondetector_cluster.Rest.{Request, Response}

-- `m_cleanup`, as what it does to the state.
pub record ScopeGuard {ℓ} (S : Type ℓ) : Type ℓ where
  pub cleanup : S → S

-- `dismiss`
unfoldable pub dismiss {ℓ} : {S : Type ℓ} → ScopeGuard S → ScopeGuard S
dismiss guard = record { cleanup = λ s. s }

-- `dissolve`: the function that is moved out leaves an empty one behind, which does not run again.
unfoldable pub dissolve {ℓ} : {S : Type ℓ} → ScopeGuard S → (S → S) × ScopeGuard S
dissolve guard = (guard.cleanup, record { cleanup = λ s. s })

-- The move constructor: the new guard, and the one that is left behind.
unfoldable pub move_guard {ℓ} : {S : Type ℓ} → ScopeGuard S → ScopeGuard S × ScopeGuard S
unfolding dissolve dismiss
move_guard other =
    let (cleanup, left) = dissolve other in (record { cleanup = cleanup }, dismiss left)

-- The destructor.
unfoldable pub leave_scope {ℓ} : {S : Type ℓ} → ScopeGuard S → S → S
leave_scope guard s = guard.cleanup s

-- The operation that a session waits for.
pub data Operation : Type 0 where
  idle handshake reading writing shutting : Operation

pub record Session : Type 0 where
  pub pending : Operation
  pub notified : ℕ
  pub request : Option Request
  pub response : Option Response
  pub expiries : ℕ

abbrev pub new_session : Session
new_session = record { pending = idle; notified = 0; request = none; response = none; expiries = 0 }

-- `notify`: the call of `notify_all`
unfoldable pub notify : Session → Session
notify s = record s { notified = s.notified + 1 }

abbrev pub notifier : ScopeGuard Session
unfolding notify
notifier = record { cleanup = notify }

-- `expires_after(s_timeout)`
abbrev renew : Session → Session
renew s = record s { expiries = s.expiries + 1 }

-- `run`, as far as its wait
unfoldable pub run : Session → Session
run s = record (renew s) { pending = handshake }

unfoldable pub do_read : Session → Session
unfolding notifier dismiss leave_scope
do_read s =
    let s' = renew (record s { request = none }) in
    leave_scope (dismiss notifier) (record s' { pending = reading })

unfoldable pub do_close : Session → Session
unfolding notifier dismiss leave_scope
do_close s = leave_scope (dismiss notifier) (record (renew s) { pending = shutting })

-- The error code of an operation.
pub data Code : Type 0 where
  ok end_of_stream failed : Code

-- The completion of the handshake.
unfoldable pub on_handshake : Code → Session → Session
unfolding notifier dismiss leave_scope do_read
on_handshake ok s = leave_scope (dismiss notifier) (do_read s)
on_handshake _ s = leave_scope notifier s

-- What the service makes of a request: an answer to be written, or an exception, which runs the
-- guard on its way out.
on_answer : Run Response → Session → Run (Unit {0}) × Session
unfolding notifier dismiss leave_scope
on_answer (done answer) s = (
  done tt,
  leave_scope (dismiss notifier) (record s { response = some answer; pending = writing }),
)
on_answer invalid s = (invalid, leave_scope notifier s)
on_answer overflow s = (overflow, leave_scope notifier s)
on_answer fault s = (fault, leave_scope notifier s)

-- `on_read`; `std::move` leaves the session without the request.
unfoldable pub on_read :
    (Request → Run Response) → Code → Request → Session → Run (Unit {0}) × Session
unfolding notifier leave_scope do_close on_answer
on_read service end_of_stream req s = (done tt, leave_scope notifier (do_close s))
on_read service failed req s = (done tt, leave_scope notifier s)
on_read service ok req s = on_answer (service req) (record s { request = none })

unfoldable pub on_write : Bool → Code → Session → Session
unfolding notifier dismiss leave_scope do_close do_read
on_write close ok s =
    if close
    then leave_scope notifier (do_close s)
    else leave_scope (dismiss notifier) (do_read (record s { response = none }))
on_write close _ s = leave_scope notifier s

-- The completion of the shutdown.
unfoldable pub on_shutdown : Code → Session → Session
unfolding notify
on_shutdown ec s = notify s

abbrev complete : Session → Session
complete s = record s { pending = idle }

-- A completion of the operation that is pending; an exception leaves the loop of the service.
pub data Step (service : Request → Run Response) : Session → Session → Type 0 where
  handshakes :
      (ec : Code) (s : Session)
      → s.pending ≡ handshake
      → Step service s (on_handshake ec (complete s))
  reads :
      (ec : Code) (req : Request) (s : Session)
      → s.pending ≡ reading
      → Step service s (on_read service ec req (complete s)).1
  writes :
      (close : Bool) (ec : Code) (s : Session)
      → s.pending ≡ writing
      → Step service s (on_write close ec (complete s))
  shuts :
      (ec : Code) (s : Session)
      → s.pending ≡ shutting
      → Step service s (on_shutdown ec (complete s))

pub data Reach (service : Request → Run Response) : Session → Type 0 where
  opened : Reach service (run new_session)
  then_step : {s t : Session} → Reach service s → Step service s t → Reach service t
