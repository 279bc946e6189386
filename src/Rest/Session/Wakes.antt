-- ===== src/Rest/Session/Wakes.antt =====
-- When the thread that waits in `run` is woken.
use muondetector_cluster.Prelude.{◌≡◌, refl, ◌<◌, true, false, arith}
use muondetector_cluster.Source.Run.{Run, done, invalid, overflow, fault}
use muondetector_cluster.Rest.{Request, Response}
use muondetector_cluster.Rest.Session.{
  Session, idle, shutting, run, notify, dismiss, leave_scope, do_read, do_close, on_handshake,
  on_answer, on_read, on_write, on_shutdown, ok, end_of_stream, failed, Step, handshakes, reads,
  writes, shuts, Reach, opened, then_step,
}

-- A session that waits for nothing has woken its thread; before it shuts down it does not.
abbrev pub IsAwaited : Session → Type 0
IsAwaited s = elim s.pending [
  | idle ↦ 0 < s.notified
  | shutting ↦ 0 < s.notified
  | _ ↦ s.notified ≡ 0
]

module _ (service : Request → Run Response) where
  on_answer-IsAwaited :
      (r : Run Response) (s : Session)
      → s.pending ≡ idle
      → s.notified ≡ 0
      → IsAwaited (on_answer r s).1
  unfolding on_answer dismiss leave_scope notify
  on_answer-IsAwaited (done answer) s p h = h
  on_answer-IsAwaited invalid s p h = ground (arith, p, h)
  on_answer-IsAwaited overflow s p h = ground (arith, p, h)
  on_answer-IsAwaited fault s p h = ground (arith, p, h)

  Step-IsAwaited : (s t : Session) → IsAwaited s → Step service s t → IsAwaited t
  unfolding on_handshake on_read on_write on_shutdown notify dismiss leave_scope do_read do_close
  Step-IsAwaited s _ h (handshakes ok _ p) = ground (arith, h, p)
  Step-IsAwaited s _ h (handshakes end_of_stream _ p) = ground (arith, h, p)
  Step-IsAwaited s _ h (handshakes failed _ p) = ground (arith, h, p)
  Step-IsAwaited s _ h (reads ok req _ p) =
      on_answer-IsAwaited (service req) _ refl (ground (arith, h, p))
  Step-IsAwaited s _ h (reads end_of_stream req _ p) = ground (arith, h, p)
  Step-IsAwaited s _ h (reads failed req _ p) = ground (arith, h, p)
  Step-IsAwaited s _ h (writes true ok _ p) = ground (arith, h, p)
  Step-IsAwaited s _ h (writes false ok _ p) = ground (arith, h, p)
  Step-IsAwaited s _ h (writes close end_of_stream _ p) = ground (arith, h, p)
  Step-IsAwaited s _ h (writes close failed _ p) = ground (arith, h, p)
  Step-IsAwaited s _ h (shuts ec _ p) = ground (arith, h, p)

  -- In every order of completions, a session that waits for no operation, or for the end of its
  -- connection, has called `notify_all`; one that waits for a handshake, a request or the end of an
  -- answer has not.
  pub Reach-IsAwaited : (s : Session) → Reach service s → IsAwaited s
  unfolding run
  Reach-IsAwaited _ opened = refl
  Reach-IsAwaited s (then_step {s = s'} r step) = Step-IsAwaited s' s (Reach-IsAwaited s' r) step
