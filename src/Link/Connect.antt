-- ===== src/Link/Connect.antt =====
-- `connect`, `disconnect` and what the link's thread does with them.
use muondetector_cluster.Prelude.{
  ℕ, zero, suc, Bool, true, false, not, ◌||◌, List, [], ◌∷◌, Option, none, some, if◌then◌else◌, ltb,
  add_64,
}
use muondetector_cluster.Prelude.Int.{ℤ, pos, negsuc}
use muondetector_cluster.Prelude.TextMap.{keys}
use muondetector_cluster.Runner.{is_zero}
use muondetector_cluster.Source.Run.{Run, done, invalid, overflow, fault, ◌>>=◌}
use muondetector_cluster.Link.{
  Status, Mqtt, Mosquitto, absent, open_one, kept, loop_start, loop_stop, destroy, lib_cleanup,
  set_password, connect_to, disconnect_from, pause, awaiting, log, set_status, status_eq,
  receive_all, check_connection, unsubscribe,
}

abbrev pub max_tries : ℕ
max_tries = 10

-- One call of `connect` up to its call of itself.
pub data Verdict : Type 0 where
  returns : Bool → Verdict
  again : Verdict

module _ (m : Mosquitto) where
  -- What `wait_for` and `get` of the future come to: `get` leaves it without a state.
  abbrev pub read_future : Mqtt → Verdict × Mqtt
  read_future l = elim l.future [
    | kept value ↦ (if value then returns true else again, record l { future = absent })
    | _ ↦ (again, l)
  ]

  -- From `mosquitto_connect` on.
  unfoldable pub open_connection : Mqtt → Run (Verdict × Mqtt)
  unfolding receive_all
  open_connection l =
      let l' = log connect_to l in
      if is_zero (m.connect l.calls)
      then (let opened = log awaiting (record l' { future = open_one }) in
          receive_all m (m.arrivals opened.calls) opened >>= λ answered.
          done (read_future answered))
      else done (again, l')

  -- From `m_tries++` on.
  unfoldable pub try_once : Mqtt → Run (Verdict × Mqtt)
  unfolding open_connection
  try_once l =
      let l' = set_status Status.connecting (record l { tries = add_64 l.tries 1 }) in
      if ltb max_tries l'.tries
      then done (returns false, set_status Status.error l')
      else if not (is_zero (m.password l'.calls))
      then done (returns false, log set_password l')
      else open_connection (log set_password l')

  unfoldable pub attempt : Mqtt → Run (Verdict × Mqtt)
  unfolding receive_all check_connection try_once
  attempt l =
      let waiting = log (pause l.tries) l in
      receive_all m (m.arrivals waiting.calls) waiting >>= λ l'.
      if m.stopped waiting.calls
      then done (returns false, l')
      else (check_connection m l' >>= λ (ready, l'').
          if ready then done (returns true, l'') else try_once l'')

  abbrev pub conclude :
      Run (Verdict × Mqtt) → (Mqtt → Option (Run (Bool × Mqtt))) → Option (Run (Bool × Mqtt))
  conclude (done (returns value, l)) f = some (done (value, l))
  conclude (done (again, l)) f = f l
  conclude invalid f = some invalid
  conclude overflow f = some overflow
  conclude fault f = some fault

  -- With fuel for its calls of itself.
  unfoldable pub connect : ℕ → Mqtt → Option (Run (Bool × Mqtt))
  unfolding attempt
  connect zero l = none
  connect (suc fuel) l = conclude (attempt l) (connect fuel)

  -- `pre_run` and `step` behind their waits; the value is the exit code.
  unfoldable pub pre_run : ℕ → Mqtt → Option (Run (ℤ × Mqtt))
  unfolding connect status_eq
  pre_run fuel l =
      if not l.handle then some (done (negsuc 0, l)) else elim (connect fuel (log loop_start l)) [
        | none ↦ none
        | some r ↦ some (
            r >>= λ (ok, l'). done (
              if not ok
              then (negsuc 0, l')
              else if status_eq l'.status Status.connected || status_eq l'.status Status.connecting
              then (pos 0, l')
              else (negsuc 0, l')))
      ]

  unfoldable pub step : ℕ → Bool → Mqtt → Option (Run (ℤ × Mqtt))
  unfolding connect
  step fuel quit l = if quit then some (done (pos 0, l)) else elim (connect fuel l) [
    | none ↦ none
    | some r ↦ some (r >>= λ (ok, l'). done (if ok then pos 0 else negsuc 0, l'))
  ]

  unfoldable pub disconnect : Mqtt → Bool × Mqtt
  unfolding status_eq
  disconnect l =
      if not (status_eq l.status Status.connected)
      then (true, l)
      else (let l' = log disconnect_from l in
          if is_zero (m.disconnect l.calls)
          then (true, set_status Status.disconnected l')
          else (false, l'))

  -- The destructors that `m_subscribers.clear()` runs.
  unfoldable pub unsubscribe_all : List (List ℕ) → Mqtt → Run Mqtt
  unfolding unsubscribe
  unsubscribe_all [] l = done l
  unsubscribe_all (topic ∷ topics) l = unsubscribe m topic l >>= unsubscribe_all topics

  abbrev release : Mqtt → Mqtt
  release l = if l.handle then record (log destroy l) { handle = false } else l

  unfoldable pub post_run : Mqtt → Run (ℤ × Mqtt)
  unfolding unsubscribe_all disconnect
  post_run l = unsubscribe_all (keys l.subscribers) l >>= λ l'.
      let (ok, l'') = disconnect (record l' { subscribers = []; publishers = [] }) in
      done
        (if not ok then (negsuc 0, l'') else (pos 0, log lib_cleanup (release (log loop_stop l''))))
