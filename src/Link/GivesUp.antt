-- ===== src/Link/GivesUp.antt =====
-- How often a link tries to connect to a broker that does not accept it.
use muondetector_cluster.Prelude.{
  ℕ, zero, suc, ◌+◌, ◌-◌, ◌<◌, ap, not, ◌≤◌, ◌≡◌, refl, Bool, false, List, [], ◌∷◌, Option, none,
  some, arith, All, if-cases, ltb, add_64,
}
use muondetector_cluster.Runner.{is_zero}
use muondetector_cluster.Source.Run.{Run, done, invalid, overflow, fault}
use muondetector_cluster.Source.Run.Yields.{IfDone, >>=-IfDone_with}
use muondetector_cluster.Link.{
  Status, Mqtt, Mosquitto, Future, absent, open_one, kept, Call, connect_to, pause, polling, log,
  status_eq, set_value, Callback, connection, disconnection, callback_connected,
  callback_disconnected, announce, receive, receive_all, poll, wait_for, check_connection,
}
use muondetector_cluster.Link.Connect.{
  max_tries, Verdict, returns, again, read_future, open_connection, try_once, attempt, conclude,
  connect,
}

-- A report that is no accepted connection.
abbrev pub IsRefusal : Callback → Type 0
IsRefusal (connection result) = is_zero result ≡ false
IsRefusal (disconnection result) = Unit

-- The broker accepts no connection.
abbrev pub Refuses : Mosquitto → Type 0
Refuses m =
    (calls : List Call) → All IsRefusal (m.arrivals calls) × All (All IsRefusal) (m.polls calls)

-- How often `mosquitto_connect` was called.
abbrev pub connects : List Call → ℕ
connects [] = 0
connects (connect_to ∷ calls) = suc (connects calls)
connects (_ ∷ calls) = connects calls

abbrev pub is_accepted : Future → Bool
is_accepted (kept value) = value
is_accepted absent = false
is_accepted open_one = false

-- A link that is not connected, after so many tries and calls.
abbrev pub IsDown : ℕ → ℕ → Mqtt → Type 0
IsDown tries count l =
    (status_eq l.status Status.connected ≡ false)
    × (l.tries ≡ tries)
    × (connects l.calls ≡ count)
    × (is_accepted l.future ≡ false)

module _ (m : Mosquitto) (refuses : Refuses m) (t n : ℕ) where
  receive-IsDown :
      (c : Callback) (l : Mqtt) → IsRefusal c → IsDown t n l → IfDone (IsDown t n) (receive m c l)
  unfolding receive callback_connected set_value callback_disconnected announce status_eq
  receive-IsDown (connection result) l h d =
      elim l.future
        as (λ f. IfDone (IsDown t n) (receive m (connection result) (record l { future = f }))) [
          | absent ↦ (d.0, d.1, d.2, refl)
          | open_one ↦ rw h (refl, d.1, d.2, refl)
          | kept value ↦ rw h tt
        ]
  receive-IsDown (disconnection result) l h d = ground (arith, d)

  receive_all-IsDown :
      (cs : List Callback) (l : Mqtt)
      → All IsRefusal cs
      → IsDown t n l
      → IfDone (IsDown t n) (receive_all m cs l)
  unfolding receive_all
  receive_all-IsDown [] l h d = d
  receive_all-IsDown (c ∷ cs) l h d =
      >>=-IfDone_with (IsDown t n) (IsDown t n) (receive m c l) _ (receive-IsDown c l h.0 d)
        (λ l'. receive_all-IsDown cs l' h.1)

  -- Where it waits for a connection there is none.
  abbrev Missed : Bool × Mqtt → Type 0
  Missed (ready, l) = (ready ≡ false) × IsDown t n l

  poll-Missed :
      (sleeps : List (List Callback)) (l : Mqtt)
      → All (All IsRefusal) sleeps
      → IsDown t n l
      → IfDone Missed (poll m Status.connected sleeps l)
  unfolding poll
  poll-Missed [] l h d = (refl, d)
  poll-Missed (cs ∷ sleeps) l h d = rw d.0 (
      >>=-IfDone_with (IsDown t n) Missed (receive_all m cs l) _ (receive_all-IsDown cs l h.0 d)
        (λ l'. poll-Missed sleeps l' h.1))

  check_connection-Missed : (l : Mqtt) → IsDown t n l → IfDone Missed (check_connection m l)
  unfolding check_connection wait_for
  check_connection-Missed l d = rw d.0 (
      if-cases (IfDone Missed) (status_eq l.status Status.connecting) _ _
        (λ waits. poll-Missed (m.polls (polling ∷ l.calls)) (log polling l) (refuses _).1 d)
        (λ fails. (refl, d)))

-- It has returned: without a connection, unless the library's thread ended the program.
abbrev pub HasGivenUp : ℕ → Option (Run (Bool × Mqtt)) → Type 0
HasGivenUp count none = ⊥
HasGivenUp count (some r) =
    IfDone
      (λ (ok, l).
        (ok ≡ false) × (status_eq l.status Status.connected ≡ false) × (connects l.calls ≤ count))
      r

module _ (m : Mosquitto) (refuses : Refuses m) where
  -- A round that does not come to a connection: it is the last, or it used one of the tries.
  abbrev IsRound : ℕ → ℕ → Verdict × Mqtt → Type 0
  IsRound t n (returns value, l) =
      (value ≡ false) × (status_eq l.status Status.connected ≡ false) × (connects l.calls ≤ n)
  IsRound t n (again, l) = (t < max_tries) × IsDown (suc t) (suc n) l

  read_future-IsRound :
      (t n : ℕ) (l : Mqtt)
      → t < max_tries
      → IsDown (suc t) (suc n) l
      → IsRound t n (read_future m l)
  read_future-IsRound t n l b d =
      elim l.future
          as (λ f. is_accepted f ≡ false → IsRound t n (read_future m (record l { future = f }))) [
            | absent ↦ λ e. (b, (d.0, d.1, d.2, e))
            | open_one ↦ λ e. (b, (d.0, d.1, d.2, e))
            | kept value ↦ λ e. rw e (b, (d.0, d.1, d.2, refl))
          ]
        d.3

  open_connection-IsRound :
      (t n : ℕ) (l : Mqtt)
      → t < max_tries
      → IsDown (suc t) n l
      → IfDone (IsRound t n) (open_connection m l)
  unfolding open_connection
  open_connection-IsRound t n l b d =
      if-cases (IfDone (IsRound t n)) (is_zero (m.connect l.calls)) _ _
        (λ opened.
          >>=-IfDone_with (IsDown (suc t) (suc n)) (IsRound t n) _ _
            (receive_all-IsDown m refuses (suc t) (suc n) _ _ (refuses _).0
              (d.0, d.1, ap suc d.2, refl))
            (λ l'. read_future-IsRound t n l' b))
        (λ failed. (b, (d.0, d.1, ap suc d.2, d.3)))

  try_once-IsRound :
      (t n : ℕ) (l : Mqtt) → t ≤ max_tries → IsDown t n l → IfDone (IsRound t n) (try_once m l)
  unfolding try_once status_eq
  try_once-IsRound t n l b d =
      let more : add_64 l.tries 1 ≡ suc t = rw d.1 (omega arith) in
      if-cases (IfDone (IsRound t n)) (ltb max_tries (add_64 l.tries 1)) _ _
        (λ last. (refl, refl, omega (arith, d.2)))
        (λ goes_on.
          if-cases (IfDone (IsRound t n)) (not (is_zero (m.password l.calls))) _ _
            (λ refused. (refl, refl, omega (arith, d.2)))
            (λ passed.
              open_connection-IsRound t n _ (ground (arith, goes_on, more)) (refl, more, d.2, d.3)))

  attempt-IsRound :
      (t n : ℕ) (l : Mqtt) → t ≤ max_tries → IsDown t n l → IfDone (IsRound t n) (attempt m l)
  unfolding attempt
  attempt-IsRound t n l b d =
      let waiting = log (pause l.tries) l in
      >>=-IfDone_with (IsDown t n) (IsRound t n) (receive_all m (m.arrivals waiting.calls) waiting)
        _ (receive_all-IsDown m refuses t n _ waiting (refuses _).0 d)
        (λ l' d'.
          if-cases (IfDone (IsRound t n)) (m.stopped waiting.calls) _ _
            (λ stops. (refl, d'.0, omega (arith, d'.2)))
            (λ goes_on.
              >>=-IfDone_with (Missed m refuses t n) (IsRound t n) (check_connection m l') _
                (check_connection-Missed m refuses t n l' d')
                (λ (ready, l'') (e, d''). rw e (try_once-IsRound t n l'' b d''))))

  conclude-HasGivenUp :
      (t n count : ℕ) (r : Run (Verdict × Mqtt)) (f : Mqtt → Option (Run (Bool × Mqtt)))
      → n ≤ count
      → IfDone (IsRound t n) r
      → ((l : Mqtt) → t < max_tries → IsDown (suc t) (suc n) l → HasGivenUp count (f l))
      → HasGivenUp count (conclude m r f)
  conclude-HasGivenUp t n count (done (returns value, l)) f b h k =
      (h.0, h.1, omega (arith, h.2, b))
  conclude-HasGivenUp t n count (done (again, l)) f b h k = k l h.0 h.1
  conclude-HasGivenUp t n count invalid f b h k = tt
  conclude-HasGivenUp t n count overflow f b h k = tt
  conclude-HasGivenUp t n count fault f b h k = tt

  connect-down :
      (fuel t n count : ℕ) (l : Mqtt)
      → t ≤ max_tries
      → max_tries < fuel + t
      → n + (max_tries - t) ≤ count
      → IsDown t n l
      → HasGivenUp count (connect m fuel l)
  unfolding connect
  connect-down zero t n count l b e c d = absurd (omega (arith, b, e))
  connect-down (suc fuel) t n count l b e c d =
      conclude-HasGivenUp t n count (attempt m l) (connect m fuel) (omega (arith, c))
        (attempt-IsRound t n l b d)
        (λ l' b'.
          connect-down fuel (suc t) (suc n) count l' (omega (arith, b')) (omega (arith, e))
            (omega (arith, c, b')))

  -- A link that is not connected and holds no report of an accepted connection, after at most ten
  -- tries, to a broker that accepts no connection, gives up: with fuel for eleven calls of
  -- `connect`, less the tries that were made, it returns without a connection, and has called
  -- `mosquitto_connect` at most ten times, less those tries. An exception in the library's thread
  -- may end the program before.
  pub connect-gives_up :
      (fuel : ℕ) (l : Mqtt)
      → status_eq l.status Status.connected ≡ false
      → is_accepted l.future ≡ false
      → l.tries ≤ max_tries
      → max_tries < fuel + l.tries
      → HasGivenUp (connects l.calls + (max_tries - l.tries)) (connect m fuel l)
  connect-gives_up fuel l s a b e =
      connect-down fuel l.tries (connects l.calls) _ l b e (omega arith) (s, refl, refl, a)
