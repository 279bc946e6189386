-- ===== src/Link/Reach.antt =====
-- What holds of the link in every order of its operations.
use muondetector_cluster.Prelude.{
  ℕ, ◌≡◌, refl, subst, Bool, [], Option, Text, if-cases, not, ltb, add_64,
}
use muondetector_cluster.Prelude.Int.{ℤ}
use muondetector_cluster.Prelude.TextMap.{keys}
use muondetector_cluster.Runner.{is_zero}
use muondetector_cluster.Source.Run.{Run, done}
use muondetector_cluster.Source.Run.Yields.{IfDone, IfDone-imp, >>=-IfDone, >>=-IfDone_with}
use muondetector_cluster.Link.{
  Status, Mqtt, Mosquitto, Publisher, Subscriber, absent, open_one, kept, log, set_status,
  status_eq, pause, awaiting, connect_to, set_password, Callback, receive, receive_all, new_link,
  check_connection, publisher_of, subscribe, set_callback, publish,
}
use muondetector_cluster.Link.Connect.{
  max_tries, Verdict, read_future, open_connection, try_once, attempt, disconnect, unsubscribe_all,
  post_run,
}
use muondetector_cluster.Link.Keyed.{
  IsKeyed, SameMaps, SameMaps-trans, SameMaps-IsKeyed, receive-SameMaps, receive_all-SameMaps,
  check_connection-SameMaps, publisher_of-IsKeyed, subscribe-IsKeyed, set_callback-IsKeyed,
}

module _ (m : Mosquitto) where
  -- One operation that returns, from the program's threads or from the library's.
  pub data Step : Mqtt → Mqtt → Type 0 where
    receives : (c : Callback) (l t : Mqtt) → receive m c l ≡ done t → Step l t
    publishes :
        (topic content : Text) (l : Mqtt) (o : Bool × Mqtt)
        → publish m topic content l ≡ done o
        → Step l o.1
    registers :
        (topic : Text) (l : Mqtt) (o : Option Publisher × Mqtt)
        → publisher_of m topic l ≡ done o
        → Step l o.1
    subscribes :
        (topic : Text) (l : Mqtt) (o : Option Subscriber × Mqtt)
        → subscribe m topic l ≡ done o
        → Step l o.1
    sets_callback :
        (topic : Text) (callback : ℕ) (l : Mqtt) → Step l (set_callback topic callback l)
    attempts : (l : Mqtt) (o : Verdict × Mqtt) → attempt m l ≡ done o → Step l o.1
    finishes : (l : Mqtt) (o : ℤ × Mqtt) → post_run m l ≡ done o → Step l o.1

  pub data Reach : Mqtt → Type 0 where
    made : (handle : Bool) → Reach (new_link handle)
    then_step : {l t : Mqtt} → Reach l → Step l t → Reach t

  read_future-SameMaps : (l : Mqtt) → SameMaps l (read_future m l).1
  read_future-SameMaps l =
      elim l.future as (λ f. SameMaps l (read_future m (record l { future = f })).1) [
        | absent ↦ (refl, refl)
        | open_one ↦ (refl, refl)
        | kept value ↦ (refl, refl)
      ]

  abbrev Keeps : {A : Type 0} → Mqtt → A × Mqtt → Type 0
  Keeps l (a, l') = SameMaps l l'

  open_connection-SameMaps : (l : Mqtt) → IfDone (Keeps l) (open_connection m l)
  unfolding open_connection
  open_connection-SameMaps l =
      if-cases (IfDone (Keeps l)) (is_zero (m.connect l.calls)) _ _
        (λ opened.
          let waiting = log awaiting (record (log connect_to l) { future = open_one }) in
          >>=-IfDone_with (SameMaps l) (Keeps l) (receive_all m (m.arrivals waiting.calls) waiting)
            _ (receive_all-SameMaps m (m.arrivals waiting.calls) l waiting (refl, refl))
            (λ t h. SameMaps-trans m l t (read_future m t).1 h (read_future-SameMaps t)))
        (λ failed. (refl, refl))

  try_once-SameMaps : (l : Mqtt) → IfDone (Keeps l) (try_once m l)
  unfolding try_once
  try_once-SameMaps l =
      if-cases (IfDone (Keeps l)) (ltb max_tries (add_64 l.tries 1)) _ _ (λ last. (refl, refl))
        (λ goes_on.
          if-cases (IfDone (Keeps l)) (not (is_zero (m.password l.calls))) _ _
            (λ refused. (refl, refl))
            (λ passed. open_connection-SameMaps (
              log set_password
                (set_status Status.connecting (record l { tries = add_64 l.tries 1 })))))

  attempt-SameMaps : (l : Mqtt) → IfDone (Keeps l) (attempt m l)
  unfolding attempt
  attempt-SameMaps l =
      let waiting = log (pause l.tries) l in
      >>=-IfDone_with (SameMaps l) (Keeps l) (receive_all m (m.arrivals waiting.calls) waiting) _
        (receive_all-SameMaps m (m.arrivals waiting.calls) l waiting (refl, refl))
        (λ l' h.
          if-cases (IfDone (Keeps l)) (m.stopped waiting.calls) _ _ (λ stops. h)
            (λ goes_on.
              >>=-IfDone_with (Keeps l') (Keeps l) (check_connection m l') _
                (check_connection-SameMaps m l')
                (λ (ready, l'') k.
                  let both = SameMaps-trans m l l' l'' h k in
                  if-cases (IfDone (Keeps l)) ready _ _ (λ there. both)
                    (λ away.
                      IfDone-imp (Keeps l'') (Keeps l) (λ (v, t). SameMaps-trans m l l'' t both)
                        (try_once m l'') (try_once-SameMaps l'')))))

  publish-SameMaps :
      (topic content : Text) (l : Mqtt) → IfDone (Keeps l) (publish m topic content l)
  unfolding publish
  publish-SameMaps topic content l =
      >>=-IfDone_with (Keeps l) (Keeps l) (check_connection m l) _ (check_connection-SameMaps m l)
        (λ (ready, l') h. if-cases (Keeps l) (not ready) _ _ (λ away. h) (λ there. h))

  abbrev IsEmpty : Mqtt → Type 0
  IsEmpty l = (l.publishers ≡ []) × (l.subscribers ≡ [])

  disconnect-IsEmpty : (l : Mqtt) → IsEmpty l → IsEmpty (disconnect m l).1
  unfolding disconnect
  disconnect-IsEmpty l h =
      if-cases (λ (ok, t). IsEmpty t) (not (status_eq l.status Status.connected)) _ _ (λ away. h)
        (λ there.
          if-cases (λ (ok, t). IsEmpty t) (is_zero (m.disconnect l.calls)) _ _ (λ ok. h) (λ no. h))

  -- At its end the maps are empty.
  post_run-IsEmpty : (l : Mqtt) → IfDone (λ (value, t). IsEmpty t) (post_run m l)
  unfolding post_run
  post_run-IsEmpty l =
      >>=-IfDone (λ (value, t). IsEmpty t) (unsubscribe_all m (keys l.subscribers) l) _
        (λ l'.
          let cleared : Mqtt = record l' { subscribers = []; publishers = [] } in
          let (ok, l'') = disconnect m cleared in
          let e : IsEmpty l'' = disconnect-IsEmpty cleared (refl, refl) in
          if-cases (λ (value, t). IsEmpty t) (not ok) _ _ (λ failed. e)
            (λ gone. if-cases IsEmpty l''.handle _ _ (λ held. e) (λ free. e)))

  -- A run that returned what holds if it returns.
  returned : {A : Type 0} (P : A → Type 0) (r : Run A) (a : A) → IfDone P r → r ≡ done a → P a
  returned P r a h e = subst (IfDone P) e h

  Step-IsKeyed : (l t : Mqtt) → IsKeyed l → Step l t → IsKeyed t
  Step-IsKeyed _ _ k (receives c l t e) =
      SameMaps-IsKeyed m l t (returned (SameMaps l) _ _ (receive-SameMaps m c l) e) k
  Step-IsKeyed _ _ k (publishes topic content l o e) =
      SameMaps-IsKeyed m l o.1 (returned (Keeps l) _ o (publish-SameMaps topic content l) e) k
  Step-IsKeyed _ _ k (registers topic l o e) =
      returned (λ (a, t). IsKeyed t) _ o (publisher_of-IsKeyed m topic l k) e
  Step-IsKeyed _ _ k (subscribes topic l o e) =
      returned (λ (a, t). IsKeyed t) _ o (subscribe-IsKeyed m topic l k) e
  Step-IsKeyed _ _ k (sets_callback topic callback l) = set_callback-IsKeyed topic callback l k
  Step-IsKeyed _ _ k (attempts l o e) =
      SameMaps-IsKeyed m l o.1 (returned (Keeps l) _ o (attempt-SameMaps l) e) k
  Step-IsKeyed _ _ k (finishes l o e) =
      let (p, s) = returned (λ (a, t). IsEmpty t) _ o (post_run-IsEmpty l) e in rw (p, s) (tt, tt)

  -- In every order of the operations and of the library's reports, each publisher and each
  -- subscriber is kept under its own topic.
  pub Reach-IsKeyed : (l : Mqtt) → Reach l → IsKeyed l
  Reach-IsKeyed _ (made handle) = (tt, tt)
  Reach-IsKeyed l (then_step {l = k} r step) = Step-IsKeyed k l (Reach-IsKeyed k r) step
