-- ===== src/Link/Keyed.antt =====
-- The maps of publishers and subscribers: each is kept under its topic, and given again.
use muondetector_cluster.Prelude.{
  ℕ, ◌≡◌, refl, ◌∙◌, Bool, true, false, List, [], ◌∷◌, Option, none, some, arith, if◌then◌else◌,
  All, Text, if-cases, not, Option-cases, inl, inr,
}
use muondetector_cluster.Prelude.TextMap.{find, keys, find-All, assign-All}
use muondetector_cluster.Runner.{is_zero}
use muondetector_cluster.Source.Run.{done, ◌>>=◌}
use muondetector_cluster.Source.Run.Yields.{IfDone, >>=-IfDone_with}
use muondetector_cluster.Link.{
  Status, Mqtt, Mosquitto, Publisher, Subscriber, Future, absent, open_one, kept, set_value, log,
  set_status, status_eq, Callback, connection, disconnection, p_subscribe, subscribe_all,
  callback_connected, callback_disconnected, announce, receive, receive_all, poll, wait_for,
  polling, check_connection, give_publisher, give_subscriber, publisher_of, subscribe, set_callback,
}

abbrev pub IsKeyed : Mqtt → Type 0
IsKeyed l =
    All (λ (topic, p). p.topic ≡ topic) l.publishers
    × All (λ (topic, s). s.topic ≡ topic) l.subscribers

abbrev pub SameMaps : Mqtt → Mqtt → Type 0
SameMaps l l' = (l'.publishers ≡ l.publishers) × (l'.subscribers ≡ l.subscribers)

module _ (m : Mosquitto) where
  subscribe_all-SameMaps : (topics : List Text) (l : Mqtt) → SameMaps l (subscribe_all m topics l)
  unfolding subscribe_all p_subscribe
  subscribe_all-SameMaps [] l = (refl, refl)
  subscribe_all-SameMaps (topic ∷ topics) l =
      subscribe_all-SameMaps topics (p_subscribe m topic l).1

  set_value-SameMaps :
      (value : Bool) (l k : Mqtt) → SameMaps k l → IfDone (SameMaps k) (set_value value l)
  unfolding set_value
  set_value-SameMaps value l k h =
      elim l.future as (λ f. IfDone (SameMaps k) (set_value value (record l { future = f }))) [
        | absent ↦ tt
        | open_one ↦ h
        | kept v ↦ tt
      ]

  pub receive-SameMaps : (c : Callback) (l : Mqtt) → IfDone (SameMaps l) (receive m c l)
  unfolding receive callback_connected callback_disconnected announce
  receive-SameMaps (disconnection result) l = ground arith
  receive-SameMaps (connection result) l =
      let set = λ (f : Future).
        let l0 = record l { future = f } in
        let l1 : Mqtt = record l0 { status = Status.connected; tries = 0 } in
        if-cases (IfDone (SameMaps l)) (is_zero result) _ _
          (λ accepted.
            set_value-SameMaps true (subscribe_all m (keys l.subscribers) l1) l
              (subscribe_all-SameMaps (keys l.subscribers) l1))
          (λ refused. set_value-SameMaps false (set_status Status.error l0) l (refl, refl)) in
      elim l.future
        as (λ f. IfDone (SameMaps l) (receive m (connection result) (record l { future = f }))) [
          | absent ↦ (refl, refl)
          | open_one ↦ set open_one
          | kept v ↦ set (kept v)
        ]

  pub SameMaps-trans : (a b c : Mqtt) → SameMaps a b → SameMaps b c → SameMaps a c
  SameMaps-trans a b c h k = (k.0 ∙ h.0, k.1 ∙ h.1)

  pub receive_all-SameMaps :
      (cs : List Callback) (k l : Mqtt) → SameMaps k l → IfDone (SameMaps k) (receive_all m cs l)
  unfolding receive_all
  receive_all-SameMaps [] k l h = h
  receive_all-SameMaps (c ∷ cs) k l h =
      >>=-IfDone_with (SameMaps l) (SameMaps k) (receive m c l) _ (receive-SameMaps c l)
        (λ l' h'. receive_all-SameMaps cs k l' (SameMaps-trans k l l' h h'))

  poll-SameMaps :
      (status : Status) (sleeps : List (List Callback)) (k l : Mqtt)
      → SameMaps k l
      → IfDone (λ (ok, l'). SameMaps k l') (poll m status sleeps l)
  unfolding poll
  poll-SameMaps status [] k l h = h
  poll-SameMaps status (cs ∷ sleeps) k l h =
      if-cases (IfDone (λ (ok, l'). SameMaps k l')) (status_eq l.status status) _ _ (λ reached. h)
        (λ waits.
          >>=-IfDone_with (SameMaps k) (λ (ok, l'). SameMaps k l') (receive_all m cs l) _
            (receive_all-SameMaps cs k l h) (λ l'. poll-SameMaps status sleeps k l'))

  pub check_connection-SameMaps :
      (l : Mqtt) → IfDone (λ (ok, l'). SameMaps l l') (check_connection m l)
  unfolding check_connection wait_for
  check_connection-SameMaps l =
      let Same : Bool × Mqtt → Type 0 = λ (ok, l'). SameMaps l l' in
      if-cases (IfDone Same) (not (status_eq l.status Status.connected)) _ _
        (λ away.
          if-cases (IfDone Same) (status_eq l.status Status.connecting) _ _
            (λ waits. poll-SameMaps Status.connected _ l (log polling l) (refl, refl))
            (λ fails. (refl, refl)))
        (λ there. (refl, refl))

  -- The maps are what they were.
  pub SameMaps-IsKeyed : (l l' : Mqtt) → SameMaps l l' → IsKeyed l → IsKeyed l'
  SameMaps-IsKeyed l l' h k = rw (h.0, h.1) k

  give_publisher-IsKeyed :
      (topic : Text) (o : Option Publisher) (l : Mqtt)
      → IsKeyed l
      → IsKeyed (give_publisher topic o l).1
  unfolding give_publisher
  give_publisher-IsKeyed topic (some p) l k = k
  give_publisher-IsKeyed topic none l k = (assign-All _ topic _ l.publishers refl k.0, k.1)

  give_subscriber-IsKeyed :
      (topic : Text) (o : Option Subscriber) (l : Mqtt)
      → IsKeyed l
      → IsKeyed (give_subscriber m topic o l).1
  unfolding give_subscriber p_subscribe
  give_subscriber-IsKeyed topic (some s) l k = k
  give_subscriber-IsKeyed topic none l k =
      if-cases (λ (o, t). IsKeyed t) (not (is_zero (m.subscribe l.calls topic))) _ _ (λ refused. k)
        (λ accepted. (k.0, assign-All _ topic _ l.subscribers refl k.1))

  -- What is done where there is a connection keeps the maps in order.
  checked-IsKeyed :
      {A : Type 0} (l : Mqtt) (f : Mqtt → A × Mqtt) (a : A)
      → ((t : Mqtt) → IsKeyed t → IsKeyed (f t).1)
      → IsKeyed l
      → IfDone
          (λ (o, t). IsKeyed t)
          (check_connection m l >>= λ (ready, l'). done (if not ready then (a, l') else f l'))
  checked-IsKeyed {A} l f a h k =
      >>=-IfDone_with (λ (ok, l'). SameMaps l l') (λ (o, t). IsKeyed t) (check_connection m l) _
        (check_connection-SameMaps l)
        (λ (ready, l') same.
          let k' = SameMaps-IsKeyed l l' same k in
          if-cases (λ (o, t). IsKeyed t) (not ready) _ _ (λ away. k') (λ there. h l' k'))

  pub publisher_of-IsKeyed :
      (topic : Text) (l : Mqtt)
      → IsKeyed l
      → IfDone (λ (p, l'). IsKeyed l') (publisher_of m topic l)
  unfolding publisher_of
  publisher_of-IsKeyed topic l k =
      checked-IsKeyed l
        (λ t. let (p, t') = give_publisher topic (find topic t.publishers) t in (some p, t')) none
        (λ t. give_publisher-IsKeyed topic (find topic t.publishers) t) k

  pub subscribe-IsKeyed :
      (topic : Text) (l : Mqtt) → IsKeyed l → IfDone (λ (s, l'). IsKeyed l') (subscribe m topic l)
  unfolding subscribe
  subscribe-IsKeyed topic l k =
      checked-IsKeyed l (λ t. give_subscriber m topic (find topic t.subscribers) t) none
        (λ t. give_subscriber-IsKeyed topic (find topic t.subscribers) t) k

pub set_callback-IsKeyed :
    (topic : Text) (callback : ℕ) (l : Mqtt) → IsKeyed l → IsKeyed (set_callback topic callback l)
unfolding set_callback
set_callback-IsKeyed topic callback l k = elim (Option-cases (find topic l.subscribers)) [
  | inl e ↦ rw (set_callback, e) k
  | inr (s, e) ↦
      rw (set_callback, e)
        (
          k.0,
          assign-All _ topic _ l.subscribers
              (find-All (λ (q, t). t.topic ≡ q) topic s l.subscribers k.1 e) k.1,
        )
]
