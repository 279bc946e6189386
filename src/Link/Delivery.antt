-- ===== src/Link/Delivery.antt =====
-- What a message, and a second call of `subscribe`, come to.
use muondetector_cluster.Prelude.{
  ℕ, ◌≡◌, ◌≢◌, refl, ap, ap₂, ◌∙◌, Bool, true, not, List, [], ◌∷◌, ◌++◌, Option, none, some,
  if◌then◌else◌, All, All-append, Text, if-cases, Bool-cases, inl, inr,
}
use muondetector_cluster.Prelude.Texts.{text_eq_refl}
use muondetector_cluster.Prelude.TextMap.{TextMap, find, find-assign, text_eq-ne}
use muondetector_cluster.Runner.{is_zero}
use muondetector_cluster.Source.Run.{done}
use muondetector_cluster.Link.{
  Status, Mqtt, Mosquitto, Message, Subscriber, p_subscribe, push_message, c_string,
  callback_message, check_connection, give_subscriber, subscribe, status_eq,
}

-- The callbacks of the subscribers whose filter matches, in the order of the filters.
abbrev pub listeners : (Text → Text → Bool) → Text → TextMap Subscriber → List ℕ
listeners matches topic [] = []
listeners matches topic ((filter, s) ∷ rows) =
    let rest = listeners matches topic rows in
    if matches filter topic then s.callback ++ rest else rest

abbrev pub called : List (ℕ × Message) → List ℕ
called [] = []
called ((c, message) ∷ calls) = c ∷ called calls

called-append : (xs ys : List (ℕ × Message)) → called (xs ++ ys) ≡ called xs ++ called ys
called-append [] ys = refl
called-append ((c, message) ∷ xs) ys = ap (λ l. c ∷ l) (called-append xs ys)

push_message-called : (cs : List ℕ) (message : Message) → called (push_message cs message) ≡ cs
unfolding push_message
push_message-called [] message = refl
push_message-called (c ∷ cs) message = ap (λ l. c ∷ l) (push_message-called cs message)

abbrev pub Carry : Message → List (ℕ × Message) → Type 0
Carry message = All (λ (c, sent). sent ≡ message)

push_message-Carry : (cs : List ℕ) (message : Message) → Carry message (push_message cs message)
unfolding push_message
push_message-Carry [] message = tt
push_message-Carry (c ∷ cs) message = (refl, push_message-Carry cs message)

module _ (m : Mosquitto) where
  -- A message with a payload is passed to every callback of every subscriber whose filter matches,
  -- in the order of the filters and of the callbacks, with its topic and the payload up to the
  -- first zero byte, and to no other.
  pub callback_message-delivers :
      (topic bytes : Text) (rows : TextMap Subscriber)
      → let message : Message = record { topic = topic; content = c_string bytes } in
        (calls : List (ℕ × Message)) × (callback_message m topic (some bytes) rows ≡ done calls)
        × (called calls ≡ listeners m.matches topic rows)
        × Carry message calls
  unfolding callback_message
  callback_message-delivers topic bytes [] = ([], refl, refl, tt)
  callback_message-delivers topic bytes ((filter, s) ∷ rows) =
      let (calls, e, c, k) = callback_message-delivers topic bytes rows in
      let message : Message = record { topic = topic; content = c_string bytes } in
      elim (Bool-cases (m.matches filter topic)) [
        | inl hit ↦ (
          push_message s.callback message ++ calls,
          rw (hit, e) refl,
          rw hit (
              called-append (push_message s.callback message) calls
              ∙ ap₂ (λ a b. a ++ b) (push_message-called s.callback message) c),
          All-append _ _ calls (push_message-Carry s.callback message) k,
        )
        | inr miss ↦ (calls, rw (miss, e) refl, rw miss c, k)
      ]

  -- What a call of `subscribe` gives.
  abbrev pub IsSubscribed : Text → Mqtt → Option Subscriber × Mqtt → Type 0
  IsSubscribed topic l (none, t) = t.subscribers ≡ l.subscribers
  IsSubscribed topic l (some s, t) =
      (find topic t.subscribers ≡ some s)
      × ((q : Text) → topic ≢ q → find q t.subscribers ≡ find q l.subscribers)
      × (subscribe m topic t ≡ done (some s, t))

  connected-check : (l : Mqtt) → l.status ≡ Status.connected → check_connection m l ≡ done (true, l)
  unfolding check_connection status_eq
  connected-check l c = rw c refl

  subscribe-kept :
      (topic : Text) (s : Subscriber) (l : Mqtt)
      → l.status ≡ Status.connected
      → find topic l.subscribers ≡ some s
      → subscribe m topic l ≡ done (some s, l)
  unfolding subscribe give_subscriber
  subscribe-kept topic s l c e = rw (connected-check l c, e) refl

  give_subscriber-IsSubscribed :
      (topic : Text) (o : Option Subscriber) (l : Mqtt)
      → l.status ≡ Status.connected
      → find topic l.subscribers ≡ o
      → IsSubscribed topic l (give_subscriber m topic o l)
  unfolding give_subscriber p_subscribe
  give_subscriber-IsSubscribed topic (some s) l c e = (e, λ q n. refl, subscribe-kept topic s l c e)
  give_subscriber-IsSubscribed topic none l c e =
      if-cases (IsSubscribed topic l) (not (is_zero (m.subscribe l.calls topic))) _ _
        (λ refused. refl)
        (λ accepted.
          let s : Subscriber = record { topic = topic; callback = [] } in
          let kept = find-assign topic topic s l.subscribers in
          let mine = kept ∙ (rw (text_eq_refl topic) refl) in
          (
            mine,
            λ q n. find-assign topic q s l.subscribers ∙ (rw (text_eq-ne topic q n) refl),
            subscribe-kept topic s _ c mine,
          ))

  -- On a connected link, `subscribe` gives the subscriber that is then kept for the topic, with
  -- those of other topics as they were, and a second call gives it again and changes nothing; or it
  -- throws, and leaves the subscribers as they were.
  pub subscribe-once :
      (topic : Text) (l : Mqtt)
      → l.status ≡ Status.connected
      → (o : Option Subscriber × Mqtt) × (subscribe m topic l ≡ done o) × IsSubscribed topic l o
  unfolding subscribe
  subscribe-once topic l c = (
    give_subscriber m topic (find topic l.subscribers) l,
    rw (connected-check l c) refl,
    give_subscriber-IsSubscribed topic (find topic l.subscribers) l c refl,
  )
