-- ===== src/Link.antt =====
-- `link::mqtt` of include/link/mqtt.h and src/link/mqtt.cpp: the connection to the broker, which
-- other parts publish and subscribe through. The library that talks to the broker is a parameter,
-- as are the callbacks that its thread makes while the program's own threads wait: both are given
-- by the calls made so far. An exception in that thread ends the program; it is `overflow` here.
pub mod Connect
pub mod Keyed
pub mod Reach
pub mod GivesUp
pub mod Lost
pub mod Delivery
mod Tests
use muondetector_cluster.Prelude.{
  ℕ, zero, suc, ◌+◌, Bool, true, false, not, ◌||◌, ◌&&◌, List, [], ◌∷◌, ◌++◌, Option, none, some,
  if◌then◌else◌, ◌==◌, Text, length, map,
}
use muondetector_cluster.Prelude.Int.{ℤ}
use muondetector_cluster.Prelude.TextMap.{TextMap, find, assign, keys}
use muondetector_cluster.Runner.{is_zero}
use muondetector_cluster.Source.Run.{Run, done, overflow, fault, ◌>>=◌}

pub data Status : Type 0 where
  invalid connected disconnected connecting error : Status

unfoldable pub status_eq : Status → Status → Bool
status_eq Status.invalid Status.invalid = true
status_eq Status.connected Status.connected = true
status_eq Status.disconnected Status.disconnected = true
status_eq Status.connecting Status.connecting = true
status_eq Status.error Status.error = true
status_eq _ _ = false

pub record Message : Type 0 where
  pub topic : Text
  pub content : Text

pub record Publisher : Type 0 where
  pub topic : Text

-- The callbacks are numbered by who gave them.
pub record Subscriber : Type 0 where
  pub topic : Text
  pub callback : List ℕ

-- `m_connect_future`: not valid, valid without a value, and with one.
pub data Future : Type 0 where
  absent open_one : Future
  kept : Bool → Future

-- What is asked of the library, the waits included.
pub data Call : Type 0 where
  loop_start loop_stop destroy lib_cleanup : Call
  set_password connect_to disconnect_from : Call
  subscribe_to unsubscribe_from : Text → Call
  publish_to : Text → Text → Call
  pause : ℕ → Call
  polling awaiting : Call

-- The calls are the newest first; `wakes` counts the calls of `m_condition.notify_all`.
pub record Mqtt : Type 0 where
  pub status : Status
  pub publishers : TextMap Publisher
  pub subscribers : TextMap Subscriber
  pub future : Future
  pub tries : ℕ
  pub handle : Bool
  pub wakes : ℕ
  pub calls : List Call

-- What the library's thread reports.
pub data Callback : Type 0 where
  connection disconnection : ℤ → Callback

-- The results of the calls; `polls` are the callbacks in each sleep of `wait_for`, as many sleeps
-- as the duration takes; `arrivals` those in another wait; `stopped` is whether `on_stop` ends that
-- wait.
pub record Mosquitto : Type 0 where
  pub subscribe : List Call → Text → ℤ
  pub publish : List Call → Text → Text → ℤ
  pub password : List Call → ℤ
  pub connect : List Call → ℤ
  pub disconnect : List Call → ℤ
  pub matches : Text → Text → Bool
  pub polls : List Call → List (List Callback)
  pub arrivals : List Call → List Callback
  pub stopped : List Call → Bool

abbrev pub new_link : Bool → Mqtt
new_link handle = record {
  status = Status.invalid;
  publishers = [];
  subscribers = [];
  future = absent;
  tries = 0;
  handle = handle;
  wakes = 0;
  calls = [];
}

abbrev pub log : Call → Mqtt → Mqtt
log c l = record l { calls = c ∷ l.calls }

abbrev pub set_status : Status → Mqtt → Mqtt
set_status status l = record l { status = status }

-- `m_connect_promise.set_value`, which throws when there is a value already.
unfoldable pub set_value : Bool → Mqtt → Run Mqtt
set_value value l = elim l.future [
  | open_one ↦ done (record l { future = kept value })
  | _ ↦ overflow
]

-- A text that is made of a pointer ends before the first zero byte.
unfoldable pub c_string : Text → Text
c_string [] = []
c_string (c ∷ s) = let rest = c_string s in if c == 0 then [] else c ∷ rest

-- The first part of `callback_disconnected` for an error: whether it goes on, after it has woken
-- the thread of the link.
unfoldable pub announce : Mqtt → Bool × Mqtt
unfolding status_eq
announce l =
    if status_eq l.status Status.error || status_eq l.status Status.disconnected
    then (false, l)
    else (true, record l { wakes = l.wakes + 1 })

unfoldable pub callback_disconnected : ℤ → Mqtt → Mqtt
unfolding announce
callback_disconnected result l =
    let (goes_on, l') = announce l in
    if is_zero result
    then set_status Status.disconnected l
    else if goes_on
    then set_status Status.error l'
    else l'

-- `set_callback` of the subscriber of a topic.
unfoldable pub set_callback : Text → ℕ → Mqtt → Mqtt
set_callback topic callback l = elim (find topic l.subscribers) [
  | none ↦ l
  | some s ↦ record l {
    subscribers = assign topic (record s { callback = s.callback ++ callback ∷ [] }) l.subscribers;
  }
]

-- `push_message`: who is called with what
unfoldable pub push_message : List ℕ → Message → List (ℕ × Message)
push_message [] message = []
push_message (c ∷ cs) message = (c, message) ∷ push_message cs message

-- The publisher of a topic: the one there is, or a new one.
unfoldable pub give_publisher : Text → Option Publisher → Mqtt → Publisher × Mqtt
give_publisher topic (some p) l = (p, l)
give_publisher topic none l =
    let p : Publisher = record { topic = topic } in
    (p, record l { publishers = assign topic p l.publishers })

module _ (m : Mosquitto) where
  unfoldable pub p_subscribe : Text → Mqtt → Bool × Mqtt
  p_subscribe topic l = (is_zero (m.subscribe l.calls topic), log (subscribe_to topic) l)

  -- The loop of `callback_connected`, which leaves the results.
  unfoldable pub subscribe_all : List Text → Mqtt → Mqtt
  unfolding p_subscribe
  subscribe_all [] l = l
  subscribe_all (topic ∷ topics) l = subscribe_all topics (p_subscribe topic l).1

  unfoldable pub callback_connected : ℤ → Mqtt → Run Mqtt
  unfolding set_value subscribe_all
  callback_connected result l = elim l.future [
    | absent ↦ done l
    | _ ↦
        if is_zero result
        then (let l' = record (set_status Status.connected l) { tries = 0 } in
            set_value true (subscribe_all (keys l'.subscribers) l'))
        else set_value false (set_status Status.error l)
  ]

  unfoldable pub receive : Callback → Mqtt → Run Mqtt
  unfolding callback_connected callback_disconnected
  receive (connection result) l = callback_connected result l
  receive (disconnection result) l = done (callback_disconnected result l)

  unfoldable pub receive_all : List Callback → Mqtt → Run Mqtt
  unfolding receive
  receive_all [] l = done l
  receive_all (c ∷ cs) l = receive c l >>= λ l'. receive_all cs l'

  -- The loop of `wait_for`, a sleep for each list of callbacks.
  unfoldable pub poll : Status → List (List Callback) → Mqtt → Run (Bool × Mqtt)
  unfolding receive_all status_eq
  poll status [] l = done (false, l)
  poll status (cs ∷ sleeps) l =
      if status_eq l.status status
      then done (true, l)
      else receive_all cs l >>= λ l'. poll status sleeps l'

  unfoldable pub wait_for : Status → Mqtt → Run (Bool × Mqtt)
  unfolding poll
  wait_for status l = let l' = log polling l in poll status (m.polls l'.calls) l'

  unfoldable pub check_connection : Mqtt → Run (Bool × Mqtt)
  unfolding wait_for status_eq
  check_connection l =
      if not (status_eq l.status Status.connected)
      then if status_eq l.status Status.connecting
        then wait_for Status.connected l
        else done (false, l)
      else done (true, l)

  -- The `publish` of a topic and a content.
  unfoldable pub publish : Text → Text → Mqtt → Run (Bool × Mqtt)
  unfolding check_connection
  publish topic content l = check_connection l >>= λ (ready, l'). done (
      if not ready
      then (false, l')
      else (is_zero (m.publish l'.calls topic content), log (publish_to topic content) l'))

  unfoldable pub unsubscribe : Text → Mqtt → Run Mqtt
  unfolding check_connection
  unsubscribe topic l = check_connection l >>= λ (ready, l').
      done (if not ready then l' else log (unsubscribe_from topic) l')

  -- The `publish` of a topic; it throws where there is no publisher in the result.
  unfoldable pub publisher_of : Text → Mqtt → Run (Option Publisher × Mqtt)
  unfolding check_connection give_publisher
  publisher_of topic l = check_connection l >>= λ (ready, l').
      let (p, l'') = give_publisher topic (find topic l'.publishers) l' in
      done (if not ready then (none, l') else (some p, l''))

  -- The subscriber of a topic: the one there is, or a new one if the broker accepts it.
  unfoldable pub give_subscriber : Text → Option Subscriber → Mqtt → Option Subscriber × Mqtt
  unfolding p_subscribe
  give_subscriber topic (some s) l = (some s, l)
  give_subscriber topic none l =
      let (accepted, l') = p_subscribe topic l in
      let s : Subscriber = record { topic = topic; callback = [] } in
      if not accepted
      then (none, l')
      else (some s, record l' { subscribers = assign topic s l'.subscribers })

  -- `subscribe`; it throws where there is no subscriber in the result.
  unfoldable pub subscribe : Text → Mqtt → Run (Option Subscriber × Mqtt)
  unfolding check_connection give_subscriber
  subscribe topic l = check_connection l >>= λ (ready, l').
      let given = give_subscriber topic (find topic l'.subscribers) l' in
      done (if not ready then (none, l') else given)

  -- `callback_message`: the calls that are made, in their order. A null pointer for the payload is
  -- read only where a subscriber's filter matches.
  unfoldable pub callback_message :
      Text → Option Text → TextMap Subscriber → Run (List (ℕ × Message))
  unfolding push_message c_string
  callback_message topic payload [] = done []
  callback_message topic payload ((filter, s) ∷ rows) =
      let rest = callback_message topic payload rows in
      if m.matches filter topic
      then elim payload [
        | none ↦ fault
        | some bytes ↦ rest >>= λ calls.
            done (
              push_message s.callback (record { topic = topic; content = c_string bytes }) ++ calls)
      ]
      else rest

-- The two `publish` of a publisher.
unfoldable pub publisher_publish : Mosquitto → Publisher → Text → Mqtt → Run (Bool × Mqtt)
unfolding publish
publisher_publish m p content l = publish m p.topic content l

unfoldable pub publisher_publish_sub :
    Mosquitto → Publisher → Text → Text → Mqtt → Run (Bool × Mqtt)
unfolding publish
publisher_publish_sub m p subtopic content l = publish m (p.topic ++ b'/' ∷ subtopic) content l

-- `client_id`, with the hash and the stream's hexadecimal number.
unfoldable pub client_id : (Text → ℕ) → (ℕ → Text) → Text → Text → Text
client_id hash hex username station_id = hex (hash (username ++ station_id))
