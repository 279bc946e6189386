-- ===== src/Link/Tests.antt =====
-- Witnesses and tests for the link.
use muondetector_cluster.Prelude.{
  ℕ, ◌≡◌, refl, ◌-◌, ◌+◌, true, false, [], ◌∷◌, List, All, arith, some,
}
use muondetector_cluster.Prelude.Texts.{codes, text_eq}
use muondetector_cluster.Prelude.TextMap.{TextMap}
use muondetector_cluster.Prelude.Int.{pos}
use muondetector_cluster.Source.Run.{done}
use muondetector_cluster.Link.{
  Status, Mqtt, Mosquitto, Message, Subscriber, Call, Callback, connection, disconnection, pause,
  awaiting, new_link, set_callback, log, set_status, announce, receive_all, callback_message,
  c_string, status_eq,
}
use muondetector_cluster.Link.Connect.{connect}
use muondetector_cluster.Link.Keyed.{IsKeyed}
use muondetector_cluster.Link.Reach.{made, then_step, sets_callback, Reach-IsKeyed}
use muondetector_cluster.Link.GivesUp.{IsRefusal, HasGivenUp, connect-gives_up}
use muondetector_cluster.Link.Lost.{connect-woken_early}
use muondetector_cluster.Link.Delivery.{called, Carry, callback_message-delivers}

-- The library reports `answer` while a connection is awaited.
answers : Callback → List Call → List Callback
answers answer [] = []
answers answer (awaiting ∷ calls) = answer ∷ []
answers answer (_ ∷ calls) = []

abbrev library : Callback → Mosquitto
unfolding answers
library answer = record {
  subscribe = λ calls topic. pos 0;
  publish = λ calls topic content. pos 0;
  password = λ calls. pos 0;
  connect = λ calls. pos 0;
  disconnect = λ calls. pos 0;
  matches = text_eq;
  polls = λ calls. [];
  arrivals = answers answer;
  stopped = λ calls. false;
}

abbrev accepting : Mosquitto
accepting = library (connection (pos 0))

abbrev refusing : Mosquitto
refusing = library (connection (pos 5))

abbrev fresh_link : Mqtt
fresh_link = new_link true

connected_link : (l : Mqtt) × (connect accepting 1 fresh_link ≡ some (done (true, l)))
unfolding connect library
connected_link = (_, refl)

answers-IsRefusal : (calls : List Call) → All IsRefusal (answers (connection (pos 5)) calls)
unfolding answers
answers-IsRefusal [] = tt
answers-IsRefusal (awaiting ∷ calls) = (refl, tt)
answers-IsRefusal (_ ∷ calls) = tt

connect-gives_up_example : HasGivenUp (0 + (10 - 0)) (connect refusing 11 fresh_link)
unfolding status_eq library answers
connect-gives_up_example =
    connect-gives_up refusing (λ calls. (answers-IsRefusal calls, tt)) 11 fresh_link refl refl
      (omega arith) (omega arith)

abbrev up : Mqtt
up = set_status Status.connected fresh_link

connect-woken_early_example :
    let (goes_on, woken) = announce up in
    let found = log (pause 0) woken in
    (goes_on ≡ true)
    × (woken.wakes ≡ 1)
    × (connect accepting 1 woken ≡ some (done (true, found)))
    × (receive_all accepting (disconnection (pos 7) ∷ []) (set_status Status.error found)
        ≡ done (set_status Status.error found))
unfolding answers
connect-woken_early_example =
    connect-woken_early accepting 0 up (disconnection (pos 7) ∷ []) refl refl refl (refl, tt)

abbrev rows : TextMap Subscriber
rows = (codes "data", record { topic = codes "data"; callback = 3 ∷ 4 ∷ [] }) ∷ []

callback_message-delivers_example :
    let message : Message = record { topic = codes "data"; content = c_string (codes "x") } in
    (calls : List (ℕ × Message)) × (callback_message accepting
        (codes "data")
        (some (codes "x"))
        rows
      ≡ done calls)
    × (called calls ≡ 3 ∷ 4 ∷ [])
    × Carry message calls
unfolding library
callback_message-delivers_example =
    callback_message-delivers accepting (codes "data") (codes "x") rows

Reach-IsKeyed_example : IsKeyed (set_callback (codes "data") 3 fresh_link)
Reach-IsKeyed_example =
    Reach-IsKeyed accepting (set_callback (codes "data") 3 fresh_link)
      (then_step (made true) (sets_callback (codes "data") 3 fresh_link))
