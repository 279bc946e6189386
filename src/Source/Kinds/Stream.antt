-- ===== src/Source/Kinds/Stream.antt =====
-- A stream of detectors' hits, from the text of the messages to the events that are put.
use muondetector_cluster.Prelude.{
  ℕ, ◌≤◌, ◌<◌, ◌≡◌, refl, sym, subst, false, ◌||◌, List, [], ◌∷◌, ◌++◌, some, Text, ltb, arith,
  Bool-cases, inl, inr, get_elem?, get_elem?-of_lt, length, All, All-append,
}
use muondetector_cluster.Prelude.Int.{ℤ}
use muondetector_cluster.Prelude.Assoc.{Map, lookup}
use muondetector_cluster.Prelude.Texts.{codes, text_eq}
use muondetector_cluster.Event.{Event, UserInfo}
use muondetector_cluster.Message.{MessageParser, size}
use muondetector_cluster.Message.Words.{words}
use muondetector_cluster.Source.Run.{Run, done, invalid, overflow, fault, ◌>>=◌, field, Numbers}
use muondetector_cluster.Source.Run.Yields.{
  Sound, returns, throws_invalid, throws_overflow, faults, Run-Cases,
}
use muondetector_cluster.Source.Collector.{ItemCollector, ResultCode, has, code_value}
use muondetector_cluster.Source.Events.{add_event, add_hit}
use muondetector_cluster.Source.Events.Single.{InRange, Timely, HitOutcome, add_hit_lem}
use muondetector_cluster.Source.Buffer.{
  drop, append_parts, sender, fresh, begin_item, dispatch_message, process_parsed, process_message,
  content_hash,
}
use muondetector_cluster.Source.Buffer.Local.{parsed, process_message-process_parsed}
use muondetector_cluster.Source.Kinds.{event_kind}

-- A message as it arrives: the time, the topic, the content.
pub record Arrival : Type 0 where
  pub now : ℤ
  pub topic : Text
  pub content : Text

-- Not the topic of a level-1 coincidence; and the first two fields of the content are refused by
-- the conversion, or give numbers of seconds of which 64 bits hold the nanoseconds.
abbrev pub IsHit : Numbers → Arrival → Type 0
IsHit std m =
    ((kind : Text)
      → get_elem? (words b'/' m.topic) 1 ≡ some kind
      → text_eq kind (codes "l1data") ≡ false)
    × Timely std (words b' ' m.content)

-- The events of single hits, with their end not before their start and their numbers in range.
abbrev pub IsSingle : Event → Type 0
IsSingle e = InRange e.head × (e.events ≡ [])

module _ (std : Numbers) where
  -- The callback for each of the messages; an exception or a fault ends the program.
  unfoldable pub process_stream :
      List Arrival → Map (ItemCollector Event) → Run (List Event × Map (ItemCollector Event))
  process_stream [] buffer = done ([], buffer)
  process_stream (m ∷ ms) buffer = do
    r ← process_message (event_kind std) m.now m.topic m.content buffer
    rest ← process_stream ms r.1
    done (r.0 ++ rest.0, rest.1)

-- Only events of single hits are put, and the buffer stays empty.
abbrev pub PutsSingles : Run (List Event × Map (ItemCollector Event)) → Type 0
PutsSingles (done (items, buffer)) = All IsSingle items × (buffer ≡ [])
PutsSingles invalid = ⊥
PutsSingles overflow = ⊥
PutsSingles fault = ⊥

-- The rule for two messages one after the other.
PutsSingles-after :
    (items : List Event) (second : Run (List Event × Map (ItemCollector Event)))
    → All IsSingle items
    → PutsSingles second
    → PutsSingles (do rest ← second; done (items ++ rest.0, rest.1))
PutsSingles-after items (done (more, buffer)) h (k, e) = (All-append IsSingle items more h k, e)
PutsSingles-after items invalid h k = k
PutsSingles-after items overflow h k = k
PutsSingles-after items fault h k = k

PutsSingles-then :
    (first : Run (List Event × Map (ItemCollector Event)))
    (second : Map (ItemCollector Event) → Run (List Event × Map (ItemCollector Event)))
    → PutsSingles first
    → PutsSingles (second [])
    → PutsSingles (do r ← first; rest ← second r.1; done (r.0 ++ rest.0, rest.1))
PutsSingles-then (done (items, buffer)) second (h, e) k =
    subst (λ b. PutsSingles (do rest ← second b; done (items ++ rest.0, rest.1))) (sym e)
      (PutsSingles-after items (second []) h k)
PutsSingles-then invalid second h k = h
PutsSingles-then overflow second h k = h
PutsSingles-then fault second h k = h

module _ (std : Numbers) (sound : Sound std) (topic content : MessageParser)
    (topic_long : 4 ≤ size topic) (content_long : 2 ≤ size content)
    (hit : (kind : Text)
      → get_elem? topic.fields 1 ≡ some kind
      → text_eq kind (codes "l1data") ≡ false)
    (timely : Timely std content.fields) where
  adds : (c : ItemCollector Event) → HitOutcome std c (add_event std topic content c)
  adds c =
      let has_kind : 1 < length topic.fields = unfold size in omega (arith, topic_long) in
      let (kind, q) = get_elem?-of_lt topic.fields 1 has_kind in
      elim (Bool-cases (ltb (size content) 7)) [
        | inl short ↦
            let made : add_event std topic content c ≡ done (ResultCode.error, c) =
              unfold add_event in ground (arith, short) in
            subst (HitOutcome std c) (sym made) (inl (refl, refl))
        | inr enough ↦
            let made : add_event std topic content c ≡ add_hit std topic content c =
              unfold add_event field size in ground (arith, enough, q, hit kind q) in
            subst (HitOutcome std c) (sym made)
              (add_hit_lem std sound topic content topic_long (ground (arith, enough)) timely c)
      ]

  sender-done : (user : UserInfo) × (sender topic ≡ done user)
  unfolding sender field size
  sender-done =
      let (name, p) = get_elem?-of_lt topic.fields 2 (omega (arith, topic_long)) in
      let (site, q) = get_elem?-of_lt topic.fields 3 (omega (arith, topic_long)) in
      (
        record { username = name; station_id = append_parts site (drop 4 topic.fields) },
        ground (arith, p, q),
      )

  begins :
      (now : ℤ) (hash : ℕ) → PutsSingles (begin_item (event_kind std) now hash topic content [])
  begins now hash =
      let (user, u) = sender-done in
      let c = fresh (event_kind std) now user in
      elim (Run-Cases (add_event std topic content c)) [
        | returns (code, c') e ↦ elim (subst (HitOutcome std c) e (adds c)) [
          | inl (err, same) ↦
              let made : begin_item (event_kind std) now hash topic content [] ≡ done ([], []) =
                unfold begin_item has code_value in ground (arith, u, e, err) in
              subst PutsSingles (sym made) (tt, refl)
          | inr (finished, lone, fits, own, clear) ↦
              let made : begin_item (event_kind std) now hash topic content []
                  ≡ done (c'.item ∷ [], []) =
                unfold begin_item has code_value in ground (arith, u, e, finished) in
              subst PutsSingles (sym made) (((fits, lone), tt), refl)
        ]
        | throws_invalid e ↦ absurd (subst (HitOutcome std c) e (adds c))
        | throws_overflow e ↦ absurd (subst (HitOutcome std c) e (adds c))
        | faults e ↦ absurd (subst (HitOutcome std c) e (adds c))
      ]

  -- Behind the tests on the number of fields.
  reads : (now : ℤ) → PutsSingles (dispatch_message (event_kind std) now topic content [])
  reads now =
      let has_text : 0 < length content.fields = unfold size in omega (arith, content_long) in
      let (stamp, q) = get_elem?-of_lt content.fields 0 has_text in
      let made : dispatch_message (event_kind std) now topic content []
          ≡ begin_item (event_kind std) now (std.hash stamp) topic content [] =
        unfold dispatch_message content_hash field lookup in ground (arith, q) in
      subst PutsSingles (sym made) (begins now (std.hash stamp))

module _ (std : Numbers) (sound : Sound std) where
  parses :
      (now : ℤ) (topic content : MessageParser)
      → ((kind : Text)
          → get_elem? topic.fields 1 ≡ some kind
          → text_eq kind (codes "l1data") ≡ false)
      → Timely std content.fields
      → PutsSingles (process_parsed (event_kind std) now topic content [])
  parses now topic content hit timely =
      elim (Bool-cases (ltb (size topic) 4 || ltb (size content) 2)) [
        | inl short ↦
            let made : process_parsed (event_kind std) now topic content [] ≡ done ([], []) =
              unfold process_parsed in ground (arith, short) in
            subst PutsSingles (sym made) (tt, refl)
        | inr enough ↦
            let topic_long : 4 ≤ size topic = ground (arith, enough) in
            let content_long : 2 ≤ size content = ground (arith, enough) in
            let has_user : 2 < length topic.fields = unfold size in omega (arith, topic_long) in
            let (user, q) = get_elem?-of_lt topic.fields 2 has_user in
            elim (Bool-cases (text_eq user [] || text_eq user (codes "cluster"))) [
              | inl ignored ↦
                  let made : process_parsed (event_kind std) now topic content [] ≡ done ([], []) =
                    unfold process_parsed field in ground (arith, enough, q, ignored) in
                  subst PutsSingles (sym made) (tt, refl)
              | inr known ↦
                  let made : process_parsed (event_kind std) now topic content []
                      ≡ dispatch_message (event_kind std) now topic content [] =
                    unfold process_parsed field in ground (arith, enough, q, known) in
                  subst PutsSingles (sym made)
                    (reads std sound topic content topic_long content_long hit timely now)
            ]
      ]

  step :
      (m : Arrival)
      → IsHit std m
      → PutsSingles (process_message (event_kind std) m.now m.topic m.content [])
  step m (hit, timely) =
      subst PutsSingles
        (sym (process_message-process_parsed (event_kind std) m.now m.topic m.content []))
        (parses m.now (parsed b'/' m.topic) (parsed b' ' m.content) hit timely)

  -- Detectors' messages, however many, are processed to the end, whatever they contain but times of
  -- which 64 bits do not hold the nanoseconds, if the library's conversions return or throw and its
  -- hash has 64 bits: none throws an exception, reads a field that is not there or converts a
  -- number out of range, the buffer stays empty, and each event that is put is one of a single hit
  -- with its end not before its start, and its times, its hash and its other numbers in their
  -- widths.
  pub process_stream-PutsSingles :
      (ms : List Arrival) → All (IsHit std) ms → PutsSingles (process_stream std ms [])
  unfolding process_stream
  process_stream-PutsSingles [] hits = (tt, refl)
  process_stream-PutsSingles (m ∷ ms) (hit, hits) =
      PutsSingles-then (process_message (event_kind std) m.now m.topic m.content [])
        (process_stream std ms) (step m hit) (process_stream-PutsSingles ms hits)
