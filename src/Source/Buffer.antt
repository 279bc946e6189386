-- ===== src/Source/Buffer.antt =====
-- `source::mqtt<T>` (include/source/mqtt.h): the messages of a sender are collected until its item
-- is complete. What differs for each `T` is a `Kind`.
pub mod Local
use muondetector_cluster.Prelude.{
  ℕ, zero, suc, Bool, true, false, ◌||◌, List, [], ◌∷◌, ◌++◌, Option, none, some, Text,
  if◌then◌else◌, ltb,
}
use muondetector_cluster.Prelude.Int.{ℤ}
use muondetector_cluster.Prelude.Assoc.{Map, lookup, insert, erase}
use muondetector_cluster.Prelude.Texts.{codes, text_eq}
use muondetector_cluster.Event.{UserInfo, user_hash}
use muondetector_cluster.Message.{MessageParser, parse, size}
use muondetector_cluster.Source.Run.{Run, done, invalid, overflow, fault, ◌>>=◌, field}
use muondetector_cluster.Source.Collector.{ItemCollector, ResultCode, has}

-- The specialisations of `mqtt<T>`: the status of a new collector, `T {}`, `add` at a time of the
-- clock, and `generate_hash`.
pub record Kind (A : Type 0) : Type 0 where
  pub default_status : ℕ
  pub blank : A
  pub add : ℤ → MessageParser → MessageParser → ItemCollector A → Run (ResultCode × ItemCollector A)
  pub generate_hash : MessageParser → MessageParser → Run ℕ

abbrev pub drop : ℕ → List Text → List Text
drop zero parts = parts
drop (suc i) [] = []
drop (suc i) (part ∷ parts) = drop i parts

-- The loop over the rest of the topic.
unfoldable pub append_parts : Text → List Text → Text
append_parts site [] = site
append_parts site (part ∷ parts) = append_parts (site ++ b'/' ∷ part) parts

-- The sender that a topic names.
unfoldable pub sender : MessageParser → Run UserInfo
unfolding append_parts
sender topic = do
  username ← field topic 2
  site ← field topic 3
  done (record { username = username; station_id = append_parts site (drop 4 topic.fields) })

-- `generate_hash` of the other kinds; `hash` is `std::hash<std::string>`.
unfoldable pub sender_hash : (Text → ℕ) → MessageParser → Run ℕ
unfolding sender
sender_hash hash topic = do user ← sender topic; done (user_hash hash user)

-- `generate_hash` of events
unfoldable pub content_hash : (Text → ℕ) → MessageParser → Run ℕ
content_hash hash content = do text ← field content 0; done (hash text)

-- `m_buffer.insert`, which keeps an entry that is there.
unfoldable pub insert_new : {A : Type 0} → ℕ → A → Map A → Map A
insert_new hash x buffer = elim (lookup hash buffer) [
  | none ↦ insert hash x buffer
  | some y ↦ buffer
]

module _ {A : Type 0} (kind : Kind A) where
  -- `item_collector item; item.user_info = userinfo;`
  abbrev pub fresh : ℤ → UserInfo → ItemCollector A
  fresh now user = record {
    user_info = user;
    first_message = now;
    status = kind.default_status;
    item = kind.blank;
  }

  -- The second half of `process`: the items that are put, and the buffer.
  unfoldable pub begin_item :
      ℤ
      → ℕ
      → MessageParser
      → MessageParser
      → Map (ItemCollector A)
      → Run (List A × Map (ItemCollector A))
  unfolding has insert_new
  begin_item now hash topic content buffer = do
    user ← sender topic
    r ← kind.add now topic content (fresh now user)
    done (
        if has 2 r.0
        then (r.1.item ∷ [], buffer)
        else if has 1 r.0
        then ([], insert_new hash r.1 buffer)
        else ([], buffer))

  -- What follows a finished or abandoned item: after `NewEpoch`, the second half.
  unfoldable pub after_item :
      ℤ
      → ℕ
      → MessageParser
      → MessageParser
      → ResultCode
      → List A
      → Map (ItemCollector A)
      → Run (List A × Map (ItemCollector A))
  unfolding begin_item has
  after_item now hash topic content code items buffer =
      if has 8 code
      then (do more ← begin_item now hash topic content buffer; done (items ++ more.0, more.1))
      else done (items, buffer)

  -- The first half: the sender's collector takes the message.
  unfoldable pub continue_item :
      ℤ
      → ℕ
      → MessageParser
      → MessageParser
      → ItemCollector A
      → Map (ItemCollector A)
      → Run (List A × Map (ItemCollector A))
  unfolding after_item has
  continue_item now hash topic content c buffer = do
    r ← kind.add now topic content c
    if has 2 r.0 || has 4 r.0
        then after_item now hash topic content r.0 (if has 2 r.0 then r.1.item ∷ [] else [])
            (erase hash buffer)
        else done ([], insert hash r.1 buffer)

  -- `process` behind its first tests.
  unfoldable pub dispatch_message :
      ℤ
      → MessageParser
      → MessageParser
      → Map (ItemCollector A)
      → Run (List A × Map (ItemCollector A))
  unfolding begin_item continue_item
  dispatch_message now topic content buffer = do
    hash ← kind.generate_hash topic content
    elim (lookup hash buffer) [
      | some c ↦ continue_item now hash topic content c buffer
      | none ↦ begin_item now hash topic content buffer
    ]

  unfoldable pub process_parsed :
      ℤ
      → MessageParser
      → MessageParser
      → Map (ItemCollector A)
      → Run (List A × Map (ItemCollector A))
  unfolding dispatch_message
  process_parsed now topic content buffer =
      if ltb (size topic) 4 || ltb (size content) 2 then done ([], buffer) else (do
        user ← field topic 2
        if text_eq user [] || text_eq user (codes "cluster")
            then done ([], buffer)
            else dispatch_message now topic content buffer)

  -- `process` of a message's topic and content at the time `now`; the parser always returns.
  unfoldable pub process_message :
      ℤ → Text → Text → Map (ItemCollector A) → Run (List A × Map (ItemCollector A))
  unfolding process_parsed parse
  process_message now topic content buffer = elim (parse topic b'/') [
    | none ↦ fault
    | some t ↦ elim (parse content b' ') [ none ↦ fault | some c ↦ process_parsed now t c buffer ]
  ]
