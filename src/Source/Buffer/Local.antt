-- ===== src/Source/Buffer/Local.antt =====
-- A message changes the collector of one sender only.
use muondetector_cluster.Prelude.{
  ℕ, ◌≤◌, ◌≡◌, refl, sym, subst, ◌∙◌, false, ◌||◌, List, [], ◌∷◌, Text, if◌then◌else◌, ltb, ◌==◌,
  length, length-append, arith, Option-cases, if-cases, inl, inr,
}
use muondetector_cluster.Prelude.Int.{ℤ}
use muondetector_cluster.Prelude.Assoc.{
  Map, lookup, insert, erase, IsSortedFrom, lookup-insert, lookup-erase, insert-IsSortedFrom,
  erase-IsSortedFrom,
}
use muondetector_cluster.Prelude.Texts.{codes, text_eq}
use muondetector_cluster.Message.{MessageParser, size}
use muondetector_cluster.Message.Words.{words}
use muondetector_cluster.Message.Parsing.{parse_lem}
use muondetector_cluster.Source.Run.{done, field}
use muondetector_cluster.Source.Run.Yields.{
  IfDone, IfDone-imp, >>=-IfDone, returns, throws_invalid, throws_overflow, faults, Run-Cases,
}
use muondetector_cluster.Source.Collector.{ItemCollector, ResultCode, has}
use muondetector_cluster.Source.Buffer.{
  Kind, sender, fresh, insert_new, begin_item, after_item, continue_item, dispatch_message,
  process_parsed, process_message,
}

-- What a message may do to the buffer: the entry of `hash` may change, and no other; and at most
-- `bound` items are put.
pub record IsLocal {A V : Type 0} (hash bound : ℕ) (buffer : Map V) (r : List A × Map V)
    : Type 0 where
  pub sorted : IsSortedFrom 0 r.1
  pub others : (q : ℕ) → (hash == q) ≡ false → lookup q r.1 ≡ lookup q buffer
  pub few : length r.0 ≤ bound

module _ {A : Type 0} (kind : Kind A) (now : ℤ) (hash : ℕ) (topic content : MessageParser) where
  stays :
      (bound : ℕ) (items : List A) (buffer : Map (ItemCollector A))
      → IsSortedFrom 0 buffer
      → length items ≤ bound
      → IsLocal hash bound buffer (items, buffer)
  stays bound items buffer sorted few = record { sorted = sorted; others = λ q h. refl; few = few }

  stores :
      (bound : ℕ) (c : ItemCollector A) (buffer : Map (ItemCollector A))
      → IsSortedFrom 0 buffer
      → IsLocal {A = A} hash bound buffer ([], insert hash c buffer)
  stores bound c buffer sorted = record {
    sorted = insert-IsSortedFrom 0 hash c buffer (omega arith) sorted;
    others = λ q h. ground (arith, lookup-insert hash q c buffer);
    few = omega arith;
  }

  stores_new :
      (c : ItemCollector A) (buffer : Map (ItemCollector A))
      → IsSortedFrom 0 buffer
      → IsLocal {A = A} hash 1 buffer ([], insert_new hash c buffer)
  unfolding insert_new
  stores_new c buffer sorted = elim (Option-cases (lookup hash buffer)) [
    | inl e ↦ rw (insert_new, e) (stores 1 c buffer sorted)
    | inr (d, e) ↦ rw (insert_new, e) (stays 1 [] buffer sorted (omega arith))
  ]

  begins :
      (buffer : Map (ItemCollector A))
      → IsSortedFrom 0 buffer
      → IfDone (IsLocal hash 1 buffer) (begin_item kind now hash topic content buffer)
  unfolding begin_item
  begins buffer sorted =
      let P = IsLocal {A = A} hash 1 buffer in
      >>=-IfDone P (sender topic) _ λ user.
        >>=-IfDone P (kind.add now topic content (fresh kind now user)) _ λ r.
          if-cases P (has 2 r.0) (r.1.item ∷ [], buffer) _
            (λ finished. stays 1 (r.1.item ∷ []) buffer sorted (omega arith))
            (λ h.
              if-cases P (has 1 r.0) ([], insert_new hash r.1 buffer) ([], buffer)
                (λ k. stores_new r.1 buffer sorted) (λ k. stays 1 [] buffer sorted (omega arith)))

  after :
      (code : ResultCode) (items : List A) (buffer left : Map (ItemCollector A))
      → IsLocal {A = A} hash 1 buffer (items, left)
      → IfDone (IsLocal hash 2 buffer) (after_item kind now hash topic content code items left)
  unfolding after_item
  after code items buffer left h =
      let P = IsLocal {A = A} hash 2 buffer in
      if-cases (IfDone P) (has 8 code) _ (done (items, left))
        (λ b. elim (Run-Cases (begin_item kind now hash topic content left)) [
          | returns more e ↦
              let part = subst (IfDone (IsLocal hash 1 left)) e (begins left h.sorted) in
              rw e (record {
                sorted = part.sorted;
                others = λ q ne. part.others q ne ∙ h.others q ne;
                few = omega (arith, length-append items more.0, part.few, h.few);
              })
          | throws_invalid e ↦ rw e tt
          | throws_overflow e ↦ rw e tt
          | faults e ↦ rw e tt
        ])
        (λ b. record { sorted = h.sorted; others = h.others; few = omega (arith, h.few) })

  continues :
      (c : ItemCollector A) (buffer : Map (ItemCollector A))
      → IsSortedFrom 0 buffer
      → IfDone (IsLocal hash 2 buffer) (continue_item kind now hash topic content c buffer)
  unfolding continue_item
  continues c buffer sorted =
      let P = IsLocal {A = A} hash 2 buffer in
      >>=-IfDone P (kind.add now topic content c) _ λ r.
        if-cases (IfDone P) (has 2 r.0 || has 4 r.0) _ (done ([], insert hash r.1 buffer))
          (λ b.
            after r.0 (if has 2 r.0 then r.1.item ∷ [] else []) buffer (erase hash buffer) (record {
              sorted = erase-IsSortedFrom 0 hash buffer sorted;
              others = λ q ne. ground (arith, lookup-erase hash q 0 buffer sorted);
              few = ground arith;
            }))
          (λ b. stores 2 r.1 buffer sorted)

-- What the parser makes of a text.
abbrev pub parsed : ℕ → Text → MessageParser
parsed d text = record { content = text; iterator = []; delimiter = d; fields = words d text }

-- What a message of some sender may do.
abbrev pub LocalToOne : {A V : Type 0} → Map V → List A × Map V → Type 0
LocalToOne buffer r = (hash : ℕ) × IsLocal hash 2 buffer r

module _ {A : Type 0} (kind : Kind A) (now : ℤ) where
  dispatches :
      (topic content : MessageParser) (buffer : Map (ItemCollector A))
      → IsSortedFrom 0 buffer
      → IfDone (LocalToOne buffer) (dispatch_message kind now topic content buffer)
  unfolding dispatch_message
  dispatches topic content buffer sorted =
      let P = LocalToOne {A = A} buffer in
      >>=-IfDone P (kind.generate_hash topic content) _ λ hash.
        elim (Option-cases (lookup hash buffer)) [
          | inl e ↦ rw e (
              IfDone-imp (IsLocal hash 1 buffer) P
                (λ r h. (
                  hash,
                  record { sorted = h.sorted; others = h.others; few = omega (arith, h.few) },
                ))
                (begin_item kind now hash topic content buffer)
                (begins kind now hash topic content buffer sorted))
          | inr (c, e) ↦ rw e (
              IfDone-imp (IsLocal hash 2 buffer) P (λ r h. (hash, h))
                (continue_item kind now hash topic content c buffer)
                (continues kind now hash topic content c buffer sorted))
        ]

  parses :
      (topic content : MessageParser) (buffer : Map (ItemCollector A))
      → IsSortedFrom 0 buffer
      → IfDone (LocalToOne buffer) (process_parsed kind now topic content buffer)
  unfolding process_parsed
  parses topic content buffer sorted =
      let P = LocalToOne {A = A} buffer in
      let ignored : LocalToOne {A = A} buffer ([], buffer) =
        (0, stays kind now 0 topic content 2 [] buffer sorted (omega arith)) in
      if-cases (IfDone P) (ltb (size topic) 4 || ltb (size content) 2) (done ([], buffer)) _
        (λ h. ignored)
        (λ h. >>=-IfDone P (field topic 2) _ λ user.
          if-cases (IfDone P) (text_eq user [] || text_eq user (codes "cluster"))
            (done ([], buffer)) _ (λ k. ignored) (λ k. dispatches topic content buffer sorted))

  -- `process` sees the words of the topic and of the content.
  pub process_message-process_parsed :
      (topic content : Text) (buffer : Map (ItemCollector A))
      → process_message kind now topic content buffer
        ≡ process_parsed kind now (parsed b'/' topic) (parsed b' ' content) buffer
  unfolding process_message
  process_message-process_parsed topic content buffer =
      ground (arith, parse_lem topic b'/', parse_lem content b' ')

  -- A message that is processed without an exception changes the collector of one hash at most:
  -- what the buffer holds for every other hash stays, its entries stay in order, and no more than
  -- two items are put.
  pub process_message-LocalToOne :
      (topic content : Text) (buffer : Map (ItemCollector A))
      → IsSortedFrom 0 buffer
      → IfDone (LocalToOne buffer) (process_message kind now topic content buffer)
  process_message-LocalToOne topic content buffer sorted =
      subst (IfDone (LocalToOne {A = A} buffer))
        (sym (process_message-process_parsed topic content buffer))
        (parses (parsed b'/' topic) (parsed b' ' content) buffer sorted)
