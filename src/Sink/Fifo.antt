-- ===== src/Sink/Fifo.antt =====
-- A sink's thread takes the items in the order in which they were put.
use muondetector_cluster.Prelude.{
  ℕ, zero, suc, ◌≤◌, ◌≡◌, ◌≢◌, refl, ap, ◌∙◌, ◌⊎◌, inl, inr, true, false, List, [], ◌∷◌, ◌++◌, some,
  arith, length, Bool-cases,
}
use mathlib.Core.List.{append_assoc}
use muondetector_cluster.Prelude.Int.{ℤ}
use muondetector_cluster.Message.{is_empty}
use muondetector_cluster.Runner.{is_zero}
use muondetector_cluster.Sink.{Process, Wake, Outcome, idle_step, handle_items, sink_step}

empty-nil : {A : Type 0} (xs : List A) → is_empty xs ≡ true → xs ≡ []
empty-nil [] e = refl
empty-nil (x ∷ xs) e = absurd (cc (e))

module _ {A W : Type 0} (process : Process A W) where
  -- The items handled in order, as long as the code is 0.
  abbrev pub handle_each : List A → W → W
  handle_each [] w = w
  handle_each (item ∷ items) w = handle_each items (process.each item w).1

  -- What was handled of what was in the queue or came into it, and what is left.
  pub record Batch (limit : ℕ) (before : List A) (w : W) (after : ℤ × List A × W) : Type 0 where
    pub handled : List A
    pub came : List A
    pub conserved : handled ++ after.1 ≡ before ++ came
    pub bounded : length handled ≤ limit
    pub some_handled : handled ≢ []
    -- All is handled, or the batch is full; then `process()` follows. Or an item's code ends it.
    pub ending :
        (((after.1 ≡ []) ⊎ (length handled ≡ limit))
          × (after ≡ (
            (process.idle (handle_each handled w)).0,
            after.1,
            (process.idle (handle_each handled w)).1,
          )))
        ⊎ ((is_zero after.0 ≡ false) × (after.2 ≡ handle_each handled w))

  abbrev Handles : ℕ → List A → W → Outcome A W → Type 0
  Handles limit items w o = (after : ℤ × List A × W) × (o ≡ some after) × Batch limit items w after

  -- The first item of a batch: it ends the batch by its code, as the last one in the queue, or as
  -- the last one of the batch.
  first_fails :
      (left : ℕ) (item : A) (items came : List A) (w : W)
      → is_zero (process.each item w).0 ≡ false
      → Batch
          (suc left)
          (item ∷ items)
          w
          ((process.each item w).0, items ++ came, (process.each item w).1)
  first_fails left item items came w e = record {
    handled = item ∷ [];
    came = came;
    conserved = refl;
    bounded = omega arith;
    some_handled = λ q. absurd (cc (q));
    ending = inr (e, refl);
  }

  first_ends :
      (left : ℕ) (item : A) (items came : List A) (w : W)
      → ((items ++ came ≡ []) ⊎ (1 ≡ suc left))
      → (let v = (process.each item w).1 in
          Batch (suc left) (item ∷ items) w ((process.idle v).0, items ++ came, (process.idle v).1))
  first_ends left item items came w e = record {
    handled = item ∷ [];
    came = came;
    conserved = refl;
    bounded = omega arith;
    some_handled = λ q. absurd (cc (q));
    ending = inl (e, refl);
  }

  then_more :
      (left : ℕ) (item : A) (items came : List A) (w : W) (after : ℤ × List A × W)
      → Batch left (items ++ came) (process.each item w).1 after
      → Batch (suc left) (item ∷ items) w after
  then_more left item items came w after b = record {
    handled = item ∷ b.handled;
    came = came ++ b.came;
    conserved = ap (λ xs. item ∷ xs) (b.conserved ∙ append_assoc items came b.came);
    bounded = omega (arith, b.bounded);
    some_handled = λ q. absurd (cc (q));
    ending = elim b.ending [
      | inl (inl empty, e) ↦ inl (inl empty, e)
      | inl (inr full, e) ↦ inl (inr (omega (arith, full)), e)
      | inr fails ↦ inr fails
    ];
  }

  handle_items-Handles :
      (arrivals : ℕ → List A) (left : ℕ) (items : List A) (w : W)
      → is_empty items ≡ false
      → Handles (suc left) items w (handle_items process arrivals (suc left) items w)
  unfolding handle_items
  handle_items-Handles arrivals left [] w e = absurd (cc (e))
  handle_items-Handles arrivals zero (item ∷ items) w e =
      let v = (process.each item w).1 in
      elim (Bool-cases (is_zero (process.each item w).0)) [
        | inr fails ↦ (_, rw fails refl, first_fails 0 item items (arrivals 0) w fails)
        | inl ok ↦ (
          ((process.idle v).0, items ++ arrivals 0, (process.idle v).1),
          unfold idle_step in ground (arith, ok),
          first_ends 0 item items (arrivals 0) w (inr refl),
        )
      ]
  handle_items-Handles arrivals (suc left) (item ∷ items) w e =
      let queue = items ++ arrivals (suc left) in
      let v = (process.each item w).1 in
      elim (Bool-cases (is_zero (process.each item w).0)) [
        | inr fails ↦
            (_, rw fails refl, first_fails (suc left) item items (arrivals (suc left)) w fails)
        | inl ok ↦ elim (Bool-cases (is_empty queue)) [
          | inl last ↦ (
            ((process.idle v).0, queue, (process.idle v).1),
            unfold idle_step in ground (arith, ok, last),
            first_ends (suc left) item items (arrivals (suc left)) w (inl (empty-nil queue last)),
          )
          | inr more ↦
              let (after, made, batch) = handle_items-Handles arrivals left queue v more in
              (
                after,
                ground (arith, ok, more, made),
                then_more (suc left) item items (arrivals (suc left)) w after batch,
              )
        ]
      ]

  -- A step of a sink that finds items in its queue and is not told to quit handles some of them,
  -- ten at most, in the order of the queue, while other threads put more behind them: what it
  -- handles and what it leaves is, in order, what was there and what came. It goes on to
  -- `process()` once the queue is empty or ten are handled, unless an item's code is not 0, which
  -- it returns.
  pub sink_step-Batch :
      (wake : Wake) (woken : List A) (arrivals : ℕ → List A) (item : A) (items : List A) (w : W)
      → (after : ℤ × List A × W) × (sink_step process wake woken false arrivals (item ∷ items) w
          ≡ some after)
        × Batch 10 (item ∷ items) w after
  unfolding sink_step
  sink_step-Batch wake woken arrivals item items w =
      handle_items-Handles arrivals 9 (item ∷ items) w refl
