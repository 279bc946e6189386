-- ===== src/Filter/Timeouts.antt =====
-- `process()`: what is sent on and what stays in the buffer.
use muondetector_cluster.Prelude.{
  ℕ, zero, suc, ◌+◌, ◌≡◌, refl, sym, ap, ◌∙◌, Bool, true, false, List, [], ◌∷◌, ◌++◌, some, arith,
  if◌then◌else◌, length, get_elem?, set, erase_idx, Bool-cases, inl, inr, subst,
}
use mathlib.Core.List.{append_assoc, append-nil}
use muondetector_cluster.Prelude.Int.{ℤ, ◌-ℤ◌, ltb_ℤ, leb_ℤ}
use muondetector_cluster.Prelude.Sums.{sum_by, tally, sum_by-append}
use muondetector_cluster.Event.{Event, EventData, n}
use muondetector_cluster.Event.Hits.{hits}
use muondetector_cluster.Constructor.{Constructor, set_timeout, timed_out}
use muondetector_cluster.State.{State, increase_event_count, set_queue_size}
use muondetector_cluster.Filter.{Filter, send_finished, process}
use muondetector_cluster.Filter.Conserve.Absorb.{held}

-- The supervisor after it has been told of outgoing events.
abbrev pub counted : List Event → State → State
counted [] sup = sup
counted (e ∷ es) sup = counted es (increase_event_count false (n e) sup)

module _ (now timeout : ℤ) where
  -- The longer of the constructor's timeout and the new one.
  abbrev pub longer : Constructor → ℤ
  longer c = if ltb_ℤ c.timeout timeout then timeout else c.timeout

  abbrev pub renewed : Constructor → Constructor
  renewed c = record c { timeout = longer c }

  -- The longer timeout has passed since the constructor was made.
  abbrev pub is_over : Constructor → Bool
  is_over c = leb_ℤ (longer c) (now -ℤ c.start)

  -- The constructors that stay, in their order, under the longer timeout.
  abbrev pub kept : List Constructor → List Constructor
  kept [] = []
  kept (c ∷ cs) = if is_over c then kept cs else renewed c ∷ kept cs

  -- The events of the others, the last first.
  abbrev pub sent : List Constructor → List Event
  sent [] = []
  sent (c ∷ cs) = sent cs ++ (if is_over c then c.event ∷ [] else [])

  kept-append : (cs ds : List Constructor) → kept (cs ++ ds) ≡ kept cs ++ kept ds
  kept-append [] ds = refl
  kept-append (c ∷ cs) ds = ground (arith, kept-append cs ds)

  sent-append : (cs ds : List Constructor) → sent (cs ++ ds) ≡ sent ds ++ sent cs
  sent-append [] ds = sym (append-nil (sent ds))
  sent-append (c ∷ cs) ds = rw (sent-append cs ds) (append_assoc (sent ds) (sent cs) _)

at_end :
    (pre post : List Constructor) (c : Constructor)
    → get_elem? (pre ++ c ∷ post) (length pre) ≡ some c
at_end [] post c = refl
at_end (x ∷ pre) post c = at_end pre post c

erase_at_end :
    (pre post : List Constructor) (c : Constructor)
    → erase_idx (pre ++ c ∷ post) (length pre) ≡ pre ++ post
erase_at_end [] post c = refl
erase_at_end (x ∷ pre) post c = ap (◌∷◌ x) (erase_at_end pre post c)

set_at_end :
    (pre post : List Constructor) (c d : Constructor)
    → set (pre ++ c ∷ post) (length pre) d ≡ pre ++ d ∷ post
set_at_end [] post c d = refl
set_at_end (x ∷ pre) post c d = ap (◌∷◌ x) (set_at_end pre post c d)

-- A list of `suc i` entries has a last one.
unsnoc :
    (i : ℕ) (cs : List Constructor)
    → length cs ≡ suc i
    → (pre : List Constructor) × (c : Constructor) × (cs ≡ pre ++ c ∷ []) × (length pre ≡ i)
unsnoc i [] h = absurd (omega arith)
unsnoc zero (c ∷ []) h = ([], c, refl, refl)
unsnoc zero (c ∷ x ∷ cs) h = absurd (omega arith)
unsnoc (suc i) (c ∷ cs) h =
    let (pre, d, e, l) = unsnoc i cs (omega arith) in (c ∷ pre, d, ap (◌∷◌ c) e, ap suc l)

set_timeout-renewed :
    (now timeout : ℤ) (c : Constructor) → set_timeout timeout c ≡ renewed now timeout c
unfolding set_timeout
set_timeout-renewed now timeout c = ground arith

timed_out-set_timeout :
    (now timeout : ℤ) (c : Constructor)
    → timed_out now (set_timeout timeout c) ≡ is_over now timeout c
unfolding timed_out
timed_out-set_timeout now timeout c = rw (set_timeout-renewed now timeout c) refl

-- One round of the loop, at the end of the part that is still ahead of it.
send_finished-step :
    (now timeout : ℤ) (pre post : List Constructor) (c : Constructor) (sup : State)
    → send_finished now timeout (suc (length pre)) (pre ++ c ∷ post) sup
      ≡ elim (is_over now timeout c) [
        | true ↦
            let (cs', sup', out) =
              send_finished now timeout
                (length pre)
                (pre ++ post)
                (increase_event_count false (n c.event) sup) in
            (cs', sup', c.event ∷ out)
        | false ↦ send_finished now timeout (length pre) (pre ++ renewed now timeout c ∷ post) sup
      ]
unfolding send_finished
send_finished-step now timeout pre post c sup = elim (Bool-cases (is_over now timeout c)) [
  | inl over ↦
      rw
        (
          send_finished,
          at_end pre post c,
          timed_out-set_timeout now timeout c ∙ over,
          over,
          ap (λ r. r.event) (set_timeout-renewed now timeout c),
          erase_at_end pre post c,
        )
        refl
  | inr waits ↦
      rw
        (
          send_finished,
          at_end pre post c,
          timed_out-set_timeout now timeout c ∙ waits,
          waits,
          set_timeout-renewed now timeout c,
          set_at_end pre post c (renewed now timeout c),
        )
        refl
]

-- What the loop does from index `i - 1` down to the `i` constructors before `post`.
abbrev Sends : ℤ → ℤ → ℕ → List Constructor → List Constructor → State → Type 0
Sends now timeout i cs post sup =
    send_finished now timeout i (cs ++ post) sup
    ≡ (kept now timeout cs ++ post, counted (sent now timeout cs) sup, sent now timeout cs)

Sends-snoc :
    (now timeout : ℤ) (pre post : List Constructor) (c : Constructor) (sup : State)
    → ((post' : List Constructor) (sup' : State) → Sends now timeout (length pre) pre post' sup')
    → Sends now timeout (suc (length pre)) (pre ++ c ∷ []) post sup
Sends-snoc now timeout pre post c sup ih =
    rw
      (
        append_assoc pre (c ∷ []) post,
        kept-append now timeout pre (c ∷ []),
        sent-append now timeout pre (c ∷ []),
        send_finished-step now timeout pre post c sup,
      )
      (elim (Bool-cases (is_over now timeout c)) [
        | inl over ↦
            rw
              (
                over,
                ih post (increase_event_count false (n c.event) sup),
                append-nil (kept now timeout pre),
              )
              refl
        | inr waits ↦
            rw
              (
                waits,
                ih (renewed now timeout c ∷ post) sup,
                append_assoc (kept now timeout pre) (renewed now timeout c ∷ []) post,
              )
              refl
      ])

Sends-all :
    (now timeout : ℤ) (i : ℕ) (cs post : List Constructor) (sup : State)
    → length cs ≡ i
    → Sends now timeout i cs post sup
unfolding send_finished
Sends-all now timeout zero [] post sup h = refl
Sends-all now timeout zero (c ∷ cs) post sup h = absurd (omega arith)
Sends-all now timeout (suc i) cs post sup h =
    let (pre, c, e, l) = unsnoc i cs h in
    subst (λ ds. Sends now timeout (suc i) ds post sup) (sym e)
      (subst (λ k. Sends now timeout (suc k) (pre ++ c ∷ []) post sup) l
        (Sends-snoc now timeout pre post c sup (λ post' sup'.
          subst (λ k. Sends now timeout k pre post' sup') (sym l)
            (Sends-all now timeout i pre post' sup' l))))

-- `process()` gives every constructor the longer of its timeout and the new one, sends on the
-- events of exactly those whose time since they were made has reached it, the last in the buffer
-- first, keeps the others in their order, and tells the supervisor of each event sent and of the
-- size of what is left.
pub process_lem :
    (now : ℤ) (f : Filter)
    → process now f ≡ (
      record f {
        constructors = kept now f.timeout f.constructors;
        supervisor =
            set_queue_size
              (length (kept now f.timeout f.constructors))
              (counted (sent now f.timeout f.constructors) f.supervisor);
      },
      sent now f.timeout f.constructors,
    )
unfolding process
process_lem now f = rw (whole, append-nil (kept now f.timeout f.constructors)) refl
  where
    whole : send_finished now f.timeout (length f.constructors) f.constructors f.supervisor ≡ (
      kept now f.timeout f.constructors ++ [],
      counted (sent now f.timeout f.constructors) f.supervisor,
      sent now f.timeout f.constructors,
    )
    whole =
        subst
          (λ cs. send_finished now f.timeout (length f.constructors) cs f.supervisor ≡ (
            kept now f.timeout f.constructors ++ [],
            counted (sent now f.timeout f.constructors) f.supervisor,
            sent now f.timeout f.constructors,
          ))
          (append-nil f.constructors)
          (Sends-all now f.timeout (length f.constructors) f.constructors [] f.supervisor refl)

-- The hits that pass the test, over a list of events.
abbrev pub sent_hits : (EventData → Bool) → List Event → ℕ
sent_hits p = sum_by (λ e. tally p (hits e))

kept-sent-total :
    (p : EventData → Bool) (now timeout : ℤ) (cs : List Constructor)
    → sum_by (held p) (kept now timeout cs) + sent_hits p (sent now timeout cs) ≡ sum_by (held p) cs
kept-sent-total p now timeout [] = refl
kept-sent-total p now timeout (c ∷ cs) = ground (
  arith,
  kept-sent-total p now timeout cs,
  sum_by-append (λ e. tally p (hits e)) (sent now timeout cs) (c.event ∷ []),
  append-nil (sent now timeout cs),
)

-- For every test on hits, what `process()` sends on and what it keeps hold together as many hits
-- that pass as the buffer held before.
pub process_conserves :
    (p : EventData → Bool) (now : ℤ) (f : Filter)
    → sum_by (held p) (process now f).0.constructors + sent_hits p (process now f).1
      ≡ sum_by (held p) f.constructors
process_conserves p now f = rw (process_lem now f) (kept-sent-total p now f.timeout f.constructors)
