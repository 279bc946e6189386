-- ===== src/Runner/Progress.antt =====
-- How a runner comes to its end.
use muondetector_cluster.Prelude.{
  ℕ, zero, suc, ◌≤◌, ◌≡◌, refl, Bool, true, false, ◌||◌, List, [], ◌∷◌, some, arith, if◌then◌else◌,
  length, if-cases,
}
use muondetector_cluster.Prelude.Int.{ℤ, pos, ◌+ℤ◌}
use muondetector_cluster.Runner.{
  Runner, RunState, Outcome, Place, Future, advance, unless_failed, leave, finalise, is_zero, stop,
  start, join, wait, new_runner, run_state_value,
}

-- The thread goes on, with the ends of the calls that it makes; where it makes none, the outcome is
-- not looked at.
abbrev pub advance_all : List Outcome → Runner → Runner
advance_all [] r = r
advance_all (o ∷ os) r = advance_all os (advance o r)

-- How many steps a thread that is told to stop takes at most.
abbrev pub remaining : Bool → Place → ℕ
remaining custom Place.unstarted = 7
remaining custom Place.entering = 6
remaining custom Place.preparing = 5
remaining custom Place.looping = if custom then 4 else 2
remaining custom Place.stepping = 3
remaining custom Place.concluding = 1
remaining custom Place.ended = 0

abbrev pub is_started : Place → Bool
is_started Place.unstarted = false
is_started Place.entering = true
is_started Place.preparing = true
is_started Place.looping = true
is_started Place.stepping = true
is_started Place.concluding = true
is_started Place.ended = true

-- A thread that is told to stop stays so, and has `k` steps left at most.
record IsBound (custom : Bool) (k : ℕ) (r : Runner) : Type 0 where
  kind : r.use_custom_run ≡ custom
  started : is_started r.place ≡ true
  told : r.run ≡ false
  near : remaining custom r.place ≤ k

unless_failed-IsBound :
    (custom : Bool) (k : ℕ) (o : Outcome) (next r : Runner)
    → r.use_custom_run ≡ custom
    → r.run ≡ false
    → IsBound custom k next
    → IsBound custom k (unless_failed o next r)
unfolding unless_failed leave
unless_failed-IsBound custom k (Outcome.returned value) next r kind told b =
    if-cases (IsBound custom k) (is_zero value) next (leave RunState.error value r) (λ e. b)
      (λ e. record { kind = kind; started = refl; told = told; near = omega arith })
unless_failed-IsBound custom k Outcome.thrown next r kind told b = record {
  kind = kind;
  started = refl;
  told = told;
  near = omega arith;
}

advance_at :
    (custom : Bool) (k : ℕ) (o : Outcome) (p : Place) (r : Runner)
    → r.place ≡ p
    → is_started p ≡ true
    → r.use_custom_run ≡ custom
    → r.run ≡ false
    → remaining custom p ≤ suc k
    → IsBound custom k (advance o r)
unfolding advance leave
advance_at custom k o Place.unstarted r e s kind told near = absurd (cc (s))
advance_at custom k o Place.entering r e s kind told near =
    rw (advance, e)
      (record { kind = kind; started = refl; told = told; near = omega (arith, near) })
advance_at custom k o Place.preparing r e s kind told near =
    rw (advance, e)
      (unless_failed-IsBound custom k o
        (record r { state = RunState.running; place = Place.looping }) r kind told
        (record { kind = kind; started = refl; told = told; near = ground (arith, near) }))
advance_at custom k o Place.looping r e s kind told near =
    rw (advance, e)
      (if-cases (IsBound custom k) (r.use_custom_run || r.run) (record r { place = Place.stepping })
        (finalise r)
        (λ b. record {
          kind = kind;
          started = refl;
          told = told;
          near = ground (arith, b, kind, told, near);
        })
        (λ b. record {
          kind = kind;
          started = refl;
          told = told;
          near = ground (arith, b, kind, told, near);
        }))
advance_at custom k o Place.stepping r e s kind told near =
    rw (advance, e)
      (unless_failed-IsBound custom k o
        (if r.use_custom_run then finalise r else record r { place = Place.looping }) r kind told
        (if-cases (IsBound custom k) r.use_custom_run (finalise r)
          (record r { place = Place.looping })
          (λ b. record {
            kind = kind;
            started = refl;
            told = told;
            near = ground (arith, b, kind, told, near);
          })
          (λ b. record {
            kind = kind;
            started = refl;
            told = told;
            near = ground (arith, b, kind, told, near);
          })))
advance_at custom k (Outcome.returned value) Place.concluding r e s kind told near =
    rw (advance, e) (record { kind = kind; started = refl; told = told; near = omega arith })
advance_at custom k Outcome.thrown Place.concluding r e s kind told near =
    rw (advance, e) (record { kind = kind; started = refl; told = told; near = omega arith })
advance_at custom k o Place.ended r e s kind told near =
    rw (advance, e)
      (record { kind = kind; started = ground (arith, e); told = told; near = ground (arith, e) })

-- Without steps left the thread is behind the end of `exec`.
remaining-ended :
    (custom : Bool) (p : Place) → is_started p ≡ true → remaining custom p ≤ 0 → p ≡ Place.ended
remaining-ended custom Place.unstarted s h = absurd (cc (s))
remaining-ended custom Place.entering s h = absurd (omega (arith, h))
remaining-ended custom Place.preparing s h = absurd (omega (arith, h))
remaining-ended custom Place.looping s h = absurd (ground (arith, h))
remaining-ended custom Place.stepping s h = absurd (omega (arith, h))
remaining-ended custom Place.concluding s h = absurd (omega (arith, h))
remaining-ended custom Place.ended s h = refl

-- A started runner that is told to stop comes to the end of `exec` after as many steps of its
-- thread as remain where it is, at most six, whatever the calls that it makes return or throw.
pub advance_all-ended :
    (os : List Outcome) (r : Runner)
    → is_started r.place ≡ true
    → r.run ≡ false
    → remaining r.use_custom_run r.place ≤ length os
    → (advance_all os r).place ≡ Place.ended
advance_all-ended [] r s told near = remaining-ended r.use_custom_run r.place s near
advance_all-ended (o ∷ os) r s told near =
    let b = advance_at r.use_custom_run (length os) o r.place r refl s refl told near in
    advance_all-ended os (advance o r) b.started b.told (rw b.kind b.near)

-- The ends of `count` calls of `step`, each behind a test of the loop.
abbrev pub quiet_steps : ℕ → List Outcome
quiet_steps zero = []
quiet_steps (suc count) = Outcome.thrown ∷ Outcome.returned (pos 0) ∷ quiet_steps count

-- The runner in its loop.
abbrev pub in_loop : Runner
in_loop = record {
  use_custom_run = false;
  run = true;
  quit = false;
  exit_code = pos 0;
  future = Future.pending;
  state = RunState.running;
  thread = true;
  place = Place.looping;
}

quiet_steps-in_loop : (count : ℕ) → advance_all (quiet_steps count) in_loop ≡ in_loop
unfolding advance unless_failed
quiet_steps-in_loop zero = refl
quiet_steps-in_loop (suc count) = quiet_steps-in_loop count

-- The thread of a runner that is started, prepared well and has made `count` steps.
abbrev pub looped : ℕ → Runner
looped count =
    advance_all (quiet_steps count)
      (advance_all (Outcome.thrown ∷ Outcome.returned (pos 0) ∷ []) (start (new_runner false)))

looped-in_loop : (count : ℕ) → looped count ≡ in_loop
unfolding advance unless_failed start run_state_value
looped-in_loop count = quiet_steps-in_loop count

-- A runner of a loop that is started, is prepared with 0, makes any number of steps that return 0,
-- and is told to stop with a code ends as `Stopped`, and `wait` returns the sum of the code and of
-- what `post_run` returns.
pub wait-looped :
    (count : ℕ) (code value : ℤ)
    → let r =
        advance_all (Outcome.thrown ∷ Outcome.returned value ∷ []) (stop code (looped count)) in
      (r.state ≡ RunState.stopped) × (t : Runner) × (wait r ≡ some (value +ℤ code, t))
unfolding advance leave stop wait join
wait-looped count code value = rw (looped-in_loop count) (refl, _, refl)
