-- ===== src/Runner/Reach.antt =====
-- What holds of a runner in every order of calls from the threads that share it.
use muondetector_cluster.Prelude.{
  ◌≡◌, refl, subst, Bool, true, false, ◌||◌, not, none, some, arith, if◌then◌else◌, ltb, Bool-cases,
  inl, inr, ◌⊎◌, if-cases,
}
use muondetector_cluster.Prelude.Int.{ℤ, negsuc, ◌+ℤ◌}
use muondetector_cluster.Runner.{
  Runner, new_runner, RunState, Outcome, Place, Future, advance, unless_failed, leave, stop, start,
  start_synchronuos, is_zero, finalise, join, wait, run_state_value,
}

-- One call: the thread's own next step, or a call from another thread.
pub data Step : Runner → Runner → Type 0 where
  moves : (o : Outcome) (r : Runner) → Step r (advance o r)
  stops : (exit_code : ℤ) (r : Runner) → Step r (stop exit_code r)
  starts : (r : Runner) → Step r (start r)
  starts_here : (r : Runner) → r.place ≡ Place.unstarted → Step r (start_synchronuos r)
  joins : (r t : Runner) → join r ≡ some t → Step r t
  waits : (value : ℤ) (r t : Runner) → wait r ≡ some (value, t) → Step r t

-- What can be reached from a new runner.
pub data Reach (custom : Bool) : Runner → Type 0 where
  here : Reach custom (new_runner custom)
  further : (r t : Runner) → Reach custom r → Step r t → Reach custom t

-- The states that `state() <= Stopped` and `start` tell from the others.
abbrev pub is_over : RunState → Bool
is_over state = ltb (run_state_value state) 2

-- What a thread's place says of the state and of the promise.
abbrev pub Fits : Place → Runner → Type 0
Fits Place.unstarted r =
    (r.state ≡ RunState.initial) × (r.future ≡ Future.absent) × (r.thread ≡ false)
Fits Place.entering r = ltb (run_state_value r.state) 3 ≡ true
Fits Place.preparing r = (r.state ≡ RunState.initialising) × (r.future ≡ Future.pending)
Fits Place.looping r = (r.state ≡ RunState.running) × (r.future ≡ Future.pending)
Fits Place.stepping r = (r.state ≡ RunState.running) × (r.future ≡ Future.pending)
Fits Place.concluding r =
    (r.state ≡ RunState.finalising)
    × (r.future ≡ Future.pending)
    × ((r.use_custom_run || not r.run) ≡ true)
Fits Place.ended r = is_over r.state ≡ true

pub record IsConsistent (r : Runner) : Type 0 where
  pub fits : Fits r.place r
  -- `m_quit` and `m_run` are never set apart.
  pub told : r.quit ≡ not r.run
  -- A loop that ended well was told to end.
  pub asked : r.state ≡ RunState.stopped → (r.use_custom_run || not r.run) ≡ true

new_runner-IsConsistent : (custom : Bool) → IsConsistent (new_runner custom)
new_runner-IsConsistent custom = record {
  fits = (refl, refl, refl);
  told = refl;
  asked = λ e. absurd (cc (e));
}

-- Being told to stop: the loop may end.
told_to-stop : (custom : Bool) → (custom || true) ≡ true
told_to-stop true = refl
told_to-stop false = refl

stop-Fits : (code : ℤ) (p : Place) (r : Runner) → Fits p r → Fits p (stop code r)
unfolding stop
stop-Fits code Place.unstarted r f = f
stop-Fits code Place.entering r f = f
stop-Fits code Place.preparing r f = f
stop-Fits code Place.looping r f = f
stop-Fits code Place.stepping r f = f
stop-Fits code Place.concluding r (f, g, h) = (f, g, told_to-stop r.use_custom_run)
stop-Fits code Place.ended r f = f

stop-IsConsistent : (code : ℤ) (r : Runner) → IsConsistent r → IsConsistent (stop code r)
unfolding stop
stop-IsConsistent code r c = record {
  fits = stop-Fits code r.place r c.fits;
  told = refl;
  asked = λ e. told_to-stop r.use_custom_run;
}

-- The end of `run`, well or not.
leave-IsConsistent :
    (state : RunState) (value : ℤ) (r : Runner)
    → is_over state ≡ true
    → r.quit ≡ not r.run
    → (state ≡ RunState.stopped → (r.use_custom_run || not r.run) ≡ true)
    → IsConsistent (leave state value r)
unfolding leave
leave-IsConsistent state value r over told asked = record {
  fits = over;
  told = told;
  asked = asked;
}

unless_failed-IsConsistent :
    (o : Outcome) (next r : Runner)
    → IsConsistent r
    → IsConsistent next
    → IsConsistent (unless_failed o next r)
unfolding unless_failed run_state_value
unless_failed-IsConsistent (Outcome.returned value) next r c d =
    if-cases IsConsistent (is_zero value) next (leave RunState.error value r) (λ b. d)
      (λ b. leave-IsConsistent RunState.error value r refl c.told (λ e. absurd (cc (e))))
unless_failed-IsConsistent Outcome.thrown next r c d =
    leave-IsConsistent RunState.error (negsuc 0) r refl c.told (λ e. absurd (cc (e)))

finalise-IsConsistent :
    (r : Runner)
    → r.future ≡ Future.pending
    → (r.use_custom_run || not r.run) ≡ true
    → IsConsistent r
    → IsConsistent (finalise r)
finalise-IsConsistent r pending told c = record {
  fits = (refl, pending, told);
  told = c.told;
  asked = λ s. absurd (cc (s));
}

advance_at :
    (o : Outcome) (p : Place) (r : Runner)
    → r.place ≡ p
    → Fits p r
    → IsConsistent r
    → IsConsistent (advance o r)
unfolding advance
advance_at o Place.unstarted r e f c = rw (advance, e) c
advance_at o Place.entering r e f c =
    rw (advance, e) (record { fits = (refl, refl); told = c.told; asked = λ s. absurd (cc (s)) })
advance_at o Place.preparing r e (f, g) c =
    rw (advance, e)
      (unless_failed-IsConsistent o (record r { state = RunState.running; place = Place.looping }) r
        c (record { fits = (refl, g); told = c.told; asked = λ s. absurd (cc (s)) }))
advance_at o Place.looping r e (f, g) c =
    rw (advance, e)
      (if-cases IsConsistent (r.use_custom_run || r.run) (record r { place = Place.stepping })
        (finalise r) (λ b. record { fits = (f, g); told = c.told; asked = c.asked })
        (λ b. finalise-IsConsistent r g (ground (arith, b)) c))
advance_at o Place.stepping r e (f, g) c =
    rw (advance, e)
      (unless_failed-IsConsistent o
        (if r.use_custom_run then finalise r else record r { place = Place.looping }) r c
        (if-cases IsConsistent r.use_custom_run (finalise r) (record r { place = Place.looping })
          (λ b. finalise-IsConsistent r g (ground (arith, b)) c)
          (λ b. record { fits = (f, g); told = c.told; asked = c.asked })))
advance_at (Outcome.returned value) Place.concluding r e (f, g, h) c =
    rw (advance, e)
      (leave-IsConsistent RunState.stopped (value +ℤ r.exit_code) r (unfold run_state_value in refl)
        c.told (λ s. h))
advance_at Outcome.thrown Place.concluding r e (f, g, h) c =
    rw (advance, e)
      (leave-IsConsistent RunState.stopped (negsuc 0) r (unfold run_state_value in refl) c.told
        (λ s. h))
advance_at o Place.ended r e f c = rw (advance, e) c

start-IsConsistent : (r : Runner) → IsConsistent r → IsConsistent (start r)
unfolding start
start-IsConsistent r c =
    if-cases IsConsistent
      (ltb (run_state_value RunState.initial) (run_state_value r.state) || r.thread) r
      (record r { thread = true; place = Place.entering }) (λ b. c)
      (λ b. record {
        fits = unfold run_state_value in ground (arith, b);
        told = c.told;
        asked = c.asked;
      })

start_synchronuos-IsConsistent : (r : Runner) → IsConsistent r → IsConsistent (start_synchronuos r)
unfolding start_synchronuos
start_synchronuos-IsConsistent r c =
    if-cases IsConsistent (ltb (run_state_value RunState.initial) (run_state_value r.state)) r
      (record r { place = Place.entering }) (λ b. c)
      (λ b. record {
        fits = unfold run_state_value in ground (arith, b);
        told = c.told;
        asked = c.asked;
      })

-- What a call of `join` that returns leaves, and a `get` behind it.
abbrev joined : Runner → Runner
joined r = record r { thread = false }

abbrev released : Runner → Runner
released r = record r { thread = false; future = Future.absent }

joined-Fits : (p : Place) (r : Runner) → Fits p r → Fits p (joined r)
joined-Fits Place.unstarted r (f, g, h) = (f, g, refl)
joined-Fits Place.entering r f = f
joined-Fits Place.preparing r f = f
joined-Fits Place.looping r f = f
joined-Fits Place.stepping r f = f
joined-Fits Place.concluding r f = f
joined-Fits Place.ended r f = f

-- `join` blocks, or the thread is not inside `run`.
join-cases :
    (p : Place) (r : Runner)
    → r.place ≡ p
    → Fits p r
    → (join r ≡ none) ⊎ ((join r ≡ some (joined r)) × Fits p (released r))
unfolding join
join-cases Place.unstarted r e (f, g, h) = inr (ground (arith, e), (f, refl, refl))
join-cases Place.entering r e f = elim (Bool-cases r.thread) [
  | inl b ↦ inl (ground (arith, e, b))
  | inr b ↦ inr (ground (arith, e, b), f)
]
join-cases Place.preparing r e f = inl (ground (arith, e))
join-cases Place.looping r e f = inl (ground (arith, e))
join-cases Place.stepping r e f = inl (ground (arith, e))
join-cases Place.concluding r e f = inl (ground (arith, e))
join-cases Place.ended r e f = inr (ground (arith, e), f)

join-IsConsistent : (r t : Runner) → join r ≡ some t → IsConsistent r → IsConsistent t
join-IsConsistent r t e c = elim (join-cases r.place r refl c.fits) [
  | inl blocked ↦ absurd (cc (e, blocked))
  | inr (q, f) ↦
      subst IsConsistent (cc (e, q))
        (record { fits = joined-Fits r.place r c.fits; told = c.told; asked = c.asked })
]

-- `wait` without a promise, with one that is not kept, and with one that is.
wait_at :
    (f : Future) (value : ℤ) (r t : Runner)
    → r.future ≡ f
    → wait r ≡ some (value, t)
    → IsConsistent r
    → IsConsistent t
unfolding wait
wait_at Future.absent value r t k e c =
    let q : wait r ≡ some (negsuc 0, r) = ground (arith, k) in subst IsConsistent (cc (e, q)) c
wait_at Future.pending value r t k e c =
    let q : wait r ≡ none = ground (arith, k) in absurd (cc (e, q))
wait_at (Future.ready kept) value r t k e c = elim (join-cases r.place r refl c.fits) [
  | inl blocked ↦ let q : wait r ≡ none = ground (arith, k, blocked) in absurd (cc (e, q))
  | inr (open_join, f) ↦
      let q : wait r ≡ some (kept, released r) = ground (arith, k, open_join) in
      subst IsConsistent (cc (e, q)) (record { fits = f; told = c.told; asked = c.asked })
]

Step-IsConsistent : (r t : Runner) → Step r t → IsConsistent r → IsConsistent t
Step-IsConsistent r t (moves o s) c = advance_at o s.place s refl c.fits c
Step-IsConsistent r t (stops code s) c = stop-IsConsistent code s c
Step-IsConsistent r t (starts s) c = start-IsConsistent s c
Step-IsConsistent r t (starts_here s e) c = start_synchronuos-IsConsistent s c
Step-IsConsistent r t (joins s u e) c = join-IsConsistent s u e c
Step-IsConsistent r t (waits value s u e) c = wait_at s.future value s u refl e c

-- In whatever order its thread goes on and other threads call `start`, `stop`, `join` and `wait`, a
-- runner's state agrees with where its thread is; in particular, it is `Stopped` only after a call
-- of `stop` or the end of a custom run.
pub Reach-IsConsistent : (custom : Bool) (r : Runner) → Reach custom r → IsConsistent r
Reach-IsConsistent custom r here = new_runner-IsConsistent custom
Reach-IsConsistent custom r (further s t reach step) =
    Step-IsConsistent s r step (Reach-IsConsistent custom s reach)
