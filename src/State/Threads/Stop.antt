-- ===== src/State/Threads/Stop.antt =====
-- The end of the program: a thread that ends takes the others with it.
use muondetector_cluster.Prelude.{
  ℕ, suc, ◌≡◌, ◌≢◌, refl, sym, subst, Bool, leb, get_elem?, ◌⊎◌, inl, inr, true, false, List, [],
  ◌∷◌, ◌++◌, some, arith, if◌then◌else◌, if-cases, All,
}
use muondetector_cluster.Prelude.Int.{ℤ, pos, negsuc, ◌+ℤ◌, ◌-ℤ◌, ltb_ℤ}
use muondetector_cluster.Prelude.Floats.{Floats}
use muondetector_cluster.Runner.{Runner, RunState, Place, Future, stop, wait, join, run_state_value}
use muondetector_cluster.Rate
use muondetector_cluster.State.{ClusterLog}
use muondetector_cluster.State.Threads.{
  Watch, Resources, any_over, watch_step, track, put_log, update_rates, stop_all, wait_all,
  post_run,
}

-- A thread whose `exec` is over, with what it returned.
abbrev pub HasEnded : Runner × ℤ → Type 0
HasEnded (r, value) = (r.place ≡ Place.ended) × (r.future ≡ Future.ready value)

abbrev pub total : List (Runner × ℤ) → ℤ
total [] = pos 0
total ((r, value) ∷ rest) = value +ℤ total rest

abbrev pub runners : List (Runner × ℤ) → List Runner
runners [] = []
runners ((r, value) ∷ rest) = r ∷ runners rest

-- What is left of a thread that was told to stop and waited for.
abbrev released : Runner → Runner
released r = record (stop (pos 0) r) { thread = false; future = Future.absent }

wait-stop :
    (r : Runner) (value : ℤ)
    → HasEnded (r, value)
    → wait (stop (pos 0) r) ≡ some (value, released r)
unfolding wait stop join
wait-stop r value (place, future) = ground (arith, place, future)

wait_all-ended :
    (ends : List (Runner × ℤ))
    → All HasEnded ends
    → (rs : List Runner) × (wait_all (stop_all (runners ends)) ≡ some (total ends, rs))
unfolding wait_all stop_all
wait_all-ended [] h = ([], refl)
wait_all-ended ((r, value) ∷ ends) (h, hs) =
    let (rs, made) = wait_all-ended ends hs in
    (released r ∷ rs, ground (arith, wait-stop r value h, made))

-- Once all threads have ended, `post_run` returns the sum of what they returned, or -1 if one of
-- them was found to have ended before.
pub post_run_lem :
    (ends : List (Runner × ℤ)) (w : Watch)
    → w.threads ≡ runners ends
    → All HasEnded ends
    → (t : Watch) × (post_run w ≡ some (if w.failure then negsuc 0 else total ends, t))
unfolding post_run
post_run_lem ends w same h =
    let (rs, made) = wait_all-ended ends h in
    (record w { threads = rs }, ground (arith, same, made))

-- What a step does if no thread has ended: the log with the count so far is put once its interval
-- is over, and the count starts again; otherwise neither changes.
abbrev pub Continues : ℤ → ℤ → Watch → Watch → Type 0
Continues interval now w t =
    (t.failure ≡ w.failure)
    × (t.own ≡ w.own)
    × (((ltb_ℤ (now -ℤ w.last) interval ≡ true)
          × (t.logs ≡ w.logs)
          × (t.counts.current_data.incoming ≡ w.counts.current_data.incoming)
          × (t.counts.current_data.outgoing ≡ w.counts.current_data.outgoing))
        ⊎ ((ltb_ℤ (now -ℤ w.last) interval ≡ false)
            × (log : ClusterLog) × (t.logs ≡ w.logs ++ log ∷ [])
            × (log.incoming ≡ w.counts.current_data.incoming)
            × (log.outgoing ≡ w.counts.current_data.outgoing)
            × (t.counts.current_data.incoming ≡ 0)
            × (t.counts.current_data.outgoing ≡ [])))

-- What a step does if a thread has ended.
abbrev pub Fails : Watch → Watch → Type 0
Fails w t =
    (t.failure ≡ true) × (t.own ≡ stop (pos 0) w.own) × (t.logs ≡ w.logs) × (t.counts ≡ w.counts)

abbrev pub IsDown : Runner → Type 0
IsDown r = (r.state ≡ RunState.stopped) ⊎ (r.state ≡ RunState.error)

abbrev pub IsUp : Runner → Type 0
IsUp r = (r.state ≢ RunState.stopped) × (r.state ≢ RunState.error)

-- One of the threads has ended.
abbrev pub SomeDown : List Runner → Type 0
SomeDown rs = (k : ℕ) × (r : Runner) × (get_elem? rs k ≡ some r) × IsDown r

down_or_up :
    (state : RunState)
    → ((leb (run_state_value state) 1 ≡ true)
        × ((state ≡ RunState.stopped) ⊎ (state ≡ RunState.error)))
      ⊎ ((leb (run_state_value state) 1 ≡ false)
          × (state ≢ RunState.stopped)
          × (state ≢ RunState.error))
unfolding run_state_value
down_or_up RunState.error = inl (refl, inr refl)
down_or_up RunState.stopped = inl (refl, inl refl)
down_or_up RunState.initial = inr (refl, (λ e. cc (e)), (λ e. cc (e)))
down_or_up RunState.initialising = inr (refl, (λ e. cc (e)), (λ e. cc (e)))
down_or_up RunState.running = inr (refl, (λ e. cc (e)), (λ e. cc (e)))
down_or_up RunState.finalising = inr (refl, (λ e. cc (e)), (λ e. cc (e)))

any_over_lem :
    (rs : List Runner)
    → ((any_over rs ≡ true) × SomeDown rs) ⊎ ((any_over rs ≡ false) × All IsUp rs)
unfolding any_over run_state_value
any_over_lem [] = inr (refl, tt)
any_over_lem (r ∷ rs) = elim (down_or_up r.state) [
  | inl (over, down) ↦ inl (rw over refl, (0, r, refl, down))
  | inr (waits, unstopped, sound) ↦ elim (any_over_lem rs) [
    | inl (over, (k, x, found, down)) ↦ inl (rw (waits, over) refl, (suc k, x, found, down))
    | inr (none_over, ups) ↦ inr (rw (waits, none_over) refl, ((unstopped, sound), ups))
  ]
]

put_log-Continues :
    (fl : Floats) (interval now : ℤ) (load : Resources) (between : List (Bool × ℕ)) (w : Watch)
    → Continues interval now w (put_log interval now between (track fl load w))
unfolding put_log track
put_log-Continues fl interval now load between w =
    if-cases (Continues interval now w) (ltb_ℤ (now -ℤ w.last) interval) _ _
      (λ early. (refl, refl, inl (early, refl, refl, refl)))
      (λ due. (
        refl,
        refl,
        inr (due, (track fl load w).counts.current_data, refl, refl, refl, refl, refl),
      ))

update_rates-Continues :
    (fl : Floats) (interval now : ℤ) (w t : Watch)
    → Continues interval now w t
    → Continues interval now w (update_rates fl now t)
unfolding update_rates
update_rates-Continues fl interval now w t c =
    if-cases (Continues interval now w) (Rate.step fl 100 5000 now t.counts.outgoing_rate).0 _ _
      (λ over. c) (λ early. c)

-- A step of the supervisor fails, tells itself to stop and neither logs nor counts, if one of the
-- threads, wherever in the list, is `Stopped` or in `Error`. If none is, it goes on: before the log
-- is due the counts stay as they were, and once it is due the log holds them and they are 0 again,
-- whatever other threads have counted between the two, which is lost.
pub watch_step_lem :
    (fl : Floats) (interval now : ℤ) (load : Resources) (between : List (Bool × ℕ)) (w : Watch)
    → let t = watch_step fl interval now load between w in
      (SomeDown w.threads × Fails w t) ⊎ (All IsUp w.threads × Continues interval now w t)
unfolding watch_step
watch_step_lem fl interval now load between w = elim (any_over_lem w.threads) [
  | inl (over, down) ↦
      let made : watch_step fl interval now load between w
          ≡ record w { failure = true; own = stop (pos 0) w.own } =
        rw over refl in
      inl (down, subst (Fails w) (sym made) (refl, refl, refl, refl))
  | inr (none_over, up) ↦
      let made : watch_step fl interval now load between w
          ≡ update_rates fl now (put_log interval now between (track fl load w)) =
        rw none_over refl in
      inr (
        up,
        subst (Continues interval now w) (sym made) (
            update_rates-Continues fl interval now w
              (put_log interval now between (track fl load w))
              (put_log-Continues fl interval now load between w)),
      )
]
