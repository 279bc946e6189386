-- ===== src/Runner/Tests.antt =====
-- Witnesses and tests for the runner.
use muondetector_cluster.Prelude.{◌≡◌, refl, false, [], ◌∷◌, some, arith}
use muondetector_cluster.Prelude.Int.{pos, negsuc}
use muondetector_cluster.Runner.{
  Runner, Outcome, Place, new_runner, start, stop, wait, run_state_value,
}
use muondetector_cluster.Runner.Reach.{here, further, starts, IsConsistent, Reach-IsConsistent}
use muondetector_cluster.Runner.Progress.{advance_all, advance_all-ended, in_loop}

-- A runner that is started and not yet in `exec`.
abbrev begun : Runner
unfolding start
begun = start (new_runner false)

-- Before `exec` has made the promise, `wait` returns at once, with -1.
wait_early : wait begun ≡ some (negsuc 0, begun)
unfolding wait begun start run_state_value
wait_early = refl

Reach-IsConsistent_example : IsConsistent begun
unfolding begun
Reach-IsConsistent_example =
    Reach-IsConsistent false (start (new_runner false))
      (further (new_runner false) (start (new_runner false)) here (starts (new_runner false)))

advance_all-ended_example :
    (advance_all (Outcome.returned (pos 0) ∷ Outcome.thrown ∷ []) (stop (pos 3) in_loop)).place
    ≡ Place.ended
unfolding stop
advance_all-ended_example =
    advance_all-ended (Outcome.returned (pos 0) ∷ Outcome.thrown ∷ []) (stop (pos 3) in_loop) refl
      refl (omega arith)
