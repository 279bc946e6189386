-- ===== src/Constructor/Timeout.antt =====
-- The timeout of a constructor only grows.
use muondetector_cluster.Prelude.{◌≡◌, true, arith, ◌⊎◌}
use muondetector_cluster.Prelude.Int.{ℤ, ◌≤ℤ◌, -ℤ_parts}
use muondetector_cluster.Constructor.{Constructor, set_timeout, timed_out}

-- A new timeout is accepted only if it is longer: the result is the longer of the two, and
-- neither the event nor the start changes.
pub set_timeout_lem :
    (t : ℤ) (c : Constructor)
    → (c.timeout ≤ℤ (set_timeout t c).timeout)
      × (t ≤ℤ (set_timeout t c).timeout)
      × (((set_timeout t c).timeout ≡ t) ⊎ ((set_timeout t c).timeout ≡ c.timeout))
      × ((set_timeout t c).event ≡ c.event)
      × ((set_timeout t c).start ≡ c.start)
unfolding set_timeout
set_timeout_lem t c = ground arith

-- A constructor that has timed out stays so as time goes on, as long as it is given no longer
-- timeout.
pub timed_out_mono :
    (now later : ℤ) (c : Constructor)
    → now ≤ℤ later
    → timed_out now c ≡ true
    → timed_out later c ≡ true
unfolding timed_out
timed_out_mono now later c h t = ground (arith, -ℤ_parts now c.start, -ℤ_parts later c.start)
