-- ===== src/Coincidence/Tests.antt =====
use muondetector_cluster.Prelude.{◌≡◌, refl}
use muondetector_cluster.Prelude.Int.{pos, negsuc, ◌+ℤ◌, ◌-ℤ◌}
use muondetector_cluster.Coincidence.{apply}
use muondetector_cluster.Event.Samples.{lone}

apply_near : apply (lone 1 0) (lone 2 100000) ≡ pos 8
unfolding apply ◌+ℤ◌ ◌-ℤ◌
apply_near = refl

apply_far : apply (lone 1 0) (lone 2 100001) ≡ negsuc 7
unfolding apply ◌+ℤ◌ ◌-ℤ◌
apply_far = refl
