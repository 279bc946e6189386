-- ===== src/Coincidence/Bounds.antt =====
-- What the criterion decides.
use muondetector_cluster.Prelude.{
  ◌≡◌, ◌∙◌, ap, Bool, true, false, ◌||◌, ◌&&◌, arith, leb, if◌then◌else◌,
}
use muondetector_cluster.Prelude.Int.{ℤ, pos, negsuc, ◌+ℤ◌, ◌-ℤ◌, nat_abs, ltb_ℤ, nat_abs-sub_comm}
use muondetector_cluster.Event.{Event}
use muondetector_cluster.Coincidence.{
  time_window, maximum_false, minimum_true, compare_times, last_time, apply, is_coincident,
}

-- Two times are at most the window apart.
abbrev pub near : ℤ → ℤ → Bool
near t1 t2 = leb (nat_abs (t1 -ℤ t2)) time_window

near_comm : (a b : ℤ) → near a b ≡ near b a
near_comm a b = ap (λ k. leb k time_window) (nat_abs-sub_comm a b)

abbrev vote : Bool → ℤ
vote b = if b then pos 2 else negsuc 1

votes_any :
    (a b c d : Bool)
    → ltb_ℤ maximum_false (vote a +ℤ vote b +ℤ vote c +ℤ vote d) ≡ (a || b || c || d)
unfolding ◌+ℤ◌
votes_any true true c d = ground arith
votes_any true false c d = ground arith
votes_any false true c d = ground arith
votes_any false false c d = ground arith

votes_all :
    (a b c d : Bool)
    → ltb_ℤ minimum_true (vote a +ℤ vote b +ℤ vote c +ℤ vote d) ≡ (a && b && c && d)
unfolding ◌+ℤ◌
votes_all true true c d = ground arith
votes_all true false c d = ground arith
votes_all false true c d = ground arith
votes_all false false c d = ground arith

votes_comm :
    (a b c d : Bool) → vote a +ℤ vote b +ℤ vote c +ℤ vote d ≡ vote a +ℤ vote c +ℤ vote b +ℤ vote d
unfolding ◌+ℤ◌
votes_comm true true c d = ground arith
votes_comm true false c d = ground arith
votes_comm false true c d = ground arith
votes_comm false false c d = ground arith

module _ (first second : Event) where
  -- The filter takes two events for coincident exactly when a first or last time of the one lies
  -- within 100000 ns of a first or last time of the other.
  pub is_coincident_lem : is_coincident first second ≡ (
      near first.head.start second.head.start
      || near first.head.start (last_time second)
      || near (last_time first) second.head.start
      || near (last_time first) (last_time second))
  unfolding is_coincident compare_times
  is_coincident_lem =
      votes_any (near first.head.start second.head.start) (near first.head.start (last_time second))
        (near (last_time first) second.head.start) (near (last_time first) (last_time second))

  -- The value passes `minimum_true` exactly when all four pairs of times lie within 100000 ns.
  pub minimum_true_lem : ltb_ℤ minimum_true (apply first second) ≡ (
      near first.head.start second.head.start
      && near first.head.start (last_time second)
      && near (last_time first) second.head.start
      && near (last_time first) (last_time second))
  unfolding apply compare_times
  minimum_true_lem =
      votes_all (near first.head.start second.head.start) (near first.head.start (last_time second))
        (near (last_time first) second.head.start) (near (last_time first) (last_time second))

  -- The criterion does not depend on the order of the two events.
  pub apply_comm : apply first second ≡ apply second first
  unfolding apply compare_times
  apply_comm =
      votes_comm (near first.head.start second.head.start)
        (near first.head.start (last_time second)) (near (last_time first) second.head.start)
        (near (last_time first) (last_time second))
      ∙ rw (
        near_comm first.head.start second.head.start,
        near_comm (last_time first) second.head.start,
        near_comm first.head.start (last_time second),
        near_comm (last_time first) (last_time second),
      )
