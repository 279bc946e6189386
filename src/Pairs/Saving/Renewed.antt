-- ===== src/Pairs/Saving/Renewed.antt =====
-- What `save` leaves of the pairs.
use muondetector_cluster.Prelude.{
  ℕ, suc, ◌≡◌, ◌⊎◌, inl, inr, refl, ap, ◌∙◌, List, [], ◌∷◌, map, length, Text, if◌then◌else◌, ◌==◌,
  Bool-cases, if-cases,
}
use muondetector_cluster.Prelude.Int.{ℤ, pos, ◌-ℤ◌, quot_ℤ}
use muondetector_cluster.Prelude.Assoc.{Map}
use muondetector_cluster.Prelude.Floats.{Double, Floats}
use muondetector_cluster.Prelude.TextMap.{TextMap}
use muondetector_cluster.Event.{UserInfo}
use muondetector_cluster.Histogram.{clear, integral, integral_from}
use muondetector_cluster.Pairs.{PairData}
use muondetector_cluster.Pairs.Triggers.{IsMatched}
use muondetector_cluster.Pairs.Saving.{Streams, Recorder, minute, settle, renew, save_pairs, save}

-- A pair after it was saved: it counts from nothing, for the same stations and bins, and if it is
-- online its time runs from then on.
abbrev pub IsRenewed : ℤ → PairData → PairData → Type 0
IsRenewed now d e =
    (e.first ≡ d.first)
    × (e.second ≡ d.second)
    × (e.online ≡ d.online)
    × (e.uptime ≡ pos 0)
    × (e.last_online ≡ (if d.online == 2 then now else d.last_online))
    × (integral e.hist ≡ 0)
    × (length e.hist.bins ≡ length d.hist.bins)
    × (e.hist.width ≡ d.hist.width)

integral_from-cleared : (bins : List ℕ) → integral_from 0 (map (λ n. 0) bins) ≡ 0
unfolding integral_from
integral_from-cleared [] = refl
integral_from-cleared (b ∷ bs) = integral_from-cleared bs

length-cleared : (bins : List ℕ) → length {A = ℕ} (map (λ n. 0) bins) ≡ length bins
length-cleared [] = refl
length-cleared (b ∷ bs) = ap suc (length-cleared bs)

renew-IsRenewed : (now : ℤ) (d : PairData) → IsRenewed now d (renew (settle now d))
unfolding renew settle clear integral
renew-IsRenewed now d = elim (Bool-cases (d.online == 2)) [
  | inl online ↦ rw online (
    refl,
    refl,
    refl,
    refl,
    refl,
    integral_from-cleared d.hist.bins,
    length-cleared d.hist.bins,
    refl,
  )
  | inr offline ↦ rw offline (
    refl,
    refl,
    refl,
    refl,
    refl,
    integral_from-cleared d.hist.bins,
    length-cleared d.hist.bins,
    refl,
  )
]

-- Each of the pairs in its place.
abbrev pub AreRenewed : ℤ → List PairData → List PairData → Type 0
AreRenewed now [] [] = Unit
AreRenewed now (d ∷ ds) (e ∷ es) = IsRenewed now d e × AreRenewed now ds es
AreRenewed now _ _ = ⊥

AreRenewed-length : (now : ℤ) (ds es : List PairData) → AreRenewed now ds es → length es ≡ length ds
AreRenewed-length now [] [] h = refl
AreRenewed-length now [] (e ∷ es) h = absurd h
AreRenewed-length now (d ∷ ds) [] h = absurd h
AreRenewed-length now (d ∷ ds) (e ∷ es) h = ap suc (AreRenewed-length now ds es h.1)

module _ (out : Streams) where
  save_pairs-AreRenewed :
      (filename : Text) (now sample : ℤ) (stations : Map UserInfo) (ds : List PairData)
      (m : Map (Map ℕ)) (files : TextMap Text)
      → AreRenewed now ds (save_pairs out filename now sample stations ds m files).0
  unfolding save_pairs
  save_pairs-AreRenewed filename now sample stations [] m files = tt
  save_pairs-AreRenewed filename now sample stations (d ∷ ds) m files =
      (renew-IsRenewed now d, save_pairs-AreRenewed filename now sample stations ds _ _)

  -- Either nothing is saved, or the clock of the last save is set, the stations stay, and every
  -- pair begins anew, in its place; the pairs match the stations as before.
  pub save-AreRenewed :
      (fl : Floats) (std_hash : Text → ℕ) (sample_time : ℤ) (grace : Double) (now : ℤ)
      (r : Recorder)
      → IsMatched r.pairs
      → let r' = save out fl std_hash sample_time grace now r in
        IsMatched r'.pairs
        × ((r' ≡ r)
            ⊎ ((r'.last_save ≡ now)
                × (r'.pairs.stations ≡ r.pairs.stations)
                × AreRenewed now r.pairs.matrix.elements r'.pairs.matrix.elements))
  unfolding save
  save-AreRenewed fl std_hash sample_time grace now r h =
      if-cases
        (λ r'.
          IsMatched r'.pairs
          × ((r' ≡ r)
              ⊎ ((r'.last_save ≡ now)
                  × (r'.pairs.stations ≡ r.pairs.stations)
                  × AreRenewed now r.pairs.matrix.elements r'.pairs.matrix.elements)))
        (fl.lt (fl.of_ℤ (now -ℤ r.last_save)) (fl.mul (fl.of_ℤ sample_time) grace)) _ _
        (λ recent. (h, inl refl))
        (λ due.
          let all =
            save_pairs-AreRenewed _ now (quot_ℤ (now -ℤ r.last_save) minute) _
              r.pairs.matrix.elements _ _ in
          let same = AreRenewed-length now r.pairs.matrix.elements _ all in
          (
            record {
              valid = record { sized = same ∙ h.valid.sized; small = h.valid.small };
              columns = h.columns;
            },
            inr (refl, refl, all),
          ))
