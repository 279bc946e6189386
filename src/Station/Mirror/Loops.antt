-- ===== src/Station/Mirror/Loops.antt =====
-- The first loop of `station::process()` keeps the supervisor's map the mirror of the station's.
use muondetector_cluster.Prelude.{
  if-cases, ◌++◌, List, All, All-append, ℕ, suc, ◌≡◌, ◌<◌, refl, sym, ◌∙◌, false, [], ◌∷◌, some,
  none, if◌then◌else◌, ◌==◌, arith, ◌&&◌, subst,
}
use muondetector_cluster.Prelude.Int.{ℤ}
use muondetector_cluster.Prelude.Floats.{Double, Floats}
use muondetector_cluster.Prelude.Assoc.{Map, lookup, IsSortedFrom, lookup_below}
use muondetector_cluster.Status.{Status, status_eq}
use muondetector_cluster.Detector.{Detector, World, step}
use muondetector_cluster.Station.{step_all}
use muondetector_cluster.Station.Mirror.Tells.{shown, step-Told, lookup-Told, Told-sorted}

All-imp : {P Q : ℕ → Type 0} (i : (q : ℕ) → P q → Q q) (qs : List ℕ) → All P qs → All Q qs
All-imp i [] h = tt
All-imp i (q ∷ qs) h = (i q h.0, All-imp i qs h.1)

-- Every detector stands under its own hash.
abbrev pub Keyed : Map Detector → Type 0
Keyed [] = Unit
Keyed ((h, d) ∷ m) = (d.hash ≡ h) × Keyed m

-- The supervisor shows what the map holds, wherever the map holds something.
abbrev pub Known : Map Detector → World → Type 0
Known [] w = Unit
Known ((h, d) ∷ m) w = (lookup h w.supervisor.detectors ≡ shown (some d)) × Known m w

-- The supervisor shows none of the detectors that are queued for deletion.
abbrev pub Unshown : World → Type 0
Unshown w = All (λ q. lookup q w.supervisor.detectors ≡ none) w.delete_detectors

-- The same, of detectors below `n` only.
abbrev pub UnshownBelow : ℕ → World → Type 0
UnshownBelow n w = All (λ q. (q < n) × (lookup q w.supervisor.detectors ≡ none)) w.delete_detectors

-- Outside the map `m` the supervisor shows the same in `w` and `w'`.
abbrev SameOutside : Map Detector → World → World → Type 0
SameOutside m w w' =
    (j : ℕ) → lookup j m ≡ none → lookup j w'.supervisor.detectors ≡ lookup j w.supervisor.detectors

-- A change at keys below the map leaves what is known of the map.
Known-change :
    (n : ℕ) (m : Map Detector) (w w' : World)
    → IsSortedFrom n m
    → ((j : ℕ) → n < suc j → lookup j w'.supervisor.detectors ≡ lookup j w.supervisor.detectors)
    → Known m w
    → Known m w'
Known-change n [] w w' s same known = tt
Known-change n ((h, d) ∷ m) w w' s same known = (
  same h s.0 ∙ known.0,
  Known-change (suc h) m w w' s.1 (λ j le. same j (omega (arith, s.0, le))) known.1,
)

-- An entry that is not found under a longer map is not found under its tail, at another key.
lookup_miss :
    {V : Type 0} (j h : ℕ) (v : V) (m : Map V)
    → lookup j ((h, v) ∷ m) ≡ none
    → ((h == j) ≡ false) × (lookup j m ≡ none)
unfolding lookup
lookup_miss j h v m e = ground arith

lookup_past :
    {V : Type 0} (j h : ℕ) (v : V) (m : Map V)
    → (h == j) ≡ false
    → lookup j ((h, v) ∷ m) ≡ lookup j m
unfolding lookup
lookup_past j h v m e = rw e refl

module _ (fl : Floats) (now : ℤ) where
  -- What the loop leaves of the detectors `m` and the surroundings `w`: a sorted map with no new
  -- keys that holds every detector under its own hash, while the supervisor shows each one's status
  -- and is unchanged outside the map.
  pub record Stepped (n : ℕ) (m : Map Detector) (w : World) (r : Double × Map Detector × World)
      : Type 0 where
    pub sorted : IsSortedFrom n r.1
    pub sup_sorted : IsSortedFrom 0 r.2.supervisor.detectors
    pub keyed : Keyed r.1
    pub known : Known r.1 r.2
    pub same_keys :
        (j : ℕ)
        → (lookup j m ≡ none → lookup j r.1 ≡ none) × (lookup j r.1 ≡ none → lookup j m ≡ none)
    pub outside : SameOutside m w r.2
    pub pending : Unshown r.2

  -- One detector's step, under the key `h`, with what is known of it.
  module _ (h : ℕ) (d : Detector) (w : World) (sorted : IsSortedFrom 0 w.supervisor.detectors)
      (key : d.hash ≡ h) (known : lookup h w.supervisor.detectors ≡ shown (some d)) where
    abbrev stepped : Detector × World
    stepped = step fl now d w

    look :
        (j : ℕ)
        → lookup j stepped.1.supervisor.detectors
          ≡ (if d.hash == j then shown (some stepped.0) else lookup j w.supervisor.detectors)
    look j =
        lookup-Told j d w stepped sorted (step-Told fl now d w)
          (λ same. subst (λ k. lookup k w.supervisor.detectors ≡ shown (some d)) (sym key) known)

    look_here : lookup h stepped.1.supervisor.detectors ≡ shown (some stepped.0)
    look_here = ground (arith, look h, key)

    look_past :
        (j : ℕ)
        → (h == j) ≡ false
        → lookup j stepped.1.supervisor.detectors ≡ lookup j w.supervisor.detectors
    look_past j ne = ground (arith, look j, key)

    Known-tail : (m : Map Detector) → IsSortedFrom (suc h) m → Known m w → Known m stepped.1
    Known-tail m s kn =
        Known-change (suc h) m w stepped.1 s (λ j le. look_past j (ground (arith, le))) kn

    abbrev Hidden : ℕ → Type 0
    Hidden q = (q < suc h) × (lookup q stepped.1.supervisor.detectors ≡ none)

    -- What is queued below `h` stays unshown, and the detector itself is queued only if it is
    -- deleted, and then it is not shown.
    UnshownBelow-step : (n : ℕ) → n < suc h → UnshownBelow n w → UnshownBelow (suc h) stepped.1
    UnshownBelow-step n lt ps =
        let t = step-Told fl now d w in
        let queue = w.delete_detectors in
        let kept : All Hidden queue =
          All-imp (λ q p. (omega (arith, p.0, lt), look_past q (ground (arith, p.0, lt)) ∙ p.1))
            queue ps in
        subst (All Hidden) (sym t.queued) (
          if-cases (All Hidden) (status_eq d.status stepped.0.status) queue _ (λ same. kept)
            (λ new.
              if-cases (All Hidden) (status_eq stepped.0.status Status.deleted)
                (queue ++ d.hash ∷ []) queue
                (λ gone.
                  All-append Hidden queue (d.hash ∷ []) kept
                    ((omega (arith, key), ground (arith, look d.hash, gone)), tt))
                (λ left. kept)))

    Stepped-cons :
        (n : ℕ) (m : Map Detector) (r : Double × Map Detector × World)
        → n < suc h
        → IsSortedFrom (suc h) m
        → Stepped (suc h) m stepped.1 r
        → Stepped n ((h, d) ∷ m) w (r.0, (h, stepped.0) ∷ r.1, r.2)
    Stepped-cons n m r lt s rest = record {
      sorted = (lt, rest.sorted);
      sup_sorted = rest.sup_sorted;
      keyed = ((step-Told fl now d w).same_hash ∙ key, rest.keyed);
      known = (rest.outside h (lookup_below h (suc h) m (omega arith) s) ∙ look_here, rest.known);
      same_keys = λ j. (
        (λ e.
            let (ne, left) = lookup_miss j h d m e in
            lookup_past j h stepped.0 r.1 ne ∙ (rest.same_keys j).0 left),
        (λ e.
            let (ne, left) = lookup_miss j h stepped.0 r.1 e in
            lookup_past j h d m ne ∙ (rest.same_keys j).1 left),
      );
      pending = rest.pending;
      outside =
          λ j e. let (ne, left) = lookup_miss j h d m e in rest.outside j left ∙ look_past j ne;
    }

  -- If every detector stands under its own hash and the supervisor shows the status of each, both
  -- still hold when every detector has taken its step; no key is new, and what the supervisor
  -- shows of other detectors is the same.
  pub step_all-Stepped :
      (n : ℕ) (largest : Double) (m : Map Detector) (w : World)
      → IsSortedFrom n m
      → IsSortedFrom 0 w.supervisor.detectors
      → Keyed m
      → Known m w
      → UnshownBelow n w
      → Stepped n m w (step_all fl now largest m w)
  unfolding step_all
  step_all-Stepped n largest [] w s ss k kn ps = record {
    sorted = tt;
    sup_sorted = ss;
    keyed = tt;
    known = tt;
    same_keys = λ j. ((λ e. e), (λ e. e));
    pending = All-imp (λ q p. p.1) w.delete_detectors ps;
    outside = λ j e. refl;
  }
  step_all-Stepped n largest ((h, d) ∷ m) w s ss k kn ps =
      let (d', w') = step fl now d w in
      let raised =
        if status_eq d'.status Status.reliable && fl.lt largest d'.factor
        then d'.factor
        else largest in
      Stepped-cons h d w ss k.0 kn.0 n m (step_all fl now raised m w') s.0 s.1 (
        step_all-Stepped (suc h) raised m w' s.1
          (Told-sorted d w (step fl now d w) ss (step-Told fl now d w)) k.1
          (Known-tail h d w ss k.0 kn.0 m s.1 kn.1) (UnshownBelow-step h d w ss k.0 kn.0 n s.0 ps))
