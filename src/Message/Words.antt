-- ===== src/Message/Words.antt =====
-- The fields of a text by a description that does not scan: cut it at every delimiter, and leave
-- out the empty pieces.
use muondetector_cluster.Prelude.{
  ℕ, ◌≡◌, ◌≢◌, refl, ◌∙◌, ap, List, [], ◌∷◌, ◌++◌, if◌then◌else◌, ◌==◌, arith, Text, All,
  Bool-cases, inl, inr,
}

-- The first piece gets one more byte in front.
abbrev pub lengthen : ℕ → List Text → List Text
lengthen c [] = (c ∷ []) ∷ []
lengthen c (p ∷ ps) = (c ∷ p) ∷ ps

abbrev pub nonempty_only : List Text → List Text
nonempty_only [] = []
nonempty_only ([] ∷ ps) = nonempty_only ps
nonempty_only ((c ∷ p) ∷ ps) = (c ∷ p) ∷ nonempty_only ps

module _ (d : ℕ) where
  unfoldable pub pieces : Text → List Text
  pieces [] = [] ∷ []
  pieces (c ∷ s) = let rest = pieces s in if c == d then [] ∷ rest else lengthen c rest

  unfoldable pub words : Text → List Text
  unfolding pieces
  words s = nonempty_only (pieces s)

  -- A field that can be told apart: not empty, and without the delimiter.
  abbrev pub IsClean : Text → Type 0
  IsClean f = (f ≢ []) × All (λ c. c ≢ d) f

  pieces-ne-nil : (s : Text) → (p : Text) × (ps : List Text) × (pieces s ≡ p ∷ ps)
  unfolding pieces
  pieces-ne-nil [] = ([], [], refl)
  pieces-ne-nil (c ∷ s) = elim (Bool-cases (c == d)) [
    | inl cut ↦ ([], pieces s, rw cut refl)
    | inr kept ↦ let (p, ps, q) = pieces-ne-nil s in (c ∷ p, ps, rw (kept, q) refl)
  ]

  pieces-append : (s t : Text) → pieces (s ++ d ∷ t) ≡ pieces s ++ pieces t
  unfolding pieces
  pieces-append [] t = ground arith
  pieces-append (c ∷ s) t = let (p, ps, q) = pieces-ne-nil s in ground (arith, pieces-append s t, q)

  pub nonempty_only-append :
      (ps qs : List Text) → nonempty_only (ps ++ qs) ≡ nonempty_only ps ++ nonempty_only qs
  nonempty_only-append [] qs = refl
  nonempty_only-append ([] ∷ ps) qs = nonempty_only-append ps qs
  nonempty_only-append ((c ∷ p) ∷ ps) qs = ap (λ l. (c ∷ p) ∷ l) (nonempty_only-append ps qs)

  pub words-append : (s t : Text) → words (s ++ d ∷ t) ≡ words s ++ words t
  unfolding words
  words-append s t =
      ap nonempty_only (pieces-append s t) ∙ nonempty_only-append (pieces s) (pieces t)

  pieces-clean : (f : Text) → All (λ c. c ≢ d) f → pieces f ≡ f ∷ []
  unfolding pieces
  pieces-clean [] h = refl
  pieces-clean (c ∷ f) h = ground (arith, pieces-clean f h.1, h.0)

  pub words-single : (f : Text) → All (λ c. c ≢ d) f → words f ≡ nonempty_only (f ∷ [])
  unfolding words
  words-single f h = ap nonempty_only (pieces-clean f h)

  pub words-clean : (f : Text) → IsClean f → words f ≡ f ∷ []
  unfolding words
  words-clean [] h = absurd (h.0 refl)
  words-clean (c ∷ f) h = ap nonempty_only (pieces-clean (c ∷ f) h.1)

  pub words_delimiter : (s : Text) → words (d ∷ s) ≡ words s
  words_delimiter s = words-append [] s ∙ unfold words in unfold pieces in refl
