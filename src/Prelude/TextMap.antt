-- ===== src/Prelude/TextMap.antt =====
-- `std::map` with texts for keys: the entries in the order of their keys.
use muondetector_cluster.Prelude.{
  ℕ, ◌≡◌, ◌≢◌, refl, ap₂, subst, if-cases, ◌∙◌, Bool, true, false, ◌||◌, ◌&&◌, List, [], ◌∷◌,
  Option, none, some, arith, ltb, ◌==◌, if◌then◌else◌, All, Bool-cases, inl, inr,
}
use muondetector_cluster.Prelude.Texts.{text_eq}

abbrev pub TextMap {ℓ} : Type ℓ → Type ℓ
TextMap V = List (List ℕ × V)

-- `<` of two texts
unfoldable pub text_less : List ℕ → List ℕ → Bool
text_less [] [] = false
text_less [] (b ∷ v) = true
text_less (a ∷ u) [] = false
text_less (a ∷ u) (b ∷ v) = ltb a b || (a == b && text_less u v)

module _ {ℓ} {V : Type ℓ} where
  -- `find`
  unfoldable pub find : List ℕ → TextMap V → Option V
  find key [] = none
  find key ((q, x) ∷ rows) = if text_eq q key then some x else find key rows

  -- `m[k] = v`
  unfoldable pub assign : List ℕ → V → TextMap V → TextMap V
  unfolding text_less
  assign key x [] = (key, x) ∷ []
  assign key x ((q, y) ∷ rows) =
      let rest = assign key x rows in
      if text_eq q key
      then (key, x) ∷ rows
      else if text_less key q
      then (key, x) ∷ (q, y) ∷ rows
      else (q, y) ∷ rest

  abbrev pub keys : TextMap V → List (List ℕ)
  keys [] = []
  keys ((q, x) ∷ rows) = q ∷ keys rows

pub text_eq-eq : (s t : List ℕ) → text_eq s t ≡ true → s ≡ t
text_eq-eq [] [] e = refl
text_eq-eq [] (b ∷ t) e = absurd (ground (arith, e))
text_eq-eq (a ∷ s) [] e = absurd (ground (arith, e))
text_eq-eq (a ∷ s) (b ∷ t) e =
    ap₂ (λ x y. x ∷ y) (ground (arith, e)) (text_eq-eq s t (ground (arith, e)))

pub text_eq-ne : (s t : List ℕ) → s ≢ t → text_eq s t ≡ false
text_eq-ne s t n = elim (Bool-cases (text_eq s t)) [
  | inl e ↦ absurd (n (text_eq-eq s t e))
  | inr e ↦ e
]

text_eq_sym : (s t : List ℕ) → text_eq s t ≡ text_eq t s
text_eq_sym [] [] = refl
text_eq_sym [] (b ∷ t) = refl
text_eq_sym (a ∷ s) [] = refl
text_eq_sym (a ∷ s) (b ∷ t) = ground (arith, text_eq_sym s t)

-- A text that is equal to one of two that differ is not equal to the other.
text_eq-other :
    (r key q : List ℕ) → text_eq r key ≡ false → text_eq r q ≡ true → text_eq key q ≡ false
text_eq-other r key q n e =
    subst (λ t. text_eq key t ≡ false) (text_eq-eq r q e) (text_eq_sym key r ∙ n)

module _ {ℓ} {V : Type ℓ} where
  pub find-assign :
      (key q : List ℕ) (x : V) (rows : TextMap V)
      → find q (assign key x rows) ≡ (if text_eq key q then some x else find q rows)
  unfolding find assign
  find-assign key q x [] = refl
  find-assign key q x ((r, y) ∷ rows) = elim (Bool-cases (text_eq r key)) [
    | inl e ↦ rw (e, text_eq-eq r key e) (ground arith)
    | inr n ↦ rw n (elim (Bool-cases (text_less key r)) [
      | inl before ↦ rw before refl
      | inr behind ↦ rw behind (elim (Bool-cases (text_eq r q)) [
        | inl e ↦ rw (e, text_eq-other r key q n e) refl
        | inr d ↦ rw d (find-assign key q x rows)
      ])
    ])
  ]

  -- What holds of every entry holds of every entry after an assignment of one of which it holds.
  pub assign-All {κ} :
      (P : List ℕ × V → Type κ) (key : List ℕ) (x : V) (rows : TextMap V)
      → P (key, x)
      → All P rows
      → All P (assign key x rows)
  unfolding assign
  assign-All P key x [] h k = (h, tt)
  assign-All P key x ((q, y) ∷ rows) h k =
      if-cases (All P) (text_eq q key) _ _ (λ same. (h, k.1))
        (λ other.
          if-cases (All P) (text_less key q) _ _ (λ before. (h, k))
            (λ behind. (k.0, assign-All P key x rows h k.1)))

  -- What holds of every entry holds of the one that is found.
  pub find-All {κ} :
      (P : List ℕ × V → Type κ) (key : List ℕ) (x : V) (rows : TextMap V)
      → All P rows
      → find key rows ≡ some x
      → P (key, x)
  unfolding find
  find-All P key x [] h e = absurd (ground (arith, e))
  find-All P key x ((q, y) ∷ rows) h e = elim (Bool-cases (text_eq q key)) [
    | inl same ↦
        let found : some y ≡ some x = rw same at e in
        subst (λ k. P (k, x)) (text_eq-eq q key same)
          (subst (λ v. P (q, v)) (ground (arith, found)) h.0)
    | inr other ↦ find-All P key x rows h.1 (rw other at e)
  ]
