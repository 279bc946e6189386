-- ===== src/Message/Lines.antt =====
-- How a stream cuts a text: `std::getline`, and `operator>>` for a text, which leaves white space
-- out.
use muondetector_cluster.Prelude.{
  ℕ, ◌≡◌, ◌≢◌, refl, ap, Bool, true, false, ◌||◌, ◌&&◌, List, [], ◌∷◌, ◌++◌, if◌then◌else◌, ◌==◌,
  leb, All, Text,
}
use muondetector_cluster.Message.Words.{lengthen, nonempty_only}

module _ (p : ℕ → Bool) where
  -- The texts before, between and behind the delimiters; there is none behind the last if it is
  -- empty.
  unfoldable pub cut : Text → List Text
  cut [] = []
  cut (c ∷ s) = let rest = cut s in if p c then [] ∷ rest else lengthen c rest

  pub cut-delimiter :
      (a s : Text) (x : ℕ) → All (λ c. p c ≡ false) a → p x ≡ true → cut (a ++ x ∷ s) ≡ a ∷ cut s
  unfolding cut
  cut-delimiter [] s x h e = rw e refl
  cut-delimiter (c ∷ a) s x h e = rw (h.0, cut-delimiter a s x h.1 e) refl

  pub cut-last : (c : ℕ) (a : Text) → All (λ c. p c ≡ false) (c ∷ a) → cut (c ∷ a) ≡ (c ∷ a) ∷ []
  unfolding cut
  cut-last c [] h = rw h.0 refl
  cut-last c (d ∷ a) h = rw h.0 (ap (lengthen c) (cut-last d a h.1))

-- `std::getline` with a delimiter, until the stream ends.
abbrev pub getlines : ℕ → Text → List Text
getlines d = cut (λ c. c == d)

-- `std::isspace`
abbrev pub is_space : ℕ → Bool
is_space c = c == b' ' || (leb 9 c && leb c 13)

-- What `std::istream_iterator<std::string>` runs over.
unfoldable pub tokens : Text → List Text
tokens s = nonempty_only (cut is_space s)

-- A text that is read back whole.
abbrev pub IsToken : Text → Type 0
IsToken f = (f ≢ []) × All (λ c. is_space c ≡ false) f

pub tokens-step :
    (f s : Text) (x : ℕ) → IsToken f → is_space x ≡ true → tokens (f ++ x ∷ s) ≡ f ∷ tokens s
unfolding tokens
tokens-step [] s x h e = absurd (h.0 refl)
tokens-step (c ∷ f) s x h e = ap nonempty_only (cut-delimiter is_space (c ∷ f) s x h.1 e)

pub tokens-last : (f : Text) → IsToken f → tokens f ≡ f ∷ []
unfolding tokens
tokens-last [] h = absurd (h.0 refl)
tokens-last (c ∷ f) h = ap nonempty_only (cut-last is_space c f h.1)
