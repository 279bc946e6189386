-- ===== src/Rest/Credentials.antt =====
-- The name and the password in a decoded authorisation, and the parts of a target.
use mathlib.Core.List.{append-nil}
use muondetector_cluster.Prelude.{
  ℕ, zero, suc, sym, ◌⊎◌, ◌+◌, ◌^◌, ◌<◌, ◌≤◌, ◌≡◌, ◌≢◌, refl, ap, ◌∙◌, List, [], ◌∷◌, ◌++◌, ◌==◌,
  arith, length, take, length-append, All, Text, add_64, Bool-cases, inl, inr,
}
use muondetector_cluster.Prelude.Rings.{drop}
use muondetector_cluster.Message.Words.{
  pieces, words, nonempty_only, nonempty_only-append, lengthen,
}
use muondetector_cluster.Message.Lines.{cut}
use muondetector_cluster.Source.Run.{done}
use muondetector_cluster.Rest.{find_first_of, substr, npos, credentials, path_parts}

npos-bound : (n : ℕ) → n < npos → n + 1 < 2 ^ 64
unfolding npos
npos-bound n h = omega (arith, h)

add_64-next : (i : ℕ) → i < npos → add_64 i 1 ≡ suc i
add_64-next i h = omega (arith, npos-bound i h)

add_64-npos : add_64 npos 1 ≡ 0
unfolding npos
add_64-npos = refl

find-at :
    (i : ℕ) (name rest : Text)
    → All (λ c. c ≢ b':') name
    → i + length name < npos
    → find_first_of b':' i (name ++ b':' ∷ rest) ≡ i + length name
unfolding find_first_of
find-at i [] rest h k = omega arith
find-at i (c ∷ name) rest h k =
    let step = add_64-next i (omega (arith, k)) in
    let next = find-at (add_64 i 1) name rest h.1 (rw step (omega (arith, k))) in
    ground (arith, next, step, h.0)

find-missing : (i : ℕ) (s : Text) → All (λ c. c ≢ b':') s → find_first_of b':' i s ≡ npos
unfolding find_first_of
find-missing i [] h = refl
find-missing i (c ∷ s) h = ground (arith, find-missing (add_64 i 1) s h.1, h.0)

take-append : (s t : Text) → take (length s) (s ++ t) ≡ s
take-append [] t = refl
take-append (c ∷ s) t = ap (λ l. c ∷ l) (take-append s t)

take-long : (n : ℕ) (s : Text) → length s ≤ n → take n s ≡ s
take-long zero [] h = refl
take-long zero (c ∷ s) h = absurd (omega (arith, h))
take-long (suc n) [] h = refl
take-long (suc n) (c ∷ s) h = ap (λ l. c ∷ l) (take-long n s (omega (arith, h)))

drop-behind : (s t : Text) (c : ℕ) → drop (suc (length s)) (s ++ c ∷ t) ≡ t
drop-behind [] t c = refl
drop-behind (d ∷ s) t c = drop-behind s t c

-- Where the position is inside.
substr-inside :
    (pos count : ℕ) (s : Text)
    → pos ≤ length s
    → substr pos count s ≡ done (take count (drop pos s))
unfolding substr
substr-inside pos count s h = ground (arith, h)

-- The two texts before and behind a position.
credentials-cut :
    (auth name password : Text) (delimiter : ℕ)
    → find_first_of b':' 0 auth ≡ delimiter
    → take delimiter auth ≡ name
    → add_64 delimiter 1 ≤ length auth
    → take npos (drop (add_64 delimiter 1) auth) ≡ password
    → credentials auth ≡ done (name, password)
unfolding credentials
credentials-cut auth name password delimiter e t b q =
    rw (e, substr-inside 0 delimiter auth (omega arith), t)
      (rw (substr-inside (add_64 delimiter 1) npos auth b, q) refl)

-- A name without a colon and a password, together of less than 2^64 - 2 bytes, are found in their
-- text with a colon between them; of the name alone, the name and the password are both that text.
pub credentials-join :
    (name password : Text)
    → All (λ c. c ≢ b':') name
    → length name + length password + 1 < npos
    → (credentials (name ++ b':' ∷ password) ≡ done (name, password))
      × (credentials name ≡ done (name, name))
credentials-join name password h k =
    let next = add_64-next (length name) (omega (arith, k)) in
    (
      credentials-cut _ name password (length name)
          (find-at 0 name password h (omega (arith, k)) ∙ omega arith)
          (take-append name (b':' ∷ password))
          (rw (next, length-append name (b':' ∷ password)) (omega arith))
          (rw (next, drop-behind name password b':') (take-long npos password (omega (arith, k)))),
      credentials-cut name name name npos (find-missing 0 name h)
          (take-long npos name (omega (arith, k))) (rw add_64-npos (omega arith))
          (rw add_64-npos (take-long npos name (omega (arith, k)))),
    )

-- The scan for pieces may find one more, an empty one at the end.
abbrev HaveTail : List Text → List Text → Type 0
HaveTail ps qs = (qs ≡ ps) ⊎ (qs ≡ ps ++ [] ∷ [])

lengthen-HaveTail :
    (c : ℕ) (ps qs : List Text) → HaveTail ps qs → HaveTail (lengthen c ps) (lengthen c qs)
lengthen-HaveTail c ps qs (inl e) = inl (ap (lengthen c) e)
lengthen-HaveTail c [] qs (inr e) = inl (ap (lengthen c) e)
lengthen-HaveTail c (p ∷ ps) qs (inr e) = inr (ap (lengthen c) e)

cons-HaveTail : (p : Text) (ps qs : List Text) → HaveTail ps qs → HaveTail (p ∷ ps) (p ∷ qs)
cons-HaveTail p ps qs (inl e) = inl (ap (λ l. p ∷ l) e)
cons-HaveTail p ps qs (inr e) = inr (ap (λ l. p ∷ l) e)

path_parts-HaveTail : (s : Text) → HaveTail (path_parts s) (pieces b'/' s)
unfolding path_parts pieces cut
path_parts-HaveTail [] = inr refl
path_parts-HaveTail (c ∷ s) =
    let rest = path_parts-HaveTail s in
    elim (Bool-cases (c == b'/')) [
      | inl found ↦ rw found (cons-HaveTail [] _ _ rest)
      | inr kept ↦ rw kept (lengthen-HaveTail c _ _ rest)
    ]

HaveTail-nonempty : (ps qs : List Text) → HaveTail ps qs → nonempty_only qs ≡ nonempty_only ps
HaveTail-nonempty ps qs (inl e) = ap nonempty_only e
HaveTail-nonempty ps qs (inr e) =
    rw (e, nonempty_only-append b'/' ps ([] ∷ [])) (append-nil (nonempty_only ps))

-- The parts that are not empty are the target's words.
pub path_parts-words : (s : Text) → nonempty_only (path_parts s) ≡ words b'/' s
unfolding words
path_parts-words s = sym (HaveTail-nonempty _ _ (path_parts-HaveTail s))
