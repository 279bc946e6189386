-- ===== src/Message/Parsing.antt =====
-- The parser finds exactly the fields of the description in Message/Words.antt, and always ends.
use muondetector_cluster.Prelude.{
  ℕ, zero, suc, ◌<◌, ◌≡◌, ◌≢◌, refl, sym, ◌∙◌, ap, [], ◌∷◌, ◌++◌, some, ◌==◌, arith, length, Text,
  All, ◌⊎◌, inl, inr, Bool-cases, length-append,
}
use mathlib.Core.List.{append-nil, append_assoc}
use muondetector_cluster.Message.{
  MessageParser, skip_delimiter, scan_field, read_field, read_all, parse,
}
use muondetector_cluster.Message.Words.{words, pieces, words-append, words-clean, words_delimiter}

module _ (d : ℕ) where
  words-skip_delimiter : (s : Text) → words d (skip_delimiter d s) ≡ words d s
  unfolding skip_delimiter
  words-skip_delimiter [] = refl
  words-skip_delimiter (c ∷ s) = elim (Bool-cases (c == d)) [
    | inl cut ↦
        let e : c ≡ d = ground arith in
        rw cut
          (words-skip_delimiter s ∙ sym (words_delimiter d s) ∙ ap (λ b. words d (b ∷ s)) (sym e))
    | inr kept ↦ rw kept refl
  ]

  -- Nothing is left, or what is left starts with a field.
  skip_cases :
      (s : Text)
      → (skip_delimiter d s ≡ [])
        ⊎ ((c : ℕ) × (t : Text) × (skip_delimiter d s ≡ c ∷ t) × (c ≢ d) × (length t < length s))
  unfolding skip_delimiter
  skip_cases [] = inl refl
  skip_cases (c ∷ s) = elim (Bool-cases (c == d)) [
    | inl cut ↦ elim (skip_cases s) [
      | inl e ↦ inl (rw cut e)
      | inr (b, t, e, ne, lt) ↦ inr (b, t, rw cut e, ne, omega arith)
    ]
    | inr kept ↦ inr (c, s, rw kept refl, ground arith, omega arith)
  ]

  -- What a scan leaves starts with the delimiter, if anything is left.
  abbrev Stops : Text → Type 0
  Stops [] = Unit
  Stops (c ∷ t) = c ≡ d

  record Scanned (s : Text) (r : Text × Text) : Type 0 where
    whole : r.0 ++ r.1 ≡ s
    clean : All (λ c. c ≢ d) r.0
    stops : Stops r.1

  scan_field-Scanned : (s : Text) → Scanned s (scan_field d s)
  unfolding scan_field
  scan_field-Scanned [] = record { whole = refl; clean = tt; stops = tt }
  scan_field-Scanned (c ∷ s) =
      let ih = scan_field-Scanned s in
      elim (Bool-cases (c == d)) [
        | inl cut ↦ rw cut (record { whole = refl; clean = tt; stops = ground arith })
        | inr kept ↦ rw kept (record {
          whole = ap (λ t. c ∷ t) ih.whole;
          clean = (ground arith, ih.clean);
          stops = ih.stops;
        })
      ]

  -- At a field the scan reads it, and the words of the text are it and those of what is left.
  words-scan_field :
      (f r : Text) → f ≢ [] → All (λ c. c ≢ d) f → Stops r → words d (f ++ r) ≡ f ∷ words d r
  words-scan_field f [] ne clean stops =
      ap (words d) (append-nil f)
      ∙ words-clean d f (ne, clean)
      ∙ unfold words in unfold pieces in refl
  words-scan_field f (c ∷ r) ne clean stops =
      ap (λ b. words d (f ++ b ∷ r)) stops
      ∙ words-append d f r
      ∙ ap (λ ws. ws ++ words d r) (words-clean d f (ne, clean))
      ∙ ap (λ ws. f ∷ ws) (sym (words_delimiter d r) ∙ ap (λ b. words d (b ∷ r)) (sym stops))

  scan_first : (c : ℕ) (t : Text) → c ≢ d → (scan_field d (c ∷ t)).0 ≡ c ∷ (scan_field d t).0
  unfolding scan_field
  scan_first c t ne = ground arith

words_nil : (d : ℕ) → words d [] ≡ []
unfolding words pieces
words_nil d = refl

read_field_lem :
    (p : MessageParser) (c : ℕ) (t : Text)
    → c ≢ p.delimiter
    → read_field (record p { iterator = c ∷ t }) ≡ record p {
      iterator = (scan_field p.delimiter (c ∷ t)).1;
      fields = p.fields ++ (scan_field p.delimiter (c ∷ t)).0 ∷ [];
    }
unfolding read_field
read_field_lem p c t ne = ground (arith, scan_first p.delimiter c t ne)

-- With enough fuel the loop reads to the end and appends the words of what it had not read.
read_all_lem :
    (fuel : ℕ) (p : MessageParser)
    → length p.iterator < fuel
    → read_all fuel p
      ≡ some (record p { iterator = []; fields = p.fields ++ words p.delimiter p.iterator })
unfolding read_all
read_all_lem zero p h = absurd (omega arith)
read_all_lem (suc fuel) p h = elim (skip_cases p.delimiter p.iterator) [
  | inl over ↦
      let none_left : words p.delimiter p.iterator ≡ [] =
        sym (words-skip_delimiter p.delimiter p.iterator)
        ∙ ap (words p.delimiter) over
        ∙ words_nil p.delimiter in
      rw (none_left, over, append-nil p.fields) refl
  | inr (c, t, e, ne, lt) ↦
      let d = p.delimiter in
      let sc = scan_field-Scanned d (c ∷ t) in
      let f = (scan_field d (c ∷ t)).0 in
      let r = (scan_field d (c ∷ t)).1 in
      let found : f ≢ [] = λ empty. cc (scan_first d c t ne, empty) in
      let these : words d p.iterator ≡ f ∷ words d r =
        sym (words-skip_delimiter d p.iterator)
        ∙ ap (words d) (e ∙ sym sc.whole)
        ∙ words-scan_field d f r found sc.clean sc.stops in
      let shorter : length r < fuel =
        omega (arith, ap length sc.whole, length-append f r, ap length (scan_first d c t ne)) in
      rw (e, read_field_lem p c t ne)
        (read_all_lem fuel (record p { iterator = r; fields = p.fields ++ f ∷ [] }) shorter
          ∙ rw (these, append_assoc p.fields (f ∷ []) (words d r)) refl)
]

-- Parsing always ends, with the fuel given; it keeps the message, reads all of it, and its fields
-- are the nonempty pieces between the delimiters, in their order.
pub parse_lem :
    (message : Text) (d : ℕ)
    → parse message d
      ≡ some (record { content = message; iterator = []; delimiter = d; fields = words d message })
unfolding parse
parse_lem message d =
    read_all_lem (suc (length message))
      (record { content = message; iterator = message; delimiter = d; fields = [] }) (omega arith)
