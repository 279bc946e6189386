-- ===== src/Message/Joining.antt =====
-- The round trip: what the constructor joins, the parser finds.
use muondetector_cluster.Prelude.{
  ℕ, ◌≡◌, ◌≢◌, refl, sym, ◌∙◌, ap, List, [], ◌∷◌, ◌++◌, some, Text, All, if◌then◌else◌,
}
use mathlib.Core.List.{append-nil, append_assoc}
use muondetector_cluster.Message.{MessageConstructor, MessageParser, is_empty, add_field, parse}
use muondetector_cluster.Message.Words.{
  words, pieces, words-append, words-single, nonempty_only, nonempty_only-append, IsClean,
}
use muondetector_cluster.Message.Parsing.{parse_lem}

-- The calls of `add_field` for a list of fields.
abbrev pub add_fields : List Text → MessageConstructor → MessageConstructor
add_fields [] c = c
add_fields (f ∷ fs) c = add_fields fs (add_field f c)

words-started :
    (d : ℕ) (m f : Text)
    → All (λ c. c ≢ d) f
    → words d ((if is_empty m then m else m ++ d ∷ []) ++ f) ≡ words d m ++ nonempty_only (f ∷ [])
words-started d [] f h = words-single d f h ∙ unfold words pieces in refl
words-started d (c ∷ m) f h =
    ap (words d) (append_assoc (c ∷ m) (d ∷ []) f)
    ∙ words-append d (c ∷ m) f
    ∙ ap (λ ws. words d (c ∷ m) ++ ws) (words-single d f h)

-- Without the delimiter in them, fields are found again, unless they are empty.
pub words-add_fields_any :
    (fs : List Text) (c : MessageConstructor)
    → All (All (λ b. b ≢ c.delimiter)) fs
    → words c.delimiter (add_fields fs c).message ≡ words c.delimiter c.message ++ nonempty_only fs
unfolding add_field
words-add_fields_any [] c h = sym (append-nil (words c.delimiter c.message))
words-add_fields_any (f ∷ fs) c h =
    words-add_fields_any fs (add_field f c) h.1
    ∙ ap (λ ws. ws ++ nonempty_only fs) (words-started c.delimiter c.message f h.0)
    ∙ append_assoc (words c.delimiter c.message) (nonempty_only (f ∷ [])) (nonempty_only fs)
    ∙ ap (λ ws. words c.delimiter c.message ++ ws)
        (sym (nonempty_only-append c.delimiter (f ∷ []) fs))

nonempty_only-clean : (d : ℕ) (fs : List Text) → All (IsClean d) fs → nonempty_only fs ≡ fs
nonempty_only-clean d [] h = refl
nonempty_only-clean d ([] ∷ fs) h = absurd (h.0.0 refl)
nonempty_only-clean d ((c ∷ f) ∷ fs) h = ap (λ ws. (c ∷ f) ∷ ws) (nonempty_only-clean d fs h.1)

unmixed : (d : ℕ) (fs : List Text) → All (IsClean d) fs → All (All (λ b. b ≢ d)) fs
unmixed d [] h = tt
unmixed d (f ∷ fs) h = (h.0.1, unmixed d fs h.1)

pub words-add_fields :
    (fs : List Text) (c : MessageConstructor)
    → All (IsClean c.delimiter) fs
    → words c.delimiter (add_fields fs c).message ≡ words c.delimiter c.message ++ fs
words-add_fields fs c h =
    words-add_fields_any fs c (unmixed c.delimiter fs h)
    ∙ ap (λ ws. words c.delimiter c.message ++ ws) (nonempty_only-clean c.delimiter fs h)

-- Fields that are not empty and do not contain the delimiter come back from the message that was
-- built of them: as many, the same ones, in the same order.
pub parse-add_fields :
    (d : ℕ) (fs : List Text)
    → All (IsClean d) fs
    → (p : MessageParser) × (parse
          (add_fields fs (record { message = []; delimiter = d })).message
          d
        ≡ some p)
      × (p.fields ≡ fs)
parse-add_fields d fs h =
    let m = (add_fields fs (record { message = []; delimiter = d })).message in
    (
      record { content = m; iterator = []; delimiter = d; fields = words d m },
      parse_lem m d,
      words-add_fields fs (record { message = []; delimiter = d }) h
          ∙ unfold words in unfold pieces in refl,
    )
