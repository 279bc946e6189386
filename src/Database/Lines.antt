-- ===== src/Database/Lines.antt =====
-- The text that an entry is sent as.
use mathlib.Core.List.{append_assoc}
use muondetector_cluster.Prelude.{
  ℕ, ◌≡◌, refl, ap, ◌∙◌, Bool, List, [], ◌∷◌, ◌++◌, some, if◌then◌else◌, All, Text,
}
use muondetector_cluster.Prelude.Int.{ℤ}
use muondetector_cluster.Prelude.Texts.{codes}
use muondetector_cluster.Source.Log.{Value}
use muondetector_cluster.Publish.{Printers}
use muondetector_cluster.Database.{Entry, field_text, add_field, add_all, line_of}

-- No truth value.
abbrev pub IsPlain : Value → Type 0
IsPlain (Value.flag b) = ⊥
IsPlain _ = Unit

module _ (pr : Printers) where
  -- A field as the server reads it: a text in quotes, an integer with an `i`, any other number
  -- bare.
  abbrev pub field_value : Value → Text
  field_value (Value.text t) = codes "\"" ++ t ++ codes "\""
  field_value (Value.integer z) = pr.signed z ++ codes "i"
  field_value (Value.natural k) = pr.unsigned k ++ codes "i"
  field_value (Value.byte k) = pr.unsigned k ++ codes "i"
  field_value (Value.short k) = pr.unsigned k ++ codes "i"
  field_value (Value.word k) = pr.unsigned k ++ codes "i"
  field_value (Value.flag b) = if b then codes "t" else codes "f"
  field_value (Value.real x) = pr.real x

  -- The fields, with a comma between two of them.
  abbrev pub joined : Text → Value → List (Text × Value) → Text
  joined name v [] = name ++ b'=' ∷ field_value v
  joined name v ((next_name, next) ∷ more) =
      (name ++ b'=' ∷ field_value v) ++ b',' ∷ joined next_name next more

  field_text-plain :
      (name : Text) (v : Value)
      → IsPlain v
      → field_text pr name v ≡ b',' ∷ (name ++ b'=' ∷ field_value v)
  unfolding field_text
  field_text-plain name (Value.text t) h =
      append_assoc (b',' ∷ name ++ codes "=\"") t (codes "\"")
      ∙ append_assoc (b',' ∷ name) (codes "=\"") (t ++ codes "\"")
  field_text-plain name (Value.integer z) h =
      append_assoc (b',' ∷ name) (b'=' ∷ pr.signed z) (codes "i")
  field_text-plain name (Value.natural k) h =
      append_assoc (b',' ∷ name) (b'=' ∷ pr.unsigned k) (codes "i")
  field_text-plain name (Value.byte k) h =
      append_assoc (b',' ∷ name) (b'=' ∷ pr.unsigned k) (codes "i")
  field_text-plain name (Value.short k) h =
      append_assoc (b',' ∷ name) (b'=' ∷ pr.unsigned k) (codes "i")
  field_text-plain name (Value.word k) h =
      append_assoc (b',' ∷ name) (b'=' ∷ pr.unsigned k) (codes "i")
  field_text-plain name (Value.flag b) h = absurd h
  field_text-plain name (Value.real x) h = refl

  add_all-fields :
      (e : Entry) (name : Text) (v : Value) (more : List (Text × Value))
      → IsPlain v
      → All (λ (n, w). IsPlain w) more
      → (add_all pr e ((name, v) ∷ more)).fields ≡ e.fields ++ b',' ∷ joined name v more
  unfolding add_field
  add_all-fields e name v [] h k = ap (λ t. e.fields ++ t) (field_text-plain name v h)
  add_all-fields e name v ((next_name, next) ∷ more) h k =
      add_all-fields (add_field pr e name v) next_name next more k.0 k.1
      ∙ ap (λ t. (e.fields ++ t) ++ b',' ∷ joined next_name next more) (field_text-plain name v h)
      ∙ append_assoc e.fields (b',' ∷ (name ++ b'=' ∷ field_value v))
          (b',' ∷ joined next_name next more)

  add_all-tags : (e : Entry) (fields : List (Text × Value)) → (add_all pr e fields).tags ≡ e.tags
  unfolding add_field
  add_all-tags e [] = refl
  add_all-tags e ((name, v) ∷ more) = add_all-tags (add_field pr e name v) more

  line_of-parts :
      (timestamp : ℤ) (e : Entry) (tags fields : Text) (c : ℕ)
      → e.tags ≡ tags
      → e.fields ≡ c ∷ fields
      → line_of pr.signed timestamp e ≡ some (tags ++ (b' ' ∷ fields ++ b' ' ∷ pr.signed timestamp))
  unfolding line_of
  line_of-parts timestamp e tags fields c t f = rw (f, t) refl

  -- An entry with fields that are no truth values, one at least, is sent as its measurement with
  -- its tags, a blank, the fields with a comma between each two, a blank and the time. Of a lone
  -- truth value the first byte of the name is lost, and a comma stands before the sign of equality.
  pub line_of-add_all :
      (timestamp : ℤ) (tags name : Text) (v : Value) (more : List (Text × Value))
      → IsPlain v
      → All (λ (n, w). IsPlain w) more
      → let e : Entry = record { tags = tags; fields = [] } in
        (line_of pr.signed timestamp (add_all pr e ((name, v) ∷ more))
          ≡ some (tags ++ (b' ' ∷ joined name v more ++ b' ' ∷ pr.signed timestamp)))
        × ((c : ℕ) (b : Bool)
            → line_of pr.signed timestamp (add_all pr e ((c ∷ name, Value.flag b) ∷ []))
              ≡ some (
                  tags
                  ++ (b' ' ∷ (name ++ codes ",=" ++ (if b then codes "t" else codes "f"))
                      ++ b' ' ∷ pr.signed timestamp)))
  unfolding add_field field_text
  line_of-add_all timestamp tags name v more h k =
      let e : Entry = record { tags = tags; fields = [] } in
      (
        line_of-parts timestamp (add_all pr e ((name, v) ∷ more)) tags (joined name v more) b','
            (add_all-tags e ((name, v) ∷ more)) (add_all-fields e name v more h k),
        λ c b.
            line_of-parts timestamp (add_all pr e ((c ∷ name, Value.flag b) ∷ [])) tags
              (name ++ codes ",=" ++ (if b then codes "t" else codes "f")) c refl refl,
      )
