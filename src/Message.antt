-- ===== src/Message.antt =====
-- `message_constructor` and `message_parser` (include/utility/utility.h, src/utility/utility.cpp):
-- fields that are joined, and found again, by a delimiter. The parser's iterator is the text from
-- it to the end; a field is the text between its two iterators. Both loops read `*m_iterator`
-- before they compare it with the end; what stands there does not matter to them.
pub mod Words
pub mod Lines
pub mod Parsing
pub mod Joining
mod Tests
use muondetector_cluster.Prelude.{
  ℕ, zero, suc, Bool, true, false, List, [], ◌∷◌, ◌++◌, Option, some, none, if◌then◌else◌, ◌==◌,
  length, get_elem?, Text,
}

abbrev pub is_empty {ℓ} : {A : Type ℓ} → List A → Bool
is_empty [] = true
is_empty (x ∷ xs) = false

pub record MessageConstructor : Type 0 where
  pub message : Text
  pub delimiter : ℕ

unfoldable pub add_field : Text → MessageConstructor → MessageConstructor
add_field field c =
    let start = (if is_empty c.message then c.message else c.message ++ c.delimiter ∷ []) in
    record c { message = start ++ field }

pub record MessageParser : Type 0 where
  pub content : Text
  pub iterator : Text
  pub delimiter : ℕ
  pub fields : List Text

-- The loop of `skip_delimiter`.
unfoldable pub skip_delimiter : ℕ → Text → Text
skip_delimiter d [] = []
skip_delimiter d (c ∷ cs) = if c == d then skip_delimiter d cs else c ∷ cs

-- The loop of `read_field`: what it runs over, and what is left.
unfoldable pub scan_field : ℕ → Text → Text × Text
scan_field d [] = ([], [])
scan_field d (c ∷ cs) =
    let (field, left) = scan_field d cs in if c == d then ([], c ∷ cs) else (c ∷ field, left)

unfoldable pub read_field : MessageParser → MessageParser
unfolding skip_delimiter scan_field
read_field p =
    let (field, left) = scan_field p.delimiter (skip_delimiter p.delimiter p.iterator) in
    record p {
      iterator = left;
      fields = (if is_empty field then p.fields else p.fields ++ field ∷ []);
    }

unfoldable pub at_end : MessageParser → Bool × MessageParser
unfolding skip_delimiter
at_end p =
    let left = skip_delimiter p.delimiter p.iterator in
    (is_empty left, record p { iterator = left })

-- `while (!at_end()) read_field();`, with fuel.
unfoldable pub read_all : ℕ → MessageParser → Option MessageParser
unfolding at_end read_field
read_all zero p = none
read_all (suc fuel) p =
    let (done, p') = at_end p in
    let rest = read_all fuel (read_field p') in if done then some p' else rest

-- The constructor; every round of its loop reads a byte or more.
unfoldable pub parse : Text → ℕ → Option MessageParser
unfolding read_all
parse message d =
    read_all (suc (length message))
      (record { content = message; iterator = message; delimiter = d; fields = [] })

unfoldable pub size : MessageParser → ℕ
size p = length p.fields

-- `operator[]`; an index out of range is undefined behaviour.
unfoldable pub field_at : MessageParser → ℕ → Option Text
field_at p i = get_elem? p.fields i
