-- ===== src/Rest/Base64.antt =====
-- `encode` and `decode` of include/utility/base64.h; the iterators of Boost are parameters.
use muondetector_cluster.Prelude.{
  ℕ, zero, suc, ◌+◌, refl, ap, ◌∙◌, ◌-◌, ◌*◌, ◌/◌, ◌%◌, ◌≡◌, ◌&&◌, [], ◌∷◌, ◌++◌, if◌then◌else◌,
  ◌==◌, arith, length, replicate, length-append, length-replicate, Text,
}
use muondetector_cluster.Message.{is_empty}
use muondetector_cluster.Source.Run.{Run, ◌>>=◌, done}

-- `trim_right_copy_if` with the test for a zero byte
unfoldable pub trim_zeros : Text → Text
trim_zeros [] = []
trim_zeros (c ∷ s) = let rest = trim_zeros s in if c == 0 && is_empty rest then [] else c ∷ rest

-- `from_base64` is the text of `transform_width<binary_from_base64<…>, 8, 6>`, which throws on a
-- character that is none of the code's.
unfoldable pub decode : (Text → Run Text) → Text → Run Text
unfolding trim_zeros
decode from_base64 val = from_base64 val >>= λ text. done (trim_zeros text)

-- `to_base64` is the text of `base64_from_binary<transform_width<…, 6, 8>>`.
unfoldable pub encode : (Text → Text) → Text → Text
encode to_base64 val = to_base64 val ++ replicate ((3 - length val % 3) % 3) b'='

-- Six bits a character: an encoded text has four characters for every three bytes that were begun.
pub length-encode :
    (to_base64 : Text → Text) (val : Text)
    → length (to_base64 val) ≡ (8 * length val + 5) / 6
    → length (encode to_base64 val) ≡ 4 * ((length val + 2) / 3)
unfolding encode
length-encode to_base64 val h = omega (
  arith,
  h,
  length-append (to_base64 val) (replicate ((3 - length val % 3) % 3) b'='),
  length-replicate {A = ℕ} ((3 - length val % 3) % 3) b'=',
)

trim_zeros-zeros : (count : ℕ) → trim_zeros (replicate count 0) ≡ []
unfolding trim_zeros
trim_zeros-zeros zero = refl
trim_zeros-zeros (suc count) = ground (arith, trim_zeros-zeros count)

trim_zeros-append :
    (val : Text) (count : ℕ) → trim_zeros (val ++ replicate count 0) ≡ trim_zeros val
unfolding trim_zeros
trim_zeros-append [] count = trim_zeros-zeros count
trim_zeros-append (c ∷ val) count = ground (arith, trim_zeros-append val count)

-- Where the iterators are inverse to each other, up to a zero byte for each `=`, a text that does
-- not end with a zero byte is decoded from its code.
pub decode-encode :
    (from_base64 : Text → Run Text) (to_base64 : Text → Text)
    → ((v : Text)
        → let padding = (3 - length v % 3) % 3 in
          from_base64 (to_base64 v ++ replicate padding b'=') ≡ done (v ++ replicate padding 0))
    → (val : Text) → trim_zeros val ≡ val
    → decode from_base64 (encode to_base64 val) ≡ done val
unfolding decode encode
decode-encode from_base64 to_base64 h val t = rw (h val) (ap done (trim_zeros-append val _ ∙ t))
