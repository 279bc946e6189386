-- ===== src/Database/Tests.antt =====
-- Witnesses and tests for the entries of the database.
use muondetector_cluster.Prelude.{ℕ, ◌≡◌, Bool, List, [], ◌∷◌, ◌++◌, some, if◌then◌else◌, Text}
use muondetector_cluster.Prelude.Int.{pos}
use muondetector_cluster.Prelude.Texts.{codes}
use muondetector_cluster.Source.Log.{Value}
use muondetector_cluster.Source.Samples.{strokes, signed_strokes}
use muondetector_cluster.Publish.{Printers}
use muondetector_cluster.Database.{Entry, add_all, line_of}
use muondetector_cluster.Database.Lines.{joined, line_of-add_all}

abbrev printers : Printers
printers = record {
  signed = signed_strokes;
  unsigned = strokes;
  hex = strokes;
  real = strokes;
  flag = λ b. [];
  character = strokes;
}

abbrev rate : List (Text × Value)
rate = (codes "rate", Value.natural 2) ∷ []

line_of-add_all_example :
    let e : Entry = record { tags = codes "log"; fields = [] } in
    (line_of signed_strokes
        (pos 1)
        (add_all printers e ((codes "type", Value.text (codes "x")) ∷ rate))
      ≡ some (
          codes "log"
          ++ (b' ' ∷ joined printers (codes "type") (Value.text (codes "x")) rate
              ++ b' ' ∷ signed_strokes (pos 1))))
    × ((c : ℕ) (b : Bool)
        → line_of signed_strokes
            (pos 1)
            (add_all printers e ((c ∷ codes "type", Value.flag b) ∷ []))
          ≡ some (
              codes "log"
              ++ (b' ' ∷ (codes "type" ++ codes ",=" ++ (if b then codes "t" else codes "f"))
                  ++ b' ' ∷ signed_strokes (pos 1))))
line_of-add_all_example =
    line_of-add_all printers (pos 1) (codes "log") (codes "type") (Value.text (codes "x")) rate tt
      (tt, tt)
