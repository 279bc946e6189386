-- ===== src/Publish/Unplaced.antt =====
-- A hit without a geohash: its message has a field less.
use muondetector_cluster.Prelude.{
  ℕ, suc, ◌≡◌, ◌≢◌, ◌⊎◌, inl, inr, refl, ap, ◌∙◌, Bool, true, List, [], ◌∷◌, some, Text, All, arith,
  length, if-cases,
}
use muondetector_cluster.Prelude.Floats.{Double, Floats}
use muondetector_cluster.Geohash.{Cursor, refine, is_outside, whole_world, from_coordinates}
use muondetector_cluster.Prelude.Int.{◌-ℤ◌}
use muondetector_cluster.Event.{Event, EventData, Location, n, data_duration}
use muondetector_cluster.Message.{MessageParser, size}
use muondetector_cluster.Message.Words.{words, pieces, IsClean, nonempty_only}
use muondetector_cluster.Message.Joining.{words-add_fields_any}
use muondetector_cluster.Source.Run.{done, Numbers}
use muondetector_cluster.Source.Collector.{ItemCollector, ResultCode}
use muondetector_cluster.Source.Events.{add_l1}
use muondetector_cluster.Source.Buffer.Local.{parsed}
use muondetector_cluster.Publish.{Printers, hit_message, location_hash}
use muondetector_cluster.Publish.Hits.{Faithful, hit_fields}

nonempty_only-keep :
    (f : Text) (fs : List Text)
    → f ≢ []
    → length (nonempty_only (f ∷ fs)) ≡ suc (length (nonempty_only fs))
nonempty_only-keep [] fs h = absurd (h refl)
nonempty_only-keep (c ∷ f) fs h = refl

nonempty_only-All : (fs : List Text) → All (λ f. f ≢ []) fs → length (nonempty_only fs) ≡ length fs
nonempty_only-All [] h = refl
nonempty_only-All (f ∷ fs) h = nonempty_only-keep f fs h.0 ∙ ap suc (nonempty_only-All fs h.1)

module _ (pr : Printers) (std : Numbers) (faithful : Faithful pr std) where
  words-unplaced :
      (uuid : Text) (e : Event) (h : EventData)
      → IsClean b' ' uuid
      → words b' ' (hit_message pr uuid [] e h).message ≡ nonempty_only (hit_fields pr uuid [] e h)
  unfolding hit_message
  words-unplaced uuid e h u =
      words-add_fields_any (hit_fields pr uuid [] e h) (record { message = []; delimiter = b' ' })
        (
          u.1,
          (
            (faithful.hex_clean h.hash).1,
            (
              tt,
              (
                (faithful.unsigned_clean h.time_acc).1,
                (
                  (faithful.unsigned_clean (n e)).1,
                  (
                    (faithful.signed_clean (e.head.end -ℤ e.head.start)).1,
                    (
                      (faithful.signed_clean (h.start -ℤ e.head.start)).1,
                      (
                        (faithful.unsigned_clean h.ublox_counter).1,
                        (
                          (faithful.signed_clean (data_duration h)).1,
                          (
                            (faithful.unsigned_clean h.gnss_time_grid).1,
                            (
                              (faithful.unsigned_clean h.fix).1,
                              (
                                (faithful.signed_clean h.start).1,
                                ((faithful.unsigned_clean h.utc).1, tt),
                              ),
                            ),
                          ),
                        ),
                      ),
                    ),
                  ),
                ),
              ),
            ),
          ),
        )
      ∙ unfold words pieces in refl

  -- All fields but the geohash have something in them.
  twelve :
      (uuid : Text) (e : Event) (h : EventData)
      → IsClean b' ' uuid
      → length (nonempty_only (hit_fields pr uuid [] e h)) ≡ 12
  twelve uuid e h u =
      nonempty_only-keep uuid _ u.0
      ∙ ap suc (nonempty_only-keep (pr.hex h.hash) _ (faithful.hex_clean h.hash).0)
      ∙ ap (λ k. suc (suc k))
          (nonempty_only-All
            (pr.unsigned h.time_acc
              ∷ pr.unsigned (n e)
              ∷ pr.signed (e.head.end -ℤ e.head.start)
              ∷ pr.signed (h.start -ℤ e.head.start)
              ∷ pr.unsigned h.ublox_counter
              ∷ pr.signed (data_duration h)
              ∷ pr.unsigned h.gnss_time_grid
              ∷ pr.unsigned h.fix
              ∷ pr.signed h.start
              ∷ pr.unsigned h.utc
              ∷ [])
            (
              (faithful.unsigned_clean h.time_acc).0,
              (
                (faithful.unsigned_clean (n e)).0,
                (
                  (faithful.signed_clean (e.head.end -ℤ e.head.start)).0,
                  (
                    (faithful.signed_clean (h.start -ℤ e.head.start)).0,
                    (
                      (faithful.unsigned_clean h.ublox_counter).0,
                      (
                        (faithful.signed_clean (data_duration h)).0,
                        (
                          (faithful.unsigned_clean h.gnss_time_grid).0,
                          (
                            (faithful.unsigned_clean h.fix).0,
                            (
                              (faithful.signed_clean h.start).0,
                              ((faithful.unsigned_clean h.utc).0, tt),
                            ),
                          ),
                        ),
                      ),
                    ),
                  ),
                ),
              ),
            ))

  module _ (fl : Floats) (ge : Double → Double → Bool) where
    -- The place of a hit gives no geohash: it is outside the range, or the length is 0.
    abbrev pub IsUnplaced : Location → Type 0
    IsUnplaced l = (is_outside fl ge l.lon l.lat ≡ true) ⊎ (l.max_geohash_length ≡ 0)

    refine-none :
        (fuel : ℕ) (lon lat : Double) (c : Cursor)
        → refine fl ge (suc fuel) lon lat 0 c ≡ some c.geohash
    unfolding refine
    refine-none fuel lon lat c = ground arith

    location_hash-unplaced : (l : Location) → IsUnplaced l → location_hash pr fl ge l ≡ []
    unfolding location_hash
    location_hash-unplaced l (inl outside) =
        let none_made : from_coordinates fl ge l.lon l.lat l.max_geohash_length ≡ some [] =
          unfold from_coordinates in rw outside refl in
        rw (location_hash, none_made) refl
    location_hash-unplaced l (inr empty) =
        let none_made : from_coordinates fl ge l.lon l.lat 0 ≡ some [] =
          unfold from_coordinates in
          if-cases (λ o. o ≡ some []) (is_outside fl ge l.lon l.lat) (some [])
            (refine fl ge 61 l.lon l.lat 0 (whole_world fl ge)) (λ b. refl)
            (λ b. refine-none 60 l.lon l.lat (whole_world fl ge)) in
        rw (location_hash, empty, none_made) refl

    -- What is published of a hit whose place is outside the range, or has a maximum length of 0,
    -- has twelve fields, and the source refuses it, whatever it has collected before. The
    -- identifier and the texts of numbers are not empty and hold no blank.
    pub add_l1-unplaced :
        (topic : MessageParser) (uuid : Text) (e : Event) (h : EventData) (c : ItemCollector Event)
        → IsClean b' ' uuid
        → IsUnplaced h.location
        → let message =
            parsed b' ' (hit_message pr uuid (location_hash pr fl ge h.location) e h).message in
          (size message ≡ 12) × (add_l1 std topic message c ≡ done (ResultCode.error, c))
    unfolding size
    add_l1-unplaced topic uuid e h c u unplaced = rw (location_hash-unplaced h.location unplaced) (
        let fields : length (words b' ' (hit_message pr uuid [] e h).message) ≡ 12 =
          rw (words-unplaced uuid e h u) (twelve uuid e h u) in
        (fields, unfold add_l1 in ground (arith, fields)))
