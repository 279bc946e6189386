-- ===== src/Publish/Hits.antt =====
-- The round trip of a coincidence: what is published of a hit is read back by `source::mqtt`.
use muondetector_cluster.Prelude.{
  ℕ, ◌%◌, ◌^◌, ◌<◌, ◌≡◌, refl, ap, ◌∙◌, List, [], ◌∷◌, some, Text, arith, get_elem?,
}
use native.Mathlib.Nat.{mod-eq_of_lt}
use muondetector_cluster.Prelude.Int.{ℤ, ◌+ℤ◌, ◌-ℤ◌, IsInt64, eq_of_parts, int_laws}
use muondetector_cluster.Event.{Event, EventData, n, data_duration}
use muondetector_cluster.Message.{MessageParser, field_at}
use muondetector_cluster.Message.Words.{words, pieces, IsClean}
use muondetector_cluster.Message.Joining.{words-add_fields}
use muondetector_cluster.Source.Run.{done, field, Numbers}
use muondetector_cluster.Source.Events.{read_l1, no_location, no_user}
use muondetector_cluster.Source.Buffer.Local.{parsed}
use muondetector_cluster.Publish.{Printers, hit_message}

-- What the standard library documents of writing a number and reading it again.
pub record Faithful (pr : Printers) (std : Numbers) : Type 0 where
  pub reads_unsigned : (k : ℕ) → k < 2 ^ 64 → std.stoul 10 (pr.unsigned k) ≡ done k
  pub reads_hex : (k : ℕ) → k < 2 ^ 64 → std.stoul 16 (pr.hex k) ≡ done k
  pub reads_signed : (z : ℤ) → IsInt64 z → std.stoll (pr.signed z) ≡ done z
  pub unsigned_clean : (k : ℕ) → IsClean b' ' (pr.unsigned k)
  pub hex_clean : (k : ℕ) → IsClean b' ' (pr.hex k)
  pub signed_clean : (z : ℤ) → IsClean b' ' (pr.signed z)

-- The members of a hit in their widths.
pub record FitsWords (e : Event) (h : EventData) : Type 0 where
  pub hash_fits : h.hash < 2 ^ 64
  pub time_acc_fits : h.time_acc < 2 ^ 32
  pub ublox_counter_fits : h.ublox_counter < 2 ^ 16
  pub fix_fits : h.fix < 2 ^ 8
  pub utc_fits : h.utc < 2 ^ 8
  pub grid_fits : h.gnss_time_grid < 2 ^ 8
  pub n_fits : n e < 2 ^ 64
  pub start_fits : IsInt64 h.start
  pub duration_fits : IsInt64 (data_duration h)

-- What a source can know of a hit: all but its place and its sender, of which the topic has names.
abbrev pub received : Text → Text → EventData → EventData
received user station_id h = record h {
  location = no_location;
  userinfo = no_user;
  user = user;
  station_id = station_id;
}

module _ (pr : Printers) where
  abbrev pub hit_fields : Text → Text → Event → EventData → List Text
  hit_fields uuid geohash e h =
      uuid
      ∷ pr.hex h.hash
      ∷ geohash
      ∷ pr.unsigned h.time_acc
      ∷ pr.unsigned (n e)
      ∷ pr.signed (e.head.end -ℤ e.head.start)
      ∷ pr.signed (h.start -ℤ e.head.start)
      ∷ pr.unsigned h.ublox_counter
      ∷ pr.signed (data_duration h)
      ∷ pr.unsigned h.gnss_time_grid
      ∷ pr.unsigned h.fix
      ∷ pr.signed h.start
      ∷ pr.unsigned h.utc
      ∷ []

  -- The fields that the parser finds.
  words-hit_message :
      (std : Numbers) (faithful : Faithful pr std) (uuid geohash : Text) (e : Event) (h : EventData)
      → IsClean b' ' uuid
      → IsClean b' ' geohash
      → words b' ' (hit_message pr uuid geohash e h).message ≡ hit_fields uuid geohash e h
  unfolding hit_message
  words-hit_message std f uuid geohash e h u g =
      words-add_fields (hit_fields uuid geohash e h) (record { message = []; delimiter = b' ' })
        (
          u,
          (
            f.hex_clean h.hash,
            (
              g,
              (
                f.unsigned_clean h.time_acc,
                (
                  f.unsigned_clean (n e),
                  (
                    f.signed_clean (e.head.end -ℤ e.head.start),
                    (
                      f.signed_clean (h.start -ℤ e.head.start),
                      (
                        f.unsigned_clean h.ublox_counter,
                        (
                          f.signed_clean (data_duration h),
                          (
                            f.unsigned_clean h.gnss_time_grid,
                            (
                              f.unsigned_clean h.fix,
                              (f.signed_clean h.start, (f.unsigned_clean h.utc, tt)),
                            ),
                          ),
                        ),
                      ),
                    ),
                  ),
                ),
              ),
            ),
          ),
        )
      ∙ unfold words pieces in refl

again : (a b : ℤ) → (a -ℤ b) +ℤ b ≡ a
again a b = eq_of_parts ((a -ℤ b) +ℤ b) a (omega int_laws)

mod_small : (a b : ℕ) → a < b → a % b ≡ a
mod_small a b h = mod-eq_of_lt h

field_done :
    (m : MessageParser) (i : ℕ) (f : Text) → get_elem? m.fields i ≡ some f → field m i ≡ done f
unfolding field field_at
field_done m i f e = ground (arith, e)

read_l1-fields :
    (pr : Printers) (std : Numbers) (faithful : Faithful pr std) (topic m : MessageParser)
    (user station_id uuid geohash : Text) (e : Event) (h : EventData)
    → field topic 2 ≡ done user
    → field topic 3 ≡ done station_id
    → FitsWords e h
    → m.fields ≡ hit_fields pr uuid geohash e h
    → read_l1 std topic m ≡ done (received user station_id h, n e)
unfolding read_l1 data_duration
read_l1-fields pr std f topic m user station_id uuid geohash e h q r w fields =
    let at : (i : ℕ) (t : Text)
        → get_elem? (hit_fields pr uuid geohash e h) i ≡ some t
        → field m i ≡ done t =
      λ i t k. field_done m i t (ap (λ fs. get_elem? fs i) fields ∙ k) in
    rw
      (
        at 1 (pr.hex h.hash) refl,
        f.reads_hex h.hash w.hash_fits,
        at 4 (pr.unsigned (n e)) refl,
        f.reads_unsigned (n e) w.n_fits,
        q,
        r,
        at 3 (pr.unsigned h.time_acc) refl,
        f.reads_unsigned h.time_acc (omega (arith, w.time_acc_fits)),
        at 7 (pr.unsigned h.ublox_counter) refl,
        f.reads_unsigned h.ublox_counter (omega (arith, w.ublox_counter_fits)),
        at 10 (pr.unsigned h.fix) refl,
        f.reads_unsigned h.fix (omega (arith, w.fix_fits)),
        at 12 (pr.unsigned h.utc) refl,
        f.reads_unsigned h.utc (omega (arith, w.utc_fits)),
        at 9 (pr.unsigned h.gnss_time_grid) refl,
        f.reads_unsigned h.gnss_time_grid (omega (arith, w.grid_fits)),
        at 11 (pr.signed h.start) refl,
        f.reads_signed h.start w.start_fits,
        at 8 (pr.signed (data_duration h)) refl,
        f.reads_signed (data_duration h) w.duration_fits,
        mod_small h.time_acc (2 ^ 32) w.time_acc_fits,
        mod_small h.ublox_counter (2 ^ 16) w.ublox_counter_fits,
        mod_small h.fix (2 ^ 8) w.fix_fits,
        mod_small h.utc (2 ^ 8) w.utc_fits,
        mod_small h.gnss_time_grid (2 ^ 8) w.grid_fits,
        again h.end h.start,
      )
      refl

-- What `sink::mqtt` publishes of a hit of a coincidence, `source::mqtt` reads back, by a topic that
-- names a user and a station: the hash, the times, the accuracy, the counter and the receiver's
-- state of the hit, and the number of hits; the length of the pulse gives back its end. This takes
-- a geohash that is not empty.
pub read_l1-hit_message :
    (pr : Printers) (std : Numbers) (faithful : Faithful pr std) (topic : MessageParser)
    (user station_id uuid geohash : Text) (e : Event) (h : EventData)
    → field topic 2 ≡ done user
    → field topic 3 ≡ done station_id
    → IsClean b' ' uuid
    → IsClean b' ' geohash
    → FitsWords e h
    → read_l1 std topic (parsed b' ' (hit_message pr uuid geohash e h).message)
      ≡ done (received user station_id h, n e)
read_l1-hit_message pr std f topic user station_id uuid geohash e h q r u g w =
    read_l1-fields pr std f topic (parsed b' ' (hit_message pr uuid geohash e h).message) user
      station_id uuid geohash e h q r w (words-hit_message pr std f uuid geohash e h u g)
