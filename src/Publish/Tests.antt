-- ===== src/Publish/Tests.antt =====
-- Witnesses and tests for what is published.
use muondetector_cluster.Prelude.{
  ℕ, zero, suc, ◌-◌, ◌<◌, ◌≡◌, ◌≢◌, refl, Bool, true, List, [], ◌∷◌, ◌++◌, Option, some, Text, All,
  arith, length, replicate, length-replicate, ◌==◌, inr, not, ltb, if◌then◌else◌, ap,
}
use muondetector_cluster.Prelude.Int.{ℤ, pos, negsuc}
use muondetector_cluster.Prelude.Texts.{codes}
use muondetector_cluster.Prelude.Samples.{whole}
use muondetector_cluster.Event.{Event, EventData, n, data_duration}
use muondetector_cluster.Event.Samples.{lone, nobody}
use muondetector_cluster.Message.{MessageParser, field_at, size}
use muondetector_cluster.Message.Words.{IsClean}
use muondetector_cluster.Source.Run.{done, field}
use muondetector_cluster.Source.Samples.{
  strokes, signed_strokes, stroke_numbers, counted, counted_signed,
}
use muondetector_cluster.Source.Collector.{ItemCollector, ResultCode}
use muondetector_cluster.Source.Events.{read_l1, add_l1}
use muondetector_cluster.Source.Buffer.Local.{parsed}
use muondetector_cluster.Publish.{Printers, hit_message, location_hash}
use muondetector_cluster.Publish.Hits.{Faithful, FitsWords, received, read_l1-hit_message}
use muondetector_cluster.Publish.Unplaced.{add_l1-unplaced}

abbrev stroke_printers : Printers
stroke_printers = record {
  signed = signed_strokes;
  unsigned = strokes;
  hex = strokes;
  real = strokes;
  flag = λ b. [];
  character = strokes;
}

strokes-unmixed : (k : ℕ) → All {A = ℕ} (λ c. c ≢ b' ') (replicate k b'1')
strokes-unmixed zero = tt
strokes-unmixed (suc k) = (omega arith, strokes-unmixed k)

strokes-IsClean : (k : ℕ) → IsClean b' ' (strokes k)
strokes-IsClean k = ((λ e. absurd (cc (e))), strokes-unmixed (suc k))

signed_strokes-IsClean : (z : ℤ) → IsClean b' ' (signed_strokes z)
signed_strokes-IsClean (pos k) = strokes-IsClean k
signed_strokes-IsClean (negsuc k) = ((λ e. absurd (cc (e))), (omega arith, strokes-unmixed k))

strokes-Faithful : Faithful stroke_printers stroke_numbers
strokes-Faithful = record {
  reads_unsigned = λ k h. ap (λ j. done j) (counted k);
  reads_hex = λ k h. ap (λ j. done j) (counted k);
  reads_signed = λ z h. counted_signed z;
  unsigned_clean = strokes-IsClean;
  hex_clean = strokes-IsClean;
  signed_clean = signed_strokes-IsClean;
}

abbrev topic : MessageParser
topic = record {
  content = [];
  iterator = [];
  delimiter = b'/';
  fields = codes "muonpi" ∷ codes "l1data" ∷ codes "kai" ∷ codes "home" ∷ [];
}

abbrev pair : Event
pair = record (lone 3 100) { events = (lone 3 100).head ∷ (lone 4 120).head ∷ [] }

abbrev hit : EventData
hit = (lone 4 120).head

hit-FitsWords : FitsWords pair hit
unfolding data_duration muondetector_cluster.Prelude.Int.◌-ℤ◌
hit-FitsWords = record {
  hash_fits = omega arith;
  time_acc_fits = omega arith;
  ublox_counter_fits = omega arith;
  fix_fits = omega arith;
  utc_fits = omega arith;
  grid_fits = omega arith;
  n_fits = omega arith;
  start_fits = (omega arith, omega arith);
  duration_fits = (omega arith, omega arith);
}

read_l1-hit_message_example :
    read_l1 stroke_numbers topic
      (parsed b' ' (hit_message stroke_printers (codes "af09") (codes "u1h") pair hit).message)
    ≡ done (received (codes "kai") (codes "home") hit, n pair)
read_l1-hit_message_example =
    read_l1-hit_message stroke_printers stroke_numbers strokes-Faithful topic (codes "kai")
      (codes "home") (codes "af09") (codes "u1h") pair hit (unfold field field_at in refl)
      (unfold field field_at in refl)
      ((λ e. absurd (cc (e))), (omega arith, (omega arith, (omega arith, (omega arith, tt)))))
      ((λ e. absurd (cc (e))), (omega arith, (omega arith, (omega arith, tt)))) hit-FitsWords

abbrev waiting : ItemCollector Event
waiting = record { user_info = nobody; first_message = pos 0; status = 0; item = lone 3 100 }

-- A hit of a place with a maximum length of 0 for its geohash.
abbrev unplaced_hit : EventData
unplaced_hit = record hit { location = record hit.location { max_geohash_length = 0 } }

abbrev reaches : ℕ → ℕ → Bool
reaches a b = not (ltb a b)

abbrev unplaced_message : MessageParser
unplaced_message =
    parsed b' '
      (hit_message stroke_printers (codes "af09")
        (location_hash stroke_printers whole reaches unplaced_hit.location) pair
        unplaced_hit).message

add_l1-unplaced_example :
    (size unplaced_message ≡ 12)
    × (add_l1 stroke_numbers topic unplaced_message waiting ≡ done (ResultCode.error, waiting))
add_l1-unplaced_example =
    add_l1-unplaced stroke_printers stroke_numbers strokes-Faithful whole reaches topic
      (codes "af09") pair unplaced_hit waiting
      ((λ e. absurd (cc (e))), (omega arith, (omega arith, (omega arith, (omega arith, tt)))))
      (inr refl)
