-- ===== src/Source/Events/Single.antt =====
-- What the collector makes of a detector's own hit.
use muondetector_cluster.Prelude.{
  ℕ, ◌^◌, ◌<◌, ◌≤◌, ◌≡◌, ◌⊎◌, inl, inr, refl, Bool, true, false, List, [], Option, none, some, Text,
  get_elem?, arith, ltb, length, ◌||◌, Bool-cases, get_elem?-of_lt, subst, sym, ap, ◌∙◌,
}
use muondetector_cluster.Prelude.Int.{ℤ, ◌≤ℤ◌, ltb_ℤ, IsInt64, is_int64}
use muondetector_cluster.Prelude.Floats.{Double}
use muondetector_cluster.Event.{Event, EventData, UserInfo, user_hash, site_id}
use muondetector_cluster.Message.{MessageParser, size}
use muondetector_cluster.Source.Run.{Run, done, invalid, overflow, fault, ◌>>=◌, field, Numbers}
use muondetector_cluster.Source.Run.Yields.{
  Yields, NoFault, >>=-Yields, >>=-Yields_with, Yields-self, field-NoFault, Sound, returns,
  throws_invalid, throws_overflow, faults, Run-Cases,
}
use muondetector_cluster.Source.Collector.{ItemCollector, ResultCode}
use muondetector_cluster.Source.Events.{
  add_hit, read_hit, refuses, accept_hit, number, moment, to_count, starts_with_point,
}

-- The members that are read from the message, in their widths.
pub record InRange (d : EventData) : Type 0 where
  pub ordered : d.start ≤ℤ d.end
  pub start_fits : IsInt64 d.start
  pub end_fits : IsInt64 d.end
  pub hash_fits : d.hash < 2 ^ 64
  pub time_acc_fits : d.time_acc < 2 ^ 32
  pub ublox_counter_fits : d.ublox_counter < 2 ^ 16
  pub fix_fits : d.fix < 2 ^ 8
  pub utc_fits : d.utc < 2 ^ 8
  pub grid_fits : d.gnss_time_grid < 2 ^ 8

-- What may come of a detector's message: an error, with the collector as it is, or an event of one
-- hit of the collector's detector; no exception, and no read outside the fields.
abbrev pub HitOutcome :
    Numbers → ItemCollector Event → Run (ResultCode × ItemCollector Event) → Type 0
HitOutcome std c (done (code, c')) =
    ((code ≡ ResultCode.error) × (c' ≡ c))
    ⊎ ((code ≡ ResultCode.finished)
        × (c'.item.events ≡ [])
        × InRange c'.item.head
        × (c'.item.head.hash ≡ user_hash std.hash c.user_info)
        × (c'.status ≡ 0))
HitOutcome std c invalid = ⊥
HitOutcome std c overflow = ⊥
HitOutcome std c fault = ⊥

-- The numbers of a hit before its times are compared.
record Fits (std : Numbers) (u : UserInfo) (d : EventData) : Type 0 where
  start_fits : IsInt64 d.start
  end_fits : IsInt64 d.end
  time_acc_fits : d.time_acc < 2 ^ 32
  ublox_counter_fits : d.ublox_counter < 2 ^ 16
  fix_fits : d.fix < 2 ^ 8
  utc_fits : d.utc < 2 ^ 8
  grid_fits : d.gnss_time_grid < 2 ^ 8
  own_hash : d.hash ≡ user_hash std.hash u

-- The first two of these fields are refused by the conversion, or give numbers of seconds of which
-- 64 bits hold the nanoseconds.
abbrev pub Timely : Numbers → List Text → Type 0
Timely std fields =
    (i : ℕ) (text : Text)
    → i < 2
    → get_elem? fields i ≡ some text
    → (x : Double) → std.stold text ≡ done x
    → (z : ℤ) × (std.to_ns x ≡ some z) × IsInt64 z

to_count-Yields : (o : Option ℤ) (z : ℤ) → o ≡ some z → IsInt64 z → Yields IsInt64 (to_count o)
unfolding to_count
to_count-Yields none z e h = absurd (cc (e))
to_count-Yields (some y) z e h =
    let fits : IsInt64 y = subst IsInt64 (cc (e)) h in
    let inside : is_int64 y ≡ true = ground (arith, fits.0, fits.1) in rw inside fits

module _ (std : Numbers) (sound : Sound std) (topic content : MessageParser)
    (topic_long : 4 ≤ size topic) (content_long : 7 ≤ size content)
    (timely : Timely std content.fields) where
  hash_bounded : (u : UserInfo) (d : EventData) → Fits std u d → d.hash < 2 ^ 64
  unfolding user_hash
  hash_bounded u d fits = rw fits.own_hash (sound.hash_sound (site_id u))

  number-NoFault : (base i : ℕ) → i < 7 → NoFault (number std base content i)
  number-NoFault base i h =
      >>=-Yields (λ a. Unit {0}) (field content i) (std.stoul base)
        (field-NoFault content i (omega (arith, h, content_long))) (sound.stoul_sound base)

  moment-Yields : (i : ℕ) → i < 2 → Yields IsInt64 (moment std content i)
  unfolding field size
  moment-Yields i h =
      let (text, q) = get_elem?-of_lt content.fields i (omega (arith, h, content_long)) in
      let made : moment std content i ≡ (do x ← std.stold text; to_count (std.to_ns x)) =
        ground (arith, q) in
      subst (Yields IsInt64) (sym made) (
        >>=-Yields_with (λ x. std.stold text ≡ done x) IsInt64 (std.stold text) _
          (Yields-self (std.stold text) (sound.stold_sound text))
          (λ x e.
            let (z, integral, fits) = timely i text h q x e in to_count-Yields _ z integral fits))

  read_hit-Fits : (u : UserInfo) → Yields (Fits std u) (read_hit std topic content u)
  unfolding read_hit
  read_hit-Fits u =
      >>=-Yields_with IsInt64 (Fits std u) (moment std content 0) _ (moment-Yields 0 (omega arith))
        λ start begins.
          >>=-Yields_with IsInt64 (Fits std u) (moment std content 1) _
            (moment-Yields 1 (omega arith))
            λ end ends.
              >>=-Yields (Fits std u) (field topic 2) _
                (field-NoFault topic 2 (omega (arith, topic_long)))
                λ user.
                  >>=-Yields (Fits std u) (number std 10 content 2) _
                    (number-NoFault 10 2 (omega arith))
                    λ a.
                      >>=-Yields (Fits std u) (number std 10 content 3) _
                        (number-NoFault 10 3 (omega arith))
                        λ b.
                          >>=-Yields (Fits std u) (number std 10 content 4) _
                            (number-NoFault 10 4 (omega arith))
                            λ f.
                              >>=-Yields (Fits std u) (number std 10 content 6) _
                                (number-NoFault 10 6 (omega arith))
                                λ v.
                                  >>=-Yields (Fits std u) (number std 10 content 5) _
                                    (number-NoFault 10 5 (omega arith))
                                    λ g. record {
                                      start_fits = begins;
                                      end_fits = ends;
                                      time_acc_fits = omega arith;
                                      ublox_counter_fits = omega arith;
                                      fix_fits = omega arith;
                                      utc_fits = omega arith;
                                      grid_fits = omega arith;
                                      own_hash = refl;
                                    }

  accept_hit-HitOutcome :
      (d : EventData) (c : ItemCollector Event)
      → Fits std c.user_info d
      → HitOutcome std c (done (accept_hit d c))
  unfolding accept_hit
  accept_hit-HitOutcome d c fits = elim (Bool-cases (ltb_ℤ d.end d.start)) [
    | inl late ↦ rw late (inl (refl, refl))
    | inr ordered ↦ rw ordered (
        inr (
          refl,
          refl,
          record {
            ordered = ground arith;
            start_fits = fits.start_fits;
            end_fits = fits.end_fits;
            hash_fits = hash_bounded c.user_info d fits;
            time_acc_fits = fits.time_acc_fits;
            ublox_counter_fits = fits.ublox_counter_fits;
            fix_fits = fits.fix_fits;
            utc_fits = fits.utc_fits;
            grid_fits = fits.grid_fits;
          },
          fits.own_hash,
          refl,
        ))
  ]

  refuses-done : (b : Bool) × (refuses content ≡ done b)
  unfolding refuses field size
  refuses-done =
      let (begin, p) = get_elem?-of_lt content.fields 0 (omega (arith, content_long)) in
      let (finish, q) = get_elem?-of_lt content.fields 1 (omega (arith, content_long)) in
      (
        (ltb (length begin) 17 || ltb (length finish) 17)
            || (starts_with_point begin || starts_with_point finish),
        ground (arith, p, q),
      )

  -- `add` behind its tests, by what comes of the reading.
  after_reading :
      (c : ItemCollector Event)
      → refuses content ≡ done false
      → HitOutcome std c (add_hit std topic content c)
  unfolding add_hit
  after_reading c open_field = elim (Run-Cases (read_hit std topic content c.user_info)) [
    | returns d q ↦
        let made : add_hit std topic content c ≡ done (accept_hit d c) =
          ground (arith, open_field, q) in
        subst (HitOutcome std c) (sym made) (
          accept_hit-HitOutcome d c
            (subst (Yields (Fits std c.user_info)) q (read_hit-Fits c.user_info)))
    | throws_invalid q ↦
        let made : add_hit std topic content c ≡ done (ResultCode.error, c) =
          ground (arith, open_field, q) in
        subst (HitOutcome std c) (sym made) (inl (refl, refl))
    | throws_overflow q ↦
        let made : add_hit std topic content c ≡ done (ResultCode.error, c) =
          ground (arith, open_field, q) in
        subst (HitOutcome std c) (sym made) (inl (refl, refl))
    | faults q ↦ absurd (subst (Yields (Fits std c.user_info)) q (read_hit-Fits c.user_info))
  ]

  -- A detector's message with enough fields, and times that 64 bits hold if they are numbers,
  -- either leaves the collector as it is, with an error, or finishes an event of one hit of the
  -- collector's detector, with its end not before its start and every number in its width; it
  -- throws no exception and reads no field that is not there.
  pub add_hit_lem : (c : ItemCollector Event) → HitOutcome std c (add_hit std topic content c)
  unfolding add_hit
  add_hit_lem c =
      let (b, q) = refuses-done in
      elim (Bool-cases b) [
        | inl refused ↦
            let made : add_hit std topic content c ≡ done (ResultCode.error, c) =
              ground (arith, q, refused) in
            subst (HitOutcome std c) (sym made) (inl (refl, refl))
        | inr open_field ↦ after_reading c (q ∙ ap (λ x. done x) open_field)
      ]
