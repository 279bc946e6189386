-- ===== src/Source/Log/Items.antt =====
-- What the collector of a log makes of a message.
use muondetector_cluster.Prelude.{
  ℕ, ◌<◌, ◌≤◌, ◌≡◌, ◌⊎◌, inl, inr, refl, sym, subst, true, false, ◌||◌, not, [], ◌∷◌, ◌++◌, arith,
  Text, ltb, Bool-cases, if-cases, ltb→lt, ap, get_elem?-of_lt, length,
}
use muondetector_cluster.Prelude.Int.{ℤ, ◌-ℤ◌, ltb_ℤ}
use muondetector_cluster.Prelude.Texts.{codes, text_eq}
use muondetector_cluster.Message.{MessageParser, size, is_empty}
use muondetector_cluster.Source.Run.{Run, done, invalid, overflow, fault, ◌>>=◌, field, Numbers}
use muondetector_cluster.Source.Run.Yields.{
  Yields, NoFault, >>=-Yields, field-NoFault, Sound, returns, throws_invalid, throws_overflow,
  faults, Run-Cases,
}
use muondetector_cluster.Source.Collector.{ItemCollector, ResultCode, epoch}
use muondetector_cluster.Source.Info.{to_byte}
use muondetector_cluster.Source.Log.{
  DetectorLog, LogItem, real, byte, short, to_short, is_among, number_names, text_names,
  switch_names, unit_of, open_log, read_item, append_item, add_log, emplace_item,
}

-- What may come of a message: the log is committed as it is, if it has items and its time is over;
-- or, in its time, the message is refused and no item lost, or one item is appended.
abbrev pub LogOutcome :
    ℤ → ItemCollector DetectorLog → Run (ResultCode × ItemCollector DetectorLog) → Type 0
LogOutcome now c (done (code, c')) =
    ((code ≡ ResultCode.commit)
      × (c' ≡ c)
      × (is_empty c.item.items ≡ false)
      × (ltb_ℤ epoch (now -ℤ c.first_message) ≡ true))
    ⊎ ((is_empty c.item.items || not (ltb_ℤ epoch (now -ℤ c.first_message))) ≡ true)
      × (((code ≡ ResultCode.error) × (c'.item.items ≡ c.item.items))
          ⊎ (it : LogItem) × (code ≡ ResultCode.aggregating)
            × (c'.item.items ≡ c.item.items ++ it ∷ []))
LogOutcome now c invalid = ⊥
LogOutcome now c overflow = Unit
LogOutcome now c fault = ⊥

module _ (std : Numbers) (sound : Sound std) (message : MessageParser)
    (long : 3 ≤ size message) where
  field_in : (i : ℕ) → i < 3 → NoFault (field message i)
  field_in i h = field-NoFault message i (omega (arith, h, long))

  unit_of-done : (unit : Text) × (unit_of message ≡ done unit)
  unfolding unit_of field size
  unit_of-done = elim (Bool-cases (ltb 3 (size message))) [
    | inl b ↦
        let (t, q) = get_elem?-of_lt message.fields 3 (ltb→lt 3 (length message.fields) b) in
        (t, ground (arith, q, b))
    | inr b ↦ ([], ground (arith, b))
  ]

  -- A value that is read from the third field.
  value-NoFault :
      {B : Type 0} (read : Text → Run B) (make : B → LogItem)
      → ((t : Text) → NoFault (read t))
      → NoFault (do value ← field message 2; x ← read value; done (make x))
  value-NoFault read make h =
      let P : LogItem → Type 0 = λ a. Unit {0} in
      >>=-Yields P (field message 2) _ (field_in 2 (omega arith))
        λ value. >>=-Yields P (read value) _ (h value) λ x. tt

  read_item-NoFault : (unit : Text) → NoFault (read_item std message unit)
  unfolding read_item
  read_item-NoFault unit =
      let P : LogItem → Type 0 = λ a. Unit {0} in
      >>=-Yields P (field message 1) _ (field_in 1 (omega arith)) λ name.
        if-cases (Yields P) (is_among number_names name) _ _
          (λ b.
            value-NoFault std.stod (λ x. record { name = name; value = real x; unit = unit })
              sound.stod_sound)
          λ b.
            if-cases (Yields P) (is_among text_names name) _ _
              (λ b. >>=-Yields P (field message 2) _ (field_in 2 (omega arith)) λ value. tt)
              λ b.
                if-cases (Yields P) (is_among switch_names name) _ _
                  (λ b.
                    value-NoFault std.stoi
                      (λ k. record { name = name; value = byte (to_byte k); unit = unit })
                      sound.stoi_sound)
                  λ b.
                    if-cases (Yields P) (text_eq name (codes "systemNrCPUs")) _ _
                      (λ b.
                        value-NoFault std.stoi
                          (λ k. record { name = name; value = short (to_short k); unit = unit })
                          sound.stoi_sound)
                      λ b. tt

  appends :
      (now : ℤ) (c d : ItemCollector DetectorLog)
      → d.item.items ≡ c.item.items
      → (is_empty c.item.items || not (ltb_ℤ epoch (now -ℤ c.first_message))) ≡ true
      → LogOutcome now c (append_item std message d)
  appends now c d same early =
      let (unit, q) = unit_of-done in
      elim (Run-Cases (read_item std message unit)) [
        | returns it r ↦
            let made : append_item std message d
                ≡ done (ResultCode.aggregating, record d { item = emplace_item d.item it }) =
              unfold append_item in ground (arith, q, r) in
            subst (LogOutcome now c) (sym made)
              (inr (early, inr (it, refl, unfold emplace_item in ap (λ xs. xs ++ it ∷ []) same)))
        | throws_invalid r ↦
            let made : append_item std message d ≡ done (ResultCode.error, d) =
              unfold append_item in ground (arith, q, r) in
            subst (LogOutcome now c) (sym made) (inr (early, inl (refl, same)))
        | throws_overflow r ↦
            let made : append_item std message d ≡ overflow =
              unfold append_item in ground (arith, q, r) in
            subst (LogOutcome now c) (sym made) tt
        | faults r ↦ absurd (subst NoFault r (read_item-NoFault unit))
      ]

  -- A message with three fields or more, of any content, either is refused or appends one item, and
  -- leaves the others as they are; a log that has items is committed, unchanged, as soon as a
  -- message comes after its time, and never before. A field that is not there is not read, and of
  -- the exceptions only that of a number out of range escapes.
  pub add_log_lem :
      (now : ℤ) (c : ItemCollector DetectorLog) → LogOutcome now c (add_log std now message c)
  add_log_lem now c = elim (Bool-cases (is_empty c.item.items)) [
    | inl e ↦
        let some_field : 0 < length message.fields = unfold size in omega (arith, long) in
        let (id, q) = get_elem?-of_lt message.fields 0 some_field in
        let opened = record c { item = record c.item { log_id = id; userinfo = c.user_info } } in
        let made : add_log std now message c ≡ append_item std message opened =
          unfold add_log open_log field size in ground (arith, e, q) in
        subst (LogOutcome now c) (sym made) (appends now c opened refl (ground (arith, e)))
    | inr e ↦ elim (Bool-cases (ltb_ℤ epoch (now -ℤ c.first_message))) [
      | inl late ↦
          let made : add_log std now message c ≡ done (ResultCode.commit, c) =
            unfold add_log open_log in ground (arith, e, late) in
          subst (LogOutcome now c) (sym made) (inl (refl, refl, e, late))
      | inr early ↦
          let made : add_log std now message c ≡ append_item std message c =
            unfold add_log open_log in ground (arith, e, early) in
          subst (LogOutcome now c) (sym made) (appends now c c refl (ground (arith, early)))
    ]
  ]
