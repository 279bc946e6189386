-- ===== src/Source/Info/Short.antt =====
-- What a position message can do besides being collected.
use muondetector_cluster.Prelude.{
  ℕ, ◌≡◌, false, Option, none, some, arith, Text, Option-cases, inl, inr, sym, ◌∙◌,
}
use muondetector_cluster.Prelude.Int.{ℤ, ◌-ℤ◌, ltb_ℤ}
use muondetector_cluster.Prelude.Floats.{Double}
use muondetector_cluster.Event.{user_hash}
use muondetector_cluster.Station.{DetectorInfo}
use muondetector_cluster.Message.{MessageParser, field_at}
use muondetector_cluster.Source.Run.{Run, done, invalid, overflow, fault, field, Numbers}
use muondetector_cluster.Source.Collector.{ItemCollector, ResultCode, epoch, clear_bit}
use muondetector_cluster.Source.Info.{Item, mask, item_name, add_info}
use muondetector_cluster.Source.Run.Yields.{
  returns, throws_invalid, throws_overflow, faults, Run-Cases,
}
use muondetector_cluster.Source.Info.Complete.{item_of-item_name, filled, verdict, add_info-filled}

module _ (std : Numbers) (configured : ℕ) (c : ItemCollector DetectorInfo) where
  -- The collector that knows its sender.
  abbrev signed : ItemCollector DetectorInfo
  signed = record c {
    item = record c.item { hash = user_hash std.hash c.user_info; userinfo = c.user_info };
  }

  -- By what `std::stod` does: the item is collected, the exception caught, or not caught.
  abbrev pub by_conversion : Item → Run Double → Run (ResultCode × ItemCollector DetectorInfo)
  by_conversion i (done x) =
      done (verdict std configured (clear_bit (mask i) c.status), filled std configured i x c)
  by_conversion i invalid = done (ResultCode.error, signed)
  by_conversion i overflow = overflow
  by_conversion i fault = fault

  -- By whether the message has a third field, which is not tested.
  abbrev pub by_field : Item → Option Text → Run (ResultCode × ItemCollector DetectorInfo)
  by_field i none = fault
  by_field i (some value) = by_conversion i (std.stod value)

module _ (std : Numbers) (configured : ℕ) where
  -- A message in time with the name of an item is read behind its fields if nothing stands behind
  -- the name; a number out of range throws an exception that is not caught; what is no number is an
  -- error that changes no item; and a number is collected.
  pub add_info_escapes :
      (now : ℤ) (m : MessageParser) (c : ItemCollector DetectorInfo) (i : Item)
      → ltb_ℤ epoch (now -ℤ c.first_message) ≡ false
      → field_at m 1 ≡ some (item_name i)
      → add_info std configured now m c ≡ by_field std configured c i (field_at m 2)
  add_info_escapes now m c i early q = elim (Option-cases (field_at m 2)) [
    | inl r ↦ unfold add_info field in ground (arith, item_of-item_name i, early, q, r)
    | inr (value, r) ↦ elim (Run-Cases (std.stod value)) [
      | returns x e ↦
          add_info-filled std configured now m c i value x early q r e ∙ sym (ground (arith, r, e))
      | throws_invalid e ↦
          unfold add_info field in ground (arith, item_of-item_name i, early, q, r, e)
      | throws_overflow e ↦
          unfold add_info field in ground (arith, item_of-item_name i, early, q, r, e)
      | faults e ↦ unfold add_info field in ground (arith, item_of-item_name i, early, q, r, e)
    ]
  ]
