-- ===== src/Common/Dashboard.antt =====
-- common/dashboard.{h,cc}: the monitors by name; each operation holds the lock. A failed CHECK is
-- `none`. Elapsed times are of any type, with the sum of two.
use ddls.Prelude.{ℕ, ◌+◌, [], ◌∷◌, ◌++◌, Option, none, some, ◌>>◌, check, not, if◌then◌else◌}
use ddls.Common.Configure.{Text, Register, has, get_value, same_text}

pub record Monitor (D : Type 0) : Type 0 where
  pub name : Text
  pub elapse : D
  pub count : ℕ

module _ {D : Type 0} where
  unfoldable pub add_monitor :
      Text → Monitor D → Register (Monitor D) → Option (Register (Monitor D))
  add_monitor name monitor record_ =
      check (not (has name record_)) >> some (record_ ++ (name, monitor) ∷ [])

  unfoldable pub erase : Text → Register (Monitor D) → Register (Monitor D)
  erase name [] = []
  erase name ((key, monitor) ∷ record_) =
      let others = erase name record_ in
      if same_text key name then others else (key, monitor) ∷ others

  unfoldable pub remove_monitor : Text → Register (Monitor D) → Option (Register (Monitor D))
  remove_monitor name record_ = check (has name record_) >> some (erase name record_)

  -- The text of the monitor, empty where there is none.
  unfoldable pub watch : (Monitor D → Text) → Text → Register (Monitor D) → Text
  watch info_string name record_ = elim (get_value name record_) [
    | none ↦ []
    | some monitor ↦ info_string monitor
  ]

  -- Monitor::End, with what the timer says.
  unfoldable pub end_monitor : (D → D → D) → D → Monitor D → Monitor D
  end_monitor add elapsed m = record m { elapse = add m.elapse elapsed; count = m.count + 1 }
