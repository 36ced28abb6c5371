-- ===== src/Common/Configure.antt =====
-- common/configure.{h,cc}: the registers of flags and the parsing of the command line. A string is the
-- list of its characters; `atoi` and `strtod` are the C library's.
pub mod Kept
mod Tests
use ddls.Prelude.{
  ℕ, zero, suc, ◌+◌, ◌-◌, List, [], ◌∷◌, ◌++◌, Option, none, some, Bool, true, false, ◌&&◌, ◌||◌,
  ◌==◌, leb, if◌then◌else◌, ◌>>=◌, ◌>>◌, check, map, take, drop, length,
}
use ddls.Prelude.Int.{ℤ}

abbrev pub Text : Type 0
Text = List ℕ

unfoldable pub same_text : Text → Text → Bool
same_text [] [] = true
same_text [] (b ∷ bs) = false
same_text (a ∷ rest) [] = false
same_text (a ∷ rest) (b ∷ bs) = (a == b) && same_text rest bs

-- FlagRegister, by name.
abbrev pub Register {ℓ} : Type ℓ → Type ℓ
Register V = List (Text × V)

module _ {ℓ} {V : Type ℓ} where
  unfoldable pub has : Text → Register V → Bool
  has key [] = false
  has key ((name, value) ∷ commands) = same_text name key || has key commands

  unfoldable pub set_value : Text → V → Register V → Register V
  set_value key value [] = []
  set_value key value ((name, old) ∷ commands) =
      let others = set_value key value commands in
      if same_text name key then (name, value) ∷ commands else (name, old) ∷ others

  -- The register where the flag is found, `none` where it is not.
  unfoldable pub set_flag_if_found : Text → V → Register V → Option (Register V)
  set_flag_if_found key value commands =
      if has key commands then some (set_value key value commands) else none

  unfoldable pub get_value : Text → Register V → Option V
  get_value name [] = none
  get_value name ((key, value) ∷ commands) =
      let other = get_value name commands in if same_text key name then some value else other

  -- `commands[name] = { default_value, text }`
  unfoldable pub register_flag : Text → V → Register V → Register V
  register_flag name value commands =
      if has name commands then set_value name value commands else commands ++ (name, value) ∷ []

  -- SetCMDFlag
  unfoldable pub set_cmd_flag : Text → V → Register V → Option (Register V)
  set_cmd_flag = set_flag_if_found

pub record Flags (D : Type 0) : Type 0 where
  pub strings : Register Text
  pub ints : Register ℤ
  pub doubles : Register D
  pub bools : Register Bool

-- The place of a character, if there is one.
unfoldable pub find : ℕ → Text → Option ℕ
find c [] = none
find c (d ∷ text) = if d == c then some 0 else (do i ← find c text; some (i + 1))

unfoldable pub holds : ℕ → Text → Bool
holds c text = elim (find c text) [ none ↦ false | some i ↦ true ]

-- `line.substr(1, pos - 1)`; at 0 the length wraps around and the rest of the line is taken.
unfoldable pub key_of : Text → ℕ → Text
key_of line zero = drop 1 line
key_of line (suc pos) = take pos (drop 1 line)

unfoldable pub to_lower : ℕ → ℕ
to_lower c = if leb 65 c && leb c 90 then c + 32 else c

abbrev pub true_text : Text
true_text = 116 ∷ 114 ∷ 117 ∷ 101 ∷ []

abbrev pub dash : ℕ
dash = 45

abbrev pub equals : ℕ
equals = 61

-- argv is `kept`, `skipped` and the arguments to come; an argument that sets no flag changes places
-- with the first that was skipped, which then stands behind the others.
unfoldable pub keep : List Text → List Text
keep [] = []
keep (first ∷ skipped) = skipped ++ first ∷ []

module _ {D : Type 0} (atoi : Text → ℤ) (strtod : Text → D) where
  -- The registers in the order of the source; the double is read from the whole line.
  unfoldable pub assign : Text → Text → Text → Flags D → Option (Flags D)
  assign line key value flags = elim (set_flag_if_found key value flags.strings) [
    | some r ↦ some (record flags { strings = r })
    | none ↦ elim (set_flag_if_found key (atoi value) flags.ints) [
      | some r ↦ some (record flags { ints = r })
      | none ↦ elim (set_flag_if_found key (strtod line) flags.doubles) [
        | some r ↦ some (record flags { doubles = r })
        | none ↦
            elim (set_flag_if_found key (same_text (map to_lower value) true_text) flags.bools) [
              | some r ↦ some (record flags { bools = r })
              | none ↦ none
            ]
      ]
    ]
  ]

  -- One argument: the new flags if it sets one, else nothing.
  unfoldable pub parse_arg : Text → Flags D → Option (Option (Flags D))
  parse_arg line flags =
      if holds dash line
      then (do
        pos ← find equals line
        some (assign line (key_of line pos) (drop (pos + 1) line) flags))
      else some none

  unfoldable pub parse_from :
      List Text → List Text → List Text → Flags D → Option (ℕ × List Text × Flags D)
  parse_from kept skipped [] flags = some (length kept, kept ++ skipped, flags)
  parse_from kept skipped (line ∷ args) flags = do
    set ← parse_arg line flags
    elim set [
      | some flags' ↦ parse_from kept (skipped ++ line ∷ []) args flags'
      | none ↦ parse_from (kept ++ line ∷ []) (keep skipped) args flags
    ]

  -- ParseCMDFlags: argc, argv and the flags after it.
  unfoldable pub parse_cmd_flags : List Text → Flags D → Option (ℕ × List Text × Flags D)
  parse_cmd_flags argv flags = parse_from [] [] argv flags
