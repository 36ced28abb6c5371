-- ===== src/Common/Configure/Tests.antt =====
-- A command line of an option that is registered, a file name, and an option that is not. The numbers
-- are read as 7 and as the length of the text.
use ddls.Prelude.{ℕ, ◌≡◌, refl, List, [], ◌∷◌, some, take, length, All}
use ddls.Prelude.Int.{ℤ, pos}
use ddls.Common.Configure.{
  Text, Flags, parse_cmd_flags, holds, find, parse_from, parse_arg, assign, keep, key_of,
  set_flag_if_found, set_value, has, same_text,
}
use ddls.Common.Configure.Kept.{knows, unused_args, IsArg, parse_cmd_flags-unused_args}

abbrev seven : Text → ℤ
seven text = pos 7

abbrev text_length : Text → ℕ
text_length text = length text

abbrev flags : Flags ℕ
flags = record {
  strings = [];
  ints = (107 ∷ [], pos 1) ∷ [];
  doubles = (100 ∷ [], 0) ∷ [];
  bools = [];
}

-- "-k=7", "a", "-x=1"
abbrev argv : List Text
argv = (45 ∷ 107 ∷ 61 ∷ 55 ∷ []) ∷ (97 ∷ []) ∷ (45 ∷ 120 ∷ 61 ∷ 49 ∷ []) ∷ []

argv-IsArg : All IsArg argv
unfolding holds find
argv-IsArg = (refl, (refl, (refl, tt)))

parse_cmd_flags-unused_args_example :
    (argv' : List Text) × (flags' : Flags ℕ) × (parse_cmd_flags seven text_length argv flags
      ≡ some (length (unused_args flags argv), argv', flags'))
    × (take (length (unused_args flags argv)) argv' ≡ unused_args flags argv)
    × (length argv' ≡ length argv)
    × ((key : Text) → knows flags' key ≡ knows flags key)
parse_cmd_flags-unused_args_example =
    parse_cmd_flags-unused_args seven text_length argv flags argv-IsArg

-- "-d=12" gives the double flag the number at the start of the whole argument.
double_of_line :
    parse_cmd_flags seven text_length ((45 ∷ 100 ∷ 61 ∷ 49 ∷ 50 ∷ []) ∷ []) flags
    ≡ some (0, (45 ∷ 100 ∷ 61 ∷ 49 ∷ 50 ∷ []) ∷ [], record flags { doubles = (100 ∷ [], 5) ∷ [] })
unfolding parse_cmd_flags holds find parse_from parse_arg assign keep key_of set_flag_if_found
    set_value has same_text
double_of_line = refl
