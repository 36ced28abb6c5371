-- ===== src/Common/Configure/Kept.antt =====
-- The arguments that ParseCMDFlags leaves to the program.
use ddls.Prelude.{
  ℕ, ◌+◌, ◌≡◌, refl, ap, ◌∙◌, List, [], ◌∷◌, ◌++◌, none, some, Bool, true, false, ◌&&◌, ◌||◌, not,
  if◌then◌else◌, map, take, drop, length, length-append, All, append_assoc, append-nil, take-append,
  Bool-cases, Option-cases, inl, inr, arith,
}
use ddls.Prelude.Int.{ℤ}
use ddls.Common.Configure.{
  Text, Register, Flags, same_text, has, set_value, set_flag_if_found, holds, find, key_of, dash,
  equals, assign, parse_arg, keep, parse_from, parse_cmd_flags, to_lower, true_text,
}

module _ {ℓ} {V : Type ℓ} where
  has-set_value :
      (key : Text) (value : V) (commands : Register V) (other : Text)
      → has other (set_value key value commands) ≡ has other commands
  unfolding has set_value
  has-set_value key value [] other = refl
  has-set_value key value ((name, old) ∷ commands) other = elim (Bool-cases (same_text name key)) [
    | inl e ↦ rw e refl
    | inr e ↦ rw e (ap (λ b. same_text name other || b) (has-set_value key value commands other))
  ]

  set_flag_if_found-has :
      (key : Text) (value : V) (commands : Register V)
      → has key commands ≡ true
      → set_flag_if_found key value commands ≡ some (set_value key value commands)
  unfolding set_flag_if_found
  set_flag_if_found-has key value commands e = rw e refl

  set_flag_if_found-none :
      (key : Text) (value : V) (commands : Register V)
      → has key commands ≡ false
      → set_flag_if_found key value commands ≡ none
  unfolding set_flag_if_found
  set_flag_if_found-none key value commands e = rw e refl

module _ {D : Type 0} where
  -- Some register has a flag of this name.
  unfoldable pub knows : Flags D → Text → Bool
  knows flags key =
      has key flags.strings
      || (has key flags.ints || (has key flags.doubles || has key flags.bools))

  -- The argument sets a flag.
  unfoldable pub is_flag : Flags D → Text → Bool
  is_flag flags line =
      holds dash line
      && elim (find equals line) [ none ↦ false | some pos ↦ knows flags (key_of line pos) ]

  unfoldable pub unused_args : Flags D → List Text → List Text
  unused_args flags [] = []
  unused_args flags (line ∷ args) =
      if is_flag flags line then unused_args flags args else line ∷ unused_args flags args

  is_flag-same :
      (f g : Flags D) (line : Text)
      → ((key : Text) → knows g key ≡ knows f key)
      → is_flag g line ≡ is_flag f line
  unfolding is_flag
  is_flag-same f g line same = elim (Option-cases (find equals line)) [
    | inl e ↦ rw e refl
    | inr (pos, e) ↦ rw (e, same (key_of line pos)) refl
  ]

  unused_args-same :
      (f g : Flags D) (args : List Text)
      → ((key : Text) → knows g key ≡ knows f key)
      → unused_args g args ≡ unused_args f args
  unfolding unused_args is_flag
  unused_args-same f g [] same = refl
  unused_args-same f g (line ∷ args) same =
      rw (is_flag-same f g line same, unused_args-same f g args same)

holds-none : (c : ℕ) (text : Text) → find c text ≡ none → holds c text ≡ false
unfolding holds
holds-none c text e = rw (holds, e) refl

-- An argument with a dash has an equals sign.
abbrev pub IsArg : Text → Type 0
IsArg line = (not (holds dash line) || holds equals line) ≡ true

module _ {D : Type 0} (atoi : Text → ℤ) (strtod : Text → D) where
  assign-knows :
      (line key value : Text) (f : Flags D)
      → knows f key ≡ true
      → (g : Flags D) × (assign atoi strtod line key value f ≡ some g)
        × ((other : Text) → knows g other ≡ knows f other)
  unfolding knows assign
  assign-knows line key value f h = elim (Bool-cases (has key f.strings)) [
    | inl e ↦ (
      record f { strings = set_value key value f.strings },
      rw (assign, set_flag_if_found-has key value f.strings e) refl,
      λ other.
          ap (λ b. b || (has other f.ints || (has other f.doubles || has other f.bools)))
            (has-set_value key value f.strings other),
    )
    | inr e ↦ elim (Bool-cases (has key f.ints)) [
      | inl i ↦ (
        record f { ints = set_value key (atoi value) f.ints },
        rw
            (
              assign,
              set_flag_if_found-none key value f.strings e,
              set_flag_if_found-has key (atoi value) f.ints i,
            )
            refl,
        λ other.
            ap (λ b. has other f.strings || (b || (has other f.doubles || has other f.bools)))
              (has-set_value key (atoi value) f.ints other),
      )
      | inr i ↦ elim (Bool-cases (has key f.doubles)) [
        | inl d ↦ (
          record f { doubles = set_value key (strtod line) f.doubles },
          rw
              (
                assign,
                set_flag_if_found-none key value f.strings e,
                set_flag_if_found-none key (atoi value) f.ints i,
                set_flag_if_found-has key (strtod line) f.doubles d,
              )
              refl,
          λ other.
              ap (λ b. has other f.strings || (has other f.ints || (b || has other f.bools)))
                (has-set_value key (strtod line) f.doubles other),
        )
        | inr d ↦
            let value' = same_text (map to_lower value) true_text in
            let last : has key f.bools ≡ true = ground (arith, h, e, i, d) in
            (
              record f { bools = set_value key value' f.bools },
              rw
                  (
                    assign,
                    set_flag_if_found-none key value f.strings e,
                    set_flag_if_found-none key (atoi value) f.ints i,
                    set_flag_if_found-none key (strtod line) f.doubles d,
                    set_flag_if_found-has key value' f.bools last,
                  )
                  refl,
              λ other.
                  ap (λ b. has other f.strings || (has other f.ints || (has other f.doubles || b)))
                    (has-set_value key value' f.bools other),
            )
      ]
    ]
  ]

  assign-none :
      (line key value : Text) (f : Flags D)
      → knows f key ≡ false
      → assign atoi strtod line key value f ≡ none
  unfolding knows assign
  assign-none line key value f h =
      let value' = same_text (map to_lower value) true_text in
      let e : has key f.strings ≡ false = ground (arith, h) in
      let i : has key f.ints ≡ false = ground (arith, h) in
      let d : has key f.doubles ≡ false = ground (arith, h) in
      let b : has key f.bools ≡ false = ground (arith, h) in
      rw
        (
          assign,
          set_flag_if_found-none key value f.strings e,
          set_flag_if_found-none key (atoi value) f.ints i,
          set_flag_if_found-none key (strtod line) f.doubles d,
          set_flag_if_found-none key value' f.bools b,
        )
        refl

  -- What an argument does: it sets a flag, and no register gains or loses a name, or nothing.
  parse_arg-flag :
      (line : Text) (f : Flags D)
      → is_flag f line ≡ true
      → (g : Flags D) × (parse_arg atoi strtod line f ≡ some (some g))
        × ((other : Text) → knows g other ≡ knows f other)
  unfolding parse_arg is_flag
  parse_arg-flag line f h =
      let dashed : holds dash line ≡ true = ground (arith, h) in
      elim (Option-cases (find equals line)) [
        | inl e ↦ (let bad = rw (dashed, e) at h in absurd cc)
        | inr (pos, e) ↦
            let known : knows f (key_of line pos) ≡ true = rw (dashed, e) at h in
            let (g, run, same) =
              assign-knows line (key_of line pos) (drop (pos + 1) line) f known in
            (g, rw (dashed, e, run) refl, same)
      ]

  parse_arg-none :
      (line : Text) (f : Flags D)
      → IsArg line
      → is_flag f line ≡ false
      → parse_arg atoi strtod line f ≡ some none
  unfolding parse_arg is_flag
  parse_arg-none line f arg h = elim (Bool-cases (holds dash line)) [
    | inr e ↦ rw e refl
    | inl dashed ↦ elim (Option-cases (find equals line)) [
      | inl e ↦ (let bad = rw (dashed, holds-none equals line e) at arg in absurd cc)
      | inr (pos, e) ↦
          let unknown : knows f (key_of line pos) ≡ false = rw (dashed, e) at h in
          rw (dashed, e, assign-none line (key_of line pos) (drop (pos + 1) line) f unknown) refl
    ]
  ]

  -- The run over the arguments that are left.
  record Parsed (f : Flags D) (kept skipped args : List Text) : Type 0 where
    skipped_after : List Text
    flags_after : Flags D
    run :
        parse_from atoi strtod kept skipped args f
        ≡ some (
          length (kept ++ unused_args f args),
          (kept ++ unused_args f args) ++ skipped_after,
          flags_after,
        )
    all_kept : length skipped_after + length (unused_args f args) ≡ length skipped + length args
    names : (key : Text) → knows flags_after key ≡ knows f key

  length-keep : (skipped : List Text) → length (keep skipped) ≡ length skipped
  unfolding keep
  length-keep [] = refl
  length-keep (first ∷ skipped) = omega (arith, length-append skipped (first ∷ []))

  parse_from-Parsed :
      (f : Flags D) (kept skipped args : List Text) → All IsArg args → Parsed f kept skipped args
  unfolding parse_from unused_args
  parse_from-Parsed f kept skipped [] all = record {
    skipped_after = skipped;
    flags_after = f;
    run = rw (append-nil kept) refl;
    all_kept = omega arith;
    names = λ key. refl;
  }
  parse_from-Parsed f kept skipped (line ∷ args) all = elim (Bool-cases (is_flag f line)) [
    | inl e ↦
        let (g, sets, same) = parse_arg-flag line f e in
        let rest = parse_from-Parsed g kept (skipped ++ line ∷ []) args all.1 in
        let unused = unused_args-same f g args same in
        record {
          skipped_after = rest.skipped_after;
          flags_after = rest.flags_after;
          run =
              rw (sets, e)
                (rest.run
                  ∙ ap
                      (λ u.
                        some
                          (length (kept ++ u), (kept ++ u) ++ rest.skipped_after, rest.flags_after))
                      unused);
          all_kept =
              rw e
                (omega (arith, rest.all_kept, length-append skipped (line ∷ []), ap length unused));
          names = λ key. rest.names key ∙ same key;
        }
    | inr e ↦
        let rest = parse_from-Parsed f (kept ++ line ∷ []) (keep skipped) args all.1 in
        let moved = append_assoc kept (line ∷ []) (unused_args f args) in
        record {
          skipped_after = rest.skipped_after;
          flags_after = rest.flags_after;
          run =
              rw (parse_arg-none line f all.0 e, e)
                (rest.run
                  ∙ ap (λ u. some (length u, u ++ rest.skipped_after, rest.flags_after)) moved);
          all_kept = rw e (omega (arith, rest.all_kept, length-keep skipped));
          names = rest.names;
        }
  ]

  -- Where each argument with a dash has an equals sign, ParseCMDFlags returns; argc is then the number
  -- of the arguments that name no registered flag, argv begins with these, in their order, and has
  -- as many entries as before, and every register has the names it had.
  pub parse_cmd_flags-unused_args :
      (argv : List Text) (flags : Flags D)
      → All IsArg argv
      → (argv' : List Text) × (flags' : Flags D) × (parse_cmd_flags atoi strtod argv flags
          ≡ some (length (unused_args flags argv), argv', flags'))
        × (take (length (unused_args flags argv)) argv' ≡ unused_args flags argv)
        × (length argv' ≡ length argv)
        × ((key : Text) → knows flags' key ≡ knows flags key)
  unfolding parse_cmd_flags
  parse_cmd_flags-unused_args argv flags all =
      let p = parse_from-Parsed flags [] [] argv all in
      let unused = unused_args flags argv in
      (
        unused ++ p.skipped_after,
        p.flags_after,
        p.run,
        take-append unused p.skipped_after,
        omega (arith, p.all_kept, length-append unused p.skipped_after),
        p.names,
      )
