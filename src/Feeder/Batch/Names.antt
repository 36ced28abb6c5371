-- ===== src/Feeder/Batch/Names.antt =====
-- A batch finds what was inserted, and keeps the rest.
use ddls.Prelude.{
  ℕ, zero, suc, ◌+◌, ◌<◌, ◌≡◌, ◌≢◌, refl, sym, ap, ap₂, ◌∙◌, List, [], ◌∷◌, ◌++◌, none, some,
  of_some, true, false, ==_refl, ltb, if◌then◌else◌, length, length-append, get_or, arith,
  Bool-cases, Option-cases, inl, inr,
}
use ddls.Common.Configure.{Text, Register, same_text, has, set_value, get_value, register_flag}
use ddls.Feeder.Batch.{Batch, get, get_at, insert}

same_text_refl : (a : Text) → same_text a a ≡ true
unfolding same_text
same_text_refl [] = refl
same_text_refl (c ∷ a) = rw (==_refl c) (same_text_refl a)

same_text-eq : (a b : Text) → same_text a b ≡ true → a ≡ b
unfolding same_text
same_text-eq [] [] h = refl
same_text-eq [] (d ∷ b) h = cc
same_text-eq (c ∷ a) [] h = cc
same_text-eq (c ∷ a) (d ∷ b) h =
    let head : c ≡ d = ground (arith, h) in
    let tail : same_text a b ≡ true = ground (arith, h) in
    ap₂ (λ x xs. x ∷ xs) head (same_text-eq a b tail)

module _ {ℓ} {V : Type ℓ} where
  get_value-set_value :
      (key : Text) (v : V) (r : Register V)
      → has key r ≡ true
      → get_value key (set_value key v r) ≡ some v
  unfolding get_value set_value has
  get_value-set_value key v [] h = cc
  get_value-set_value key v ((name, old) ∷ r) h = elim (Bool-cases (same_text name key)) [
    | inl e ↦ rw (e, e) refl
    | inr e ↦
        let there : has key r ≡ true = rw e at h in rw (e, e) (get_value-set_value key v r there)
  ]

  get_value-set_value_ne :
      (key other : Text) (v : V) (r : Register V)
      → same_text key other ≡ false
      → get_value other (set_value key v r) ≡ get_value other r
  unfolding get_value set_value
  get_value-set_value_ne key other v [] h = refl
  get_value-set_value_ne key other v ((name, old) ∷ r) h = elim (Bool-cases (same_text name key)) [
    | inl e ↦
        let apart : same_text name other ≡ false =
          ap (λ n. same_text n other) (same_text-eq name key e) ∙ h in
        rw (e, apart) refl
    | inr e ↦ rw e (
        ap (λ g. if same_text name other then some old else g)
          (get_value-set_value_ne key other v r h))
  ]

  get_value-append :
      (key : Text) (v : V) (r : Register V)
      → has key r ≡ false
      → get_value key (r ++ (key, v) ∷ []) ≡ some v
  unfolding get_value has
  get_value-append key v [] h = rw (same_text_refl key) refl
  get_value-append key v ((name, old) ∷ r) h =
      let e : same_text name key ≡ false = ground (arith, h) in
      let rest : has key r ≡ false = ground (arith, h) in rw e (get_value-append key v r rest)

  get_value-append_ne :
      (key other : Text) (v : V) (r : Register V)
      → same_text key other ≡ false
      → get_value other (r ++ (key, v) ∷ []) ≡ get_value other r
  unfolding get_value
  get_value-append_ne key other v [] h = rw h refl
  get_value-append_ne key other v ((name, old) ∷ r) h =
      ap (λ g. if same_text name other then some old else g) (get_value-append_ne key other v r h)

  get_value-register_flag :
      (key : Text) (v : V) (r : Register V) → get_value key (register_flag key v r) ≡ some v
  unfolding register_flag
  get_value-register_flag key v r = elim (Bool-cases (has key r)) [
    | inl e ↦ rw (register_flag, e) (get_value-set_value key v r e)
    | inr e ↦ rw (register_flag, e) (get_value-append key v r e)
  ]

  get_value-register_flag_ne :
      (key other : Text) (v : V) (r : Register V)
      → same_text key other ≡ false
      → get_value other (register_flag key v r) ≡ get_value other r
  unfolding register_flag
  get_value-register_flag_ne key other v r h = elim (Bool-cases (has key r)) [
    | inl e ↦ rw (register_flag, e) (get_value-set_value_ne key other v r h)
    | inr e ↦ rw (register_flag, e) (get_value-append_ne key other v r h)
  ]

module _ {ℓ} {A : Type ℓ} where
  get_or-last : (xs : List A) (a d : A) → get_or (xs ++ a ∷ []) (length xs) d ≡ a
  get_or-last [] a d = refl
  get_or-last (x ∷ xs) a d = get_or-last xs a d

  get_or-front :
      (xs ys : List A) (i : ℕ) (d : A) → i < length xs → get_or (xs ++ ys) i d ≡ get_or xs i d
  get_or-front [] ys i d h = absurd (omega arith)
  get_or-front (x ∷ xs) ys zero d h = refl
  get_or-front (x ∷ xs) ys (suc i) d h = get_or-front xs ys i d (omega arith)

module _ {ℓ} {T : Type ℓ} where
  -- Every name leads to a place of the batch.
  abbrev pub IsValid : Batch T → Type 0
  IsValid b = (key : Text) (i : ℕ) → get_value key b.index ≡ some i → i < length b.tensors

  get-found :
      (key : Text) (b : Batch T) (i : ℕ)
      → get_value key b.index ≡ some i
      → i < length b.tensors
      → get key b ≡ some (get_or b.tensors i none)
  unfolding get get_at
  get-found key b i e lt =
      let room : ltb i (length b.tensors) ≡ true = ground (arith, lt) in rw (get, e, room) refl

  get-missing : (key : Text) (b : Batch T) → get_value key b.index ≡ none → get key b ≡ some none
  unfolding get
  get-missing key b e = rw (get, e) refl

  -- Insert into a batch in which every name leads to a place: the name leads to the new tensor, every
  -- other name to what it led to before, or to nothing as before, and again every name to a place.
  pub get-insert :
      (name : Text) (tensor : T) (b : Batch T)
      → IsValid b
      → (get name (insert name tensor b) ≡ some (some tensor))
        × ((other : Text) → name ≢ other → get other (insert name tensor b) ≡ get other b)
        × IsValid (insert name tensor b)
  unfolding insert
  get-insert name tensor b valid =
      let b' = insert name tensor b in
      let count = length b.tensors in
      let long : length b'.tensors ≡ count + 1 = length-append b.tensors (some tensor ∷ []) in
      let found = get_value-register_flag name count b.index in
      (
        get-found name b' count found (omega (arith, long))
            ∙ ap some (get_or-last b.tensors (some tensor) none),
        λ other ne.
            let apart : same_text name other ≡ false = elim (Bool-cases (same_text name other)) [
              | inl e ↦ absurd (ne (same_text-eq name other e))
              | inr e ↦ e
            ] in
            let kept = get_value-register_flag_ne name other count b.index apart in
            elim (Option-cases (get_value other b.index)) [
              | inl e ↦ get-missing other b' (kept ∙ e) ∙ sym (get-missing other b e)
              | inr (i, e) ↦
                  let lt = valid other i e in
                  get-found other b' i (kept ∙ e) (omega (arith, long, lt))
                  ∙ ap some (get_or-front b.tensors (some tensor ∷ []) i none lt)
                  ∙ sym (get-found other b i e lt)
            ],
        λ key i e. elim (Bool-cases (same_text name key)) [
          | inl same ↦
              let at : count ≡ i =
                of_some
                  (sym found ∙ ap (λ k. get_value k b'.index) (same_text-eq name key same) ∙ e) in
              omega (arith, long, at)
          | inr apart ↦
              let lt =
                valid key i (sym (get_value-register_flag_ne name key count b.index apart) ∙ e) in
              omega (arith, long, lt)
        ],
      )
