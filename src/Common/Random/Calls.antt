-- ===== src/Common/Random/Calls.antt =====
-- Gen, in one call or in many.
use ddls.Prelude.{
  ℕ, zero, suc, ◌+◌, ◌-◌, ◌≡◌, ◌≤◌, ◌<◌, refl, sym, ap, ◌∙◌, min, List, [], ◌++◌, Option, none,
  some, false, ◌==◌, ◌>>=◌, drop, append_assoc, append-nil, take-add, drop-add, Bool-cases, inl,
  inr, arith,
}
use ddls.Common.Random.{
  Library, Random, buffer_size, gen_buffer, refill, copied, used, gen_loop, gen,
}

module _ {F E : Type 0} (lib : Library F E) where
  -- The numbers of so many calls that ask for one each.
  pub single_calls : ℕ → Random F E → Option (List F × Random F E)
  single_calls zero r = some ([], r)
  single_calls (suc n) r = do
    (x, r') ← gen lib 1 r
    (xs, r'') ← single_calls n r'
    some (x ++ xs, r'')

  refill-full : (r : Random F E) → 0 < (refill lib r).buffer_remaining
  unfolding refill gen_buffer
  refill-full r = elim (Bool-cases (r.buffer_remaining == 0)) [
    | inl e ↦ rw e (omega arith)
    | inr e ↦ rw e (ground (arith, e))
  ]

  refill-small :
      (r : Random F E)
      → r.buffer_remaining ≤ buffer_size
      → (refill lib r).buffer_remaining ≤ buffer_size
  unfolding refill gen_buffer
  refill-small r h = elim (Bool-cases (r.buffer_remaining == 0)) [
    | inl e ↦ rw e (omega arith)
    | inr e ↦ rw e h
  ]

  refill-rest : (r : Random F E) → 0 < r.buffer_remaining → refill lib r ≡ r
  unfolding refill
  refill-rest r h = let e : (r.buffer_remaining == 0) ≡ false = ground (arith, h) in rw e

  gen_loop-zero : (fuel : ℕ) (r : Random F E) → gen_loop lib fuel 0 r ≡ some ([], r)
  unfolding gen_loop
  gen_loop-zero zero r = refl
  gen_loop-zero (suc fuel) r = refl

  -- One round, where there is something to write.
  round : ℕ → ℕ → Random F E → Option (List F × Random F E)
  round fuel size full =
      let copy_size = min full.buffer_remaining size in
      do
        (rest, r') ← gen_loop lib fuel (size - copy_size) (used lib copy_size full)
        some (copied lib copy_size full ++ rest, r')

  gen_loop-round :
      (fuel size : ℕ) (r : Random F E)
      → 0 < size
      → gen_loop lib (suc fuel) size r ≡ round fuel size (refill lib r)
  unfolding gen_loop round
  gen_loop-round fuel size r h = let e : (size == 0) ≡ false = ground (arith, h) in rw e

  -- More fuel than the numbers that are wanted changes nothing.
  gen_loop-fuel :
      (fuel more size : ℕ) (r : Random F E)
      → size ≤ fuel
      → size ≤ more
      → gen_loop lib fuel size r ≡ gen_loop lib more size r
  unfolding round
  gen_loop-fuel fuel more zero r h k = gen_loop-zero fuel r ∙ sym (gen_loop-zero more r)
  gen_loop-fuel zero more (suc size) r h k = absurd (omega arith)
  gen_loop-fuel (suc fuel) zero (suc size) r h k = absurd (omega arith)
  gen_loop-fuel (suc fuel) (suc more) (suc size) r h k =
      let full = refill lib r in
      let some_left = refill-full r in
      let copy_size = min full.buffer_remaining (suc size) in
      gen_loop-round fuel (suc size) r (omega arith)
      ∙ ap (λ o. o >>= λ p. some (copied lib copy_size full ++ p.0, p.1))
          (gen_loop-fuel fuel more (suc size - copy_size) (used lib copy_size full)
            (omega (arith, some_left)) (omega (arith, some_left)))
      ∙ sym (gen_loop-round more (suc size) r (omega arith))

  -- A call for one number.
  gen-one :
      (r : Random F E) → gen lib 1 r ≡ some (copied lib 1 (refill lib r), used lib 1 (refill lib r))
  unfolding gen round
  gen-one r =
      let full = refill lib r in
      let some_left = refill-full r in
      let one : min full.buffer_remaining 1 ≡ 1 = omega (arith, some_left) in
      gen_loop-round 0 1 r (omega arith)
      ∙ ap
          (λ k. do
            (rest, r') ← gen_loop lib 0 (1 - k) (used lib k full)
            some (copied lib k full ++ rest, r'))
          one
      ∙ rw (gen_loop-zero 0 (used lib 1 full), append-nil (copied lib 1 full)) refl

  copied-more :
      (k : ℕ) (r : Random F E)
      → k < r.buffer_remaining
      → r.buffer_remaining ≤ buffer_size
      → copied lib (suc k) r ≡ copied lib 1 r ++ copied lib k (used lib 1 r)
  unfolding copied used
  copied-more k r h small =
      let at : buffer_size - (r.buffer_remaining - 1) ≡ (buffer_size - r.buffer_remaining) + 1 =
        omega arith in
      let more : suc k ≡ 1 + k = omega arith in
      rw (at, more, drop-add (buffer_size - r.buffer_remaining) 1 r.buffer)
        (sym (take-add 1 k (drop (buffer_size - r.buffer_remaining) r.buffer)))

  -- Numbers written before others.
  abbrev Written : Type 0
  Written = Option (List F × Random F E)

  prefixed : List F → Written → Written
  prefixed xs none = none
  prefixed xs (some (rest, r)) = some (xs ++ rest, r)

  prefixed-bind :
      (xs : List F) (o : Written) → (do (rest, r) ← o; some (xs ++ rest, r)) ≡ prefixed xs o
  unfolding prefixed
  prefixed-bind xs none = refl
  prefixed-bind xs (some (rest, r)) = refl

  prefixed-prefixed :
      (xs ys : List F) (o : Written) → prefixed xs (prefixed ys o) ≡ prefixed (xs ++ ys) o
  unfolding prefixed
  prefixed-prefixed xs ys none = refl
  prefixed-prefixed xs ys (some (rest, r)) = ap (λ l. some (l, r)) (sym (append_assoc xs ys rest))

  round-prefixed :
      (fuel size k : ℕ) (full : Random F E)
      → min full.buffer_remaining size ≡ k
      → round fuel size full
        ≡ prefixed (copied lib k full) (gen_loop lib fuel (size - k) (used lib k full))
  unfolding round
  round-prefixed fuel size k full e =
      prefixed-bind _ _
      ∙ ap (λ c. prefixed (copied lib c full) (gen_loop lib fuel (size - c) (used lib c full))) e

  used-used : (k : ℕ) (r : Random F E) → used lib k (used lib 1 r) ≡ used lib (suc k) r
  unfolding used
  used-used k r =
      ap (λ n. record r { buffer_remaining = n })
        (let e : r.buffer_remaining - 1 - k ≡ r.buffer_remaining - suc k = omega arith in e)

  left-one : (full : Random F E) → (used lib 1 full).buffer_remaining ≡ full.buffer_remaining - 1
  unfolding used
  left-one full = refl

  -- The round that a first call for one number begins.
  round-peel :
      (n : ℕ) (full : Random F E)
      → 0 < full.buffer_remaining
      → full.buffer_remaining ≤ buffer_size
      → round n (suc n) full ≡ prefixed (copied lib 1 full) (gen lib n (used lib 1 full))
  unfolding gen
  round-peel zero full pos small = round-prefixed 0 1 1 full (omega arith)
  round-peel (suc m) full pos small = elim (Bool-cases (full.buffer_remaining == 1)) [
    | inl e ↦
        let one : full.buffer_remaining ≡ 1 = ground (arith, e) in
        let rest : suc (suc m) - 1 ≡ suc m = omega arith in
        round-prefixed (suc m) (suc (suc m)) 1 full (omega (arith, one))
        ∙ ap (λ k. prefixed (copied lib 1 full) (gen_loop lib (suc m) k (used lib 1 full))) rest
    | inr e ↦
        let next = used lib 1 full in
        let left = left-one full in
        let some_left : 1 < full.buffer_remaining = ground (arith, e, pos) in
        let k = min next.buffer_remaining (suc m) in
        let size : suc (suc m) - suc k ≡ suc m - k = omega arith in
        round-prefixed (suc m) (suc (suc m)) (suc k) full (omega (arith, left, some_left))
        ∙ ap
            (λ xs. prefixed xs (gen_loop lib (suc m) (suc (suc m) - suc k) (used lib (suc k) full)))
            (copied-more k full (omega (arith, left, some_left)) small)
        ∙ ap
            (λ n.
              prefixed (copied lib 1 full ++ copied lib k next)
                (gen_loop lib (suc m) n (used lib (suc k) full)))
            size
        ∙ ap
            (λ r.
              prefixed (copied lib 1 full ++ copied lib k next)
                (gen_loop lib (suc m) (suc m - k) r))
            (sym (used-used k full))
        ∙ ap (prefixed (copied lib 1 full ++ copied lib k next)) (
            gen_loop-fuel (suc m) m (suc m - k) (used lib k next) (omega arith)
              (omega (arith, left, some_left)))
        ∙ sym (
            prefixed-prefixed (copied lib 1 full) (copied lib k next)
              (gen_loop lib m (suc m - k) (used lib k next)))
        ∙ ap (prefixed (copied lib 1 full)) (
            sym (
              gen_loop-round m (suc m) next (omega arith)
              ∙ ap (round m (suc m)) (refill-rest next (omega (arith, left, some_left)))
              ∙ round-prefixed m (suc m) k next refl))
  ]

  gen-peel :
      (n : ℕ) (r : Random F E)
      → r.buffer_remaining ≤ buffer_size
      → gen lib (suc n) r
        ≡ prefixed (copied lib 1 (refill lib r)) (gen lib n (used lib 1 (refill lib r)))
  unfolding gen
  gen-peel n r small =
      gen_loop-round n (suc n) r (omega arith)
      ∙ round-peel n (refill lib r) (refill-full r) (refill-small r small)

  used-small :
      (r : Random F E)
      → r.buffer_remaining ≤ buffer_size
      → (used lib 1 r).buffer_remaining ≤ buffer_size
  unfolding used
  used-small r h = omega arith

  -- Where at most 1024 numbers are left in the buffer: a call of Gen for n numbers writes what n calls
  -- for one number each write, and leaves the generator in the same state, and it returns.
  pub gen-single_calls :
      (n : ℕ) (r : Random F E)
      → r.buffer_remaining ≤ buffer_size
      → (gen lib n r ≡ single_calls n r)
        × (xs : List F) × (r' : Random F E) × (gen lib n r ≡ some (xs, r'))
  unfolding single_calls gen prefixed
  gen-single_calls zero r small =
      let none_wanted = gen_loop-zero 0 r in (none_wanted, [], r, none_wanted)
  gen-single_calls (suc n) r small =
      let full = refill lib r in
      let first = copied lib 1 full in
      let next = used lib 1 full in
      let (same, xs, r', e) = gen-single_calls n next (used-small full (refill-small r small)) in
      (
        gen-peel n r small
            ∙ ap (prefixed first) same
            ∙ sym (prefixed-bind first (single_calls n next))
            ∙ sym (
                ap (λ o. do (x, r1) ← o; (ys, r2) ← single_calls n r1; some (x ++ ys, r2))
                  (gen-one r)),
        first ++ xs,
        r',
        gen-peel n r small ∙ ap (prefixed first) e,
      )
