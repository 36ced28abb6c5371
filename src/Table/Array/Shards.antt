-- ===== src/Table/Array/Shards.antt =====
-- The blocks of the servers: their sizes, and that together they are the array.
use ddls.Prelude.{
  ℕ, zero, suc, ◌+◌, ◌-◌, ◌*◌, ◌/◌, ◌%◌, ◌^◌, ◌≤◌, ◌<◌, ◌≡◌, refl, sym, ap, ap₂, ◌∙◌, inl, inr,
  List, [], ◌∷◌, ◌++◌, some, false, ltb, ◌==◌, get_or, take, drop, map, length, arith, Nat-cases,
  length-take, length-drop, append-nil, check-eq-some, ltb→lt, lt→ltb, of_some, take-append-drop,
  ==_ne,
}
use native.Mathlib.Nat.{div-add-mod, mul-le-mul_right}
use ddls.Table.Array.{
  ArrayWorker, new_worker, to_integer, upto, offset, block_size, shard, server_size,
}

-- The elements of all the lists, in order.
abbrev pub concat {ℓ} : {A : Type ℓ} → List (List A) → List A
concat [] = []
concat (xs ∷ xss) = xs ++ concat xss

module _ {ℓ} {A : Type ℓ} where
  drop-nil : (a : ℕ) → drop {A = A} a [] ≡ []
  drop-nil zero = refl
  drop-nil (suc a) = refl

  drop-drop : (a b : ℕ) (xs : List A) → drop a (drop b xs) ≡ drop (b + a) xs
  drop-drop a zero xs = ap (λ k. drop k xs) (omega arith)
  drop-drop a (suc b) [] = drop-nil a ∙ sym (drop-nil (suc b + a))
  drop-drop a (suc b) (x ∷ xs) =
      let step : suc (b + a) ≡ suc b + a = omega arith in
      drop-drop a b xs ∙ ap (λ k. drop k (x ∷ xs)) step

  take_all : (n : ℕ) (xs : List A) → length xs ≤ n → take n xs ≡ xs
  take_all zero [] h = refl
  take_all (suc n) [] h = refl
  take_all zero (x ∷ xs) h = absurd (omega arith)
  take_all (suc n) (x ∷ xs) h = ap (◌∷◌ x) (take_all n xs (omega arith))

-- The offsets between the first and the last.
middle :
    (l i n j : ℕ) (z : ℕ) → j < n → get_or (map (λ i. i * l) (upto i n) ++ z ∷ []) j 0 ≡ (i + j) * l
middle l i zero j z h = elim h [ ]
middle l i (suc n) zero z h = ap (λ k. k * l) (omega arith)
middle l i (suc n) (suc j) z h =
    middle l (suc i) n j z (omega arith) ∙ ap (λ k. k * l) (omega arith)

last : (l i n : ℕ) (z : ℕ) → get_or (map (λ i. i * l) (upto i n) ++ z ∷ []) n 0 ≡ z
last l i zero z = refl
last l i (suc n) z = last l (suc i) n z

-- The cast keeps a size below 2^31.
to_integer-small : (size : ℕ) → size < 2 ^ 31 → to_integer size ≡ some size
unfolding to_integer
to_integer-small size small =
    let same : size % 2 ^ 32 ≡ size = omega arith in rw (same, lt→ltb size (2 ^ 31) small)

-- A worker that the constructor made for `suc m` servers.
module _ (m size : ℕ) (w : ArrayWorker) (small : size < 2 ^ 31)
    (made : new_worker (suc m) size ≡ some w) where
  abbrev pub width : ℕ
  width = size / suc m

  fields :
      (suc m < size)
      × (record {
        size = size;
        num_server = suc m;
        server_offsets = 0 ∷ (map (λ i. i * width) (upto 1 m) ++ size ∷ []);
      }
          ≡ w)
  unfolding new_worker
  fields =
      let (enough, rest) = check-eq-some (ltb (suc m) size) _ made in
      let e = rw (to_integer-small size small) at rest in
      let one : suc m - 1 ≡ m = omega arith in
      (
        ltb→lt (suc m) size enough,
        ap
              (λ k. record {
                size = size;
                num_server = suc m;
                server_offsets = 0 ∷ (map (λ i. i * width) (upto 1 k) ++ size ∷ []);
              })
              (sym one)
            ∙ of_some e,
      )

  pub size_of : (w.size ≡ size) × (w.num_server ≡ suc m)
  size_of = (sym (ap ArrayWorker.size fields.1), sym (ap ArrayWorker.num_server fields.1))

  pub offset_at : (i : ℕ) → i < suc m → offset w i ≡ i * width
  offset_at zero h = sym (ap (λ w. offset w 0) fields.1) ∙ omega arith
  offset_at (suc i) h =
      sym (ap (λ w. offset w (suc i)) fields.1)
      ∙ middle width 1 m i size (omega arith)
      ∙ ap (λ k. k * width) (omega arith)

  pub offset_end : offset w (suc m) ≡ size
  offset_end = sym (ap (λ w. offset w (suc m)) fields.1) ∙ last width 1 m size

  mul_suc : (i : ℕ) → suc i * width ≡ i * width + width
  mul_suc i = omega arith

  whole : size ≡ m * width + (width + size % suc m)
  whole = omega (arith, div-add-mod size (suc m), mul_suc m)

  up_to_last : (i : ℕ) → i < m → suc i * width ≤ m * width
  up_to_last i h = mul-le-mul_right width (omega arith)

  -- The two ends of each block.
  pub block_at : (i : ℕ) → i < suc m → block_size w i ≡ server_size (suc m) i size
  unfolding server_size
  block_at i h = elim (Nat-cases i m) [
    | inl last_one ↦ ground (arith, offset_at i h, offset_end, last_one, whole)
    | inr before ↦
        ground (arith, offset_at i h, offset_at (suc i) (omega (arith, before)), before, mul_suc i)
  ]

  pub shard_at {ℓ} :
      {T : Type ℓ} (xs : List T) (i : ℕ)
      → i < suc m
      → shard w i xs ≡ take (server_size (suc m) i size) (drop (i * width) xs)
  unfolding shard
  shard_at xs i h = ap₂ (λ a b. take a (drop b xs)) (block_at i h) (offset_at i h)

  pub length-shard {ℓ} :
      {T : Type ℓ} (xs : List T) (i : ℕ)
      → length xs ≡ size
      → i < suc m
      → length (shard w i xs) ≡ server_size (suc m) i size
  unfolding server_size
  length-shard xs i len h =
      ap length (shard_at xs i h) ∙ length-take _ (drop (i * width) xs) ∙ elim (Nat-cases i m) [
        | inl last_one ↦ ground (arith, length-drop (i * width) xs, whole, last_one)
        | inr before ↦ ground (
          arith,
          length-drop (i * width) xs,
          whole,
          before,
          mul_suc i,
          up_to_last i (omega (arith, before)),
        )
      ]

  -- The blocks from block `i` on are the array from its offset on.
  concat_from {ℓ} :
      {T : Type ℓ} (xs : List T) (i k : ℕ)
      → length xs ≡ size
      → i + suc k ≡ suc m
      → concat (map (λ j. shard w j xs) (upto i (suc k))) ≡ drop (i * width) xs
  unfolding server_size
  concat_from xs i zero len h =
      let last_one : i ≡ m = omega arith in
      append-nil _
      ∙ shard_at xs i (omega arith)
      ∙ take_all _ (drop (i * width) xs)
          (ground (arith, length-drop (i * width) xs, whole, ap (λ k. k * width) last_one))
  concat_from xs i (suc k) len h =
      let not_last : (i == m) ≡ false = ==_ne i m (omega arith) in
      let one : suc m - 1 ≡ m = omega arith in
      ap₂ ◌++◌ (shard_at xs i (omega arith)) (concat_from xs (suc i) k len (omega arith))
      ∙ rw (one, not_last, mul_suc i, sym (drop-drop width (i * width) xs))
          (take-append-drop width (drop (i * width) xs))

  pub concat-shard {ℓ} :
      {T : Type ℓ} (xs : List T)
      → length xs ≡ size
      → concat (map (λ j. shard w j xs) (upto 0 (suc m))) ≡ xs
  concat-shard xs len =
      let start : 0 * width ≡ 0 = omega arith in
      concat_from xs 0 m len (omega arith) ∙ ap (λ k. drop k xs) start
