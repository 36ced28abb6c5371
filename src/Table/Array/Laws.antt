-- ===== src/Table/Array/Laws.antt =====
-- An Add that is cut in blocks and a Get of all blocks act on the array as a whole.
use ddls.Prelude.{
  ℕ, zero, suc, ◌<◌, ◌^◌, ◌≡◌, refl, sym, ap, ◌∙◌, List, [], ◌∷◌, some, true, ◌==◌, ==_refl, take,
  drop, map, length, arith,
}
use ddls.Prelude.Int.{pos}
use ddls.KvStore.Memory.{write_block}
use ddls.Table.Array.{
  ArrayWorker, ArrayServer, new_worker, upto, offset, block_size, shard, server_size, partition,
  process_add, process_get, process_reply_get, Payload, key, values, all_key,
}
use ddls.Table.Array.Shards.{concat, length-shard, concat-shard, size_of, block_at}

-- An updater that works on each element by itself.
abbrev pub zip_with {ℓ} : {T : Type ℓ} → (T → T → T) → List T → List T → List T
zip_with op [] ys = []
zip_with op (x ∷ xs) [] = []
zip_with op (x ∷ xs) (y ∷ ys) = op x y ∷ zip_with op xs ys

module _ {ℓ} {T : Type ℓ} (op : T → T → T) where
  zip_with-drop :
      (n : ℕ) (xs ys : List T) → zip_with op (drop n xs) (drop n ys) ≡ drop n (zip_with op xs ys)
  zip_with-drop zero xs ys = refl
  zip_with-drop (suc n) [] ys = refl
  zip_with-drop (suc n) (x ∷ xs) [] = zip_nil (drop n xs)
    where
      zip_nil : (xs : List T) → zip_with op xs [] ≡ []
      zip_nil [] = refl
      zip_nil (x ∷ xs) = refl
  zip_with-drop (suc n) (x ∷ xs) (y ∷ ys) = zip_with-drop n xs ys

  zip_with-take :
      (n : ℕ) (xs ys : List T) → zip_with op (take n xs) (take n ys) ≡ take n (zip_with op xs ys)
  zip_with-take zero xs ys = refl
  zip_with-take (suc n) [] ys = refl
  zip_with-take (suc n) (x ∷ xs) [] = refl
  zip_with-take (suc n) (x ∷ xs) (y ∷ ys) = ap (◌∷◌ (op x y)) (zip_with-take n xs ys)

  length-zip_with :
      (xs ys : List T) → length xs ≡ length ys → length (zip_with op xs ys) ≡ length xs
  length-zip_with [] ys h = refl
  length-zip_with (x ∷ xs) [] h = absurd (omega arith)
  length-zip_with (x ∷ xs) (y ∷ ys) h = ap suc (length-zip_with xs ys (omega arith))

shard-zip_with {ℓ} :
    {T : Type ℓ} (w : ArrayWorker) (op : T → T → T) (xs ds : List T) (i : ℕ)
    → zip_with op (shard w i xs) (shard w i ds) ≡ shard w i (zip_with op xs ds)
unfolding shard
shard-zip_with w op xs ds i =
    zip_with-take op (block_size w i) (drop (offset w i) xs) (drop (offset w i) ds)
    ∙ ap (take (block_size w i)) (zip_with-drop op (offset w i) xs ds)

-- Server `i` of `suc m`, when the whole array is `xs`.
abbrev pub server_of {ℓ} : {T : Type ℓ} → ℕ → ℕ → ArrayWorker → List T → ℕ → ArrayServer T
server_of m size w xs i = record {
  server_id = i;
  storage = shard w i xs;
  size = server_size (suc m) i size;
}

-- The request for the whole array, and the answer of server `i`.
abbrev whole_table {ℓ} : (T AddOption : Type ℓ) → List (Payload T AddOption)
whole_table T AddOption = key all_key ∷ []

abbrev answer {ℓ} : {T : Type ℓ} (AddOption : Type ℓ) → ℕ → List T → List (Payload T AddOption)
answer AddOption i xs = key (pos i) ∷ values xs ∷ []

module _ {ℓ} {T AddOption : Type ℓ} (m size : ℕ) (w : ArrayWorker) (small : size < 2 ^ 31)
    (made : new_worker (suc m) size ≡ some w) where
  -- For a size below 2^31: each server gets its block of the values, the blocks are all the values, in order, and each has
  -- the size that its server checks.
  pub partition-shard :
      (k : Payload T AddOption) (xs : List T)
      → length xs ≡ size
      → (partition w (k ∷ values xs ∷ [])
          ≡ some (map (λ i. k ∷ values (shard w i xs) ∷ []) (upto 0 (suc m))))
        × (concat (map (λ i. shard w i xs) (upto 0 (suc m))) ≡ xs)
        × ((i : ℕ) → i < suc m → length (shard w i xs) ≡ server_size (suc m) i size)
  unfolding partition
  partition-shard k xs len =
      let (a, b) = size_of m size w small made in
      let fits : (length xs == w.size) ≡ true = rw (len, a) (==_refl size) in
      (
        simp (fits, b),
        concat-shard m size w small made xs len,
        λ i h. length-shard m size w small made xs i len h,
      )

  -- For a size below 2^31 and an updater that works by elements: an Add of each block leaves every server with its block of
  -- the updated array; what the servers then answer to a Get, the worker accepts and writes at the
  -- server's offset; and the blocks together are the updated array.
  pub add_get-shard :
      (op : T → T → T) (default : AddOption) (xs ds : List T)
      → length xs ≡ size
      → length ds ≡ size
      → ((i : ℕ)
          → i < suc m
          → (process_add
                (λ store delta o. zip_with op store delta)
                default
                (key all_key ∷ values (shard w i ds) ∷ [])
                (server_of m size w xs i)
              ≡ some (server_of m size w (zip_with op xs ds) i))
            × (process_get
                  (λ store. store)
                  (whole_table T AddOption)
                  (server_of m size w (zip_with op xs ds) i)
                ≡ some (
                  answer AddOption i (shard w i (zip_with op xs ds)),
                  server_of m size w (zip_with op xs ds) i,
                ))
            × ((data_ : ℕ → T)
                → process_reply_get w (answer AddOption i (shard w i (zip_with op xs ds))) data_
                  ≡ some (write_block data_ (offset w i) (shard w i (zip_with op xs ds)))))
        × (concat (map (λ i. shard w i (zip_with op xs ds)) (upto 0 (suc m))) ≡ zip_with op xs ds)
  unfolding process_add process_get process_reply_get
  add_get-shard op default xs ds len len' =
      let total = length-zip_with op xs ds (len ∙ sym len') ∙ len in
      let fits : (i : ℕ)
          → i < suc m
          → (length (shard w i ds) == server_size (suc m) i size) ≡ true =
        λ i h.
          rw (length-shard m size w small made ds i len' h)
            (==_refl (server_size (suc m) i size)) in
      let accepted : (i : ℕ)
          → i < suc m
          → (length (shard w i (zip_with op xs ds)) == block_size w i) ≡ true =
        λ i h.
          rw
            (
              length-shard m size w small made (zip_with op xs ds) i total h,
              block_at m size w small made i h,
            )
            (==_refl (server_size (suc m) i size)) in
      (
        λ i h. (
          rw (fits i h) (
              ap
                (λ xs.
                  some (record { server_id = i; storage = xs; size = server_size (suc m) i size }))
                (shard-zip_with w op xs ds i)),
          refl,
          λ data_. rw (accepted i h),
        ),
        concat-shard m size w small made (zip_with op xs ds) total,
      )
