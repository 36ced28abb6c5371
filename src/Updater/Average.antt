-- ===== src/Updater/Average.antt =====
-- A round of the averaging updater.
use ddls.Prelude.{
  ℕ, zero, suc, ◌+◌, ◌≡◌, ◌≢◌, ◌<◌, ◌≤◌, refl, ap, ◌∙◌, List, [], ◌∷◌, ◌++◌, Option, some, ◌>>=◌,
  map, length, take, drop, All, Option-cases, inl, inr, le→leb, ==_ne, ==_refl, arith,
}
use ddls.Updater.{Arithmetic, AvgUpdater, each, zeros, new_avg, avg_update}

module _ {ℓ} {T : Type ℓ} (num : Arithmetic T) where
  -- The sum of the deltas, from a start, in their order.
  abbrev pub sum_from : List T → List (List T) → List T
  sum_from start [] = start
  sum_from start (d ∷ deltas) = sum_from (each num.add start d) deltas

  -- The state and data after the deltas.
  pub avg_all : ℕ → ℕ → List (List T) → AvgUpdater num → List T → Option (List T × AvgUpdater num)
  avg_all num_workers offset [] u data_ = some (data_, u)
  avg_all num_workers offset (d ∷ deltas) u data_ = do
    (data', u') ← avg_update num num_workers offset d u data_
    avg_all num_workers offset deltas u' data'

  zeros-map : (xs : List T) → map (λ x. num.zero_value) xs ≡ zeros num (length xs)
  unfolding zeros
  zeros-map [] = refl
  zeros-map (x ∷ xs) = ap (◌∷◌ num.zero_value) (zeros-map xs)

  length-each : (op : T → T → T) (xs ds : List T) → length (each op xs ds) ≡ length xs
  unfolding each
  length-each op [] ds = refl
  length-each op (x ∷ xs) [] = refl
  length-each op (x ∷ xs) (d ∷ ds) = ap suc (length-each op xs ds)

  length-sum_from :
      (deltas : List (List T)) (start : List T) → length (sum_from start deltas) ≡ length start
  length-sum_from [] start = refl
  length-sum_from (d ∷ deltas) start =
      length-sum_from deltas (each num.add start d) ∙ length-each num.add start d

  length-zeros : (n : ℕ) → length (zeros num n) ≡ n
  unfolding zeros
  length-zeros zero = refl
  length-zeros (suc n) = ap suc (length-zeros n)

  -- Each delta has so many elements.
  abbrev pub SameSize : ℕ → List (List T) → Type 0
  SameSize n deltas = All (λ d. length d ≡ n) deltas

  -- A delta that is not the last is added to the sums.
  avg_update-early :
      (num_workers offset n : ℕ) (d : List T) (u : AvgUpdater num) (data_ : List T)
      → length d ≤ length u.sum
      → u.accu_num + 1 ≢ num_workers
      → avg_update num num_workers offset d u data_
        ≡ some (data_, record { accu_num = u.accu_num + 1; sum = each num.add u.sum d })
  unfolding avg_update
  avg_update-early num_workers offset n d u data_ fits early =
      rw (le→leb (length d) (length u.sum) fits, ==_ne (u.accu_num + 1) num_workers early) refl

  avg_update-last :
      (offset : ℕ) (d : List T) (u : AvgUpdater num) (data_ : List T)
      → length d ≤ length u.sum
      → offset + length d ≤ length data_
      → avg_update num (u.accu_num + 1) offset d u data_
        ≡ some (
          take offset data_
              ++ (map
                    (λ x. num.divide x (num.of_count (u.accu_num + 1)))
                    (take (length d) (each num.add u.sum d))
                  ++ drop (offset + length d) data_),
          record { accu_num = 0; sum = zeros num (length u.sum) },
        )
  unfolding avg_update
  avg_update-last offset d u data_ fits room =
      let zeroed : map (λ x. num.zero_value) (each num.add u.sum d) ≡ zeros num (length u.sum) =
        zeros-map (each num.add u.sum d) ∙ ap (zeros num) (length-each num.add u.sum d) in
      rw
        (
          le→leb (length d) (length u.sum) fits,
          ==_refl (u.accu_num + 1),
          le→leb (offset + length d) (length data_) room,
          zeroed,
        )
        refl

  -- While workers are missing, the data stay.
  avg_all-early :
      (num_workers offset n : ℕ) (deltas : List (List T)) (accu_num : ℕ) (sum data_ : List T)
      → accu_num + length deltas < num_workers
      → SameSize n deltas
      → n ≤ length sum
      → avg_all num_workers offset deltas (record { accu_num = accu_num; sum = sum }) data_
        ≡ some (data_, record { accu_num = accu_num + length deltas; sum = sum_from sum deltas })
  unfolding avg_all
  avg_all-early num_workers offset n [] accu_num sum data_ missing sized fits =
      let none_more : accu_num ≡ accu_num + 0 = omega arith in
      ap (λ k. some (data_, record { accu_num = k; sum = sum })) none_more
  avg_all-early num_workers offset n (d ∷ deltas) accu_num sum data_ missing sized fits =
      let next : accu_num + 1 + length deltas ≡ accu_num + suc (length deltas) = omega arith in
      let step =
        avg_update-early num_workers offset n d (record { accu_num = accu_num; sum = sum }) data_
          (omega (arith, sized.0, fits)) (omega (arith, missing)) in
      rw step (
        avg_all-early num_workers offset n deltas (accu_num + 1) (each num.add sum d) data_
          (omega (arith, missing)) sized.1 (omega (arith, length-each num.add sum d, fits))
        ∙ ap
            (λ k. some (data_, record { accu_num = k; sum = sum_from (each num.add sum d) deltas }))
            next)

  avg_all-append :
      (num_workers offset : ℕ) (deltas : List (List T)) (last : List T) (u : AvgUpdater num)
      (data_ : List T)
      → avg_all num_workers offset (deltas ++ last ∷ []) u data_ ≡ (do
        (data', u') ← avg_all num_workers offset deltas u data_
        avg_update num num_workers offset last u' data')
  unfolding avg_all
  avg_all-append num_workers offset [] last u data_ =
      elim (Option-cases (avg_update num num_workers offset last u data_)) [
        | inl e ↦ rw e refl
        | inr (r, e) ↦ rw e refl
      ]
  avg_all-append num_workers offset (d ∷ deltas) last u data_ =
      elim (Option-cases (avg_update num num_workers offset d u data_)) [
        | inl e ↦ rw e refl
        | inr (r, e) ↦ rw e (avg_all-append num_workers offset deltas last r.1 r.0)
      ]

  sum_from-append :
      (start : List T) (deltas : List (List T)) (last : List T)
      → sum_from start (deltas ++ last ∷ []) ≡ each num.add (sum_from start deltas) last
  sum_from-append start [] last = refl
  sum_from-append start (d ∷ deltas) last = sum_from-append (each num.add start d) deltas last

  -- Where each of the workers sends one delta of n elements, at one offset, to a new averaging updater
  -- that has room for them: the n elements of the data from the offset on become those of the sum of
  -- the deltas, from zeros and in their order, divided by the number of workers, the other elements
  -- stay, and the updater is as new; all deltas but the last leave the data as they are.
  pub avg_all-round :
      (num_workers size offset n : ℕ) (deltas : List (List T)) (last : List T) (data_ : List T)
      → length deltas + 1 ≡ num_workers
      → SameSize n deltas
      → length last ≡ n
      → n ≤ size
      → offset + n ≤ length data_
      → (avg_all num_workers offset (deltas ++ last ∷ []) (new_avg num size) data_
          ≡ some (
            take offset data_
                ++ (map
                      (λ x. num.divide x (num.of_count num_workers))
                      (take n (sum_from (zeros num size) (deltas ++ last ∷ [])))
                    ++ drop (offset + n) data_),
            new_avg num size,
          ))
        × ((u : AvgUpdater num) × (avg_all num_workers offset deltas (new_avg num size) data_
              ≡ some (data_, u)))
  unfolding new_avg
  avg_all-round num_workers size offset n deltas last data_ count sized last_sized fits room =
      let start = zeros num size in
      let wide : n ≤ length start = omega (arith, length-zeros size, fits) in
      let total = sum_from start deltas in
      let early =
        avg_all-early num_workers offset n deltas 0 start data_ (omega (arith, count)) sized wide in
      let total_size : length total ≡ size = length-sum_from deltas start ∙ length-zeros size in
      let u : AvgUpdater num = record { accu_num = 0 + length deltas; sum = total } in
      let count' : 0 + length deltas + 1 ≡ num_workers = omega (arith, count) in
      let final =
        avg_update-last offset last u data_ (omega (arith, last_sized, total_size, fits))
          (omega (arith, last_sized, room)) in
      (
        avg_all-append num_workers offset deltas last (new_avg num size) data_
            ∙ rw (sum_from-append start deltas last, early)
                (rw (count', last_sized, total_size) at final),
        (u, early),
      )
