-- ===== src/Net/Gather/Laws.antt =====
-- Every machine ends with all blocks, in the order of the ranks.
use ddls.Prelude.{
  ℕ, zero, suc, ◌+◌, ◌-◌, ◌%◌, ◌^◌, ◌≤◌, ◌<◌, ◌≡◌, refl, sym, ap, ap₂, ◌∙◌, subst, List, [], ◌++◌,
  some, true, append-nil, ltb, ◌==◌, ==_refl, take, take-short, length, length-append, append_assoc,
  arith, dec_lt, Bool-cases, inl, inr,
}
use native.Mathlib.Nat.{add-mod_right, mod-eq_of_lt, mod-lt}
use ddls.Net.Topology.{bruck_steps, in_rank, out_rank}
use ddls.Net.Topology.Pairs.{out_rank-in_rank}
use ddls.Net.Engine.{accumulated, accumulated-all, rotate_right, rotate_right-append, take_front}
use ddls.Net.Gather.{cur_block_size, len_from, block_start, received, output, allgather}

-- A round of the Bruck map is at a distance below the number of machines.
bruck_steps-lt : (fuel k i n : ℕ) → k ≤ i → i < bruck_steps fuel k n → 2 ^ i < n
unfolding bruck_steps
bruck_steps-lt zero k i n le lt = absurd (omega arith)
bruck_steps-lt (suc fuel) k i n le lt = elim (Bool-cases (ltb (2 ^ k) n)) [
  | inl e ↦ elim (Bool-cases (i == k)) [
    | inl same ↦
        let at : i ≡ k = ground (arith, same) in subst (λ j. 2 ^ j < n) (sym at) (ground (arith, e))
    | inr later ↦ bruck_steps-lt fuel (k + 1) i n (ground (arith, later, le)) (rw e at lt)
  ]
  | inr e ↦ (let bad = rw e at lt in absurd (omega (arith, bad, le)))
]

module _ {ℓ} {A : Type ℓ} (n : ℕ) (block_len : ℕ → ℕ) (input : ℕ → List A) where
  -- The blocks of `count` ranks from one on.
  blocks : ℕ → ℕ → List A
  blocks start zero = []
  blocks start (suc count) = input (start % n) ++ blocks (suc start) count

  -- The blocks of the ranks below one, in order.
  unfoldable pub all_blocks : ℕ → List A
  all_blocks zero = []
  all_blocks (suc rank) = all_blocks rank ++ input rank

  blocks-wrap : (start count : ℕ) → blocks (start + n) count ≡ blocks start count
  unfolding blocks
  blocks-wrap start zero = refl
  blocks-wrap start (suc count) =
      let next : suc (start + n) ≡ suc start + n = omega arith in
      rw next
        (ap₂ (λ x y. x ++ y) (ap input (add-mod_right start n)) (blocks-wrap (suc start) count))

  blocks-add : (start a b : ℕ) → blocks start (a + b) ≡ blocks start a ++ blocks (start + a) b
  unfolding blocks
  blocks-add start zero b =
      let none_before : 0 + b ≡ b = omega arith in
      let here : start + 0 ≡ start = omega arith in rw (none_before, here)
  blocks-add start (suc a) b =
      let count : suc a + b ≡ suc (a + b) = omega arith in
      let place : start + suc a ≡ suc start + a = omega arith in
      rw (count, place)
        (ap (λ l. input (start % n) ++ l) (blocks-add (suc start) a b)
          ∙ sym
              (append_assoc (input (start % n)) (blocks (suc start) a) (blocks (suc start + a) b)))

  module _ (sized : (r : ℕ) → r < n → length (input r) ≡ block_len r) (pos : 0 < n) where
    length-blocks :
        (start count : ℕ) → length (blocks start count) ≡ len_from n block_len start count
    unfolding blocks len_from
    length-blocks start zero = refl
    length-blocks start (suc count) = omega (
      arith,
      length-append (input (start % n)) (blocks (suc start) count),
      sized (start % n) (mod-lt start pos),
      length-blocks (suc start) count,
    )

    -- The blocks from the sender's rank on are those from a distance on.
    blocks-in_rank :
        (d r count : ℕ) → r < n → d < n → blocks (in_rank n d r) count ≡ blocks (r + d) count
    unfolding in_rank
    blocks-in_rank d r count lt lt' = elim (dec_lt (r + d) n) [
      | yes small ↦ ap (λ s. blocks s count) (mod-eq_of_lt small)
      | no large ↦
          let over : r + d ≡ (r + d - n) + n = omega (arith, large) in
          let into : (r + d) % n ≡ r + d - n =
            ap (λ x. x % n) over
            ∙ add-mod_right (r + d - n) n
            ∙ mod-eq_of_lt (omega (arith, large)) in
          ap (λ s. blocks s count) into
          ∙ sym (blocks-wrap (r + d - n) count)
          ∙ ap (λ s. blocks s count) (sym over)
    ]

    in_rank-lt : (d r : ℕ) → in_rank n d r < n
    unfolding in_rank
    in_rank-lt d r = mod-lt (r + d) pos

    accumulated-next :
        (i : ℕ) → accumulated n (suc i) ≡ accumulated n i + cur_block_size n i (accumulated n i)
    unfolding accumulated cur_block_size
    accumulated-next i = refl

    cur-le : (i acc : ℕ) → cur_block_size n i acc ≤ 2 ^ i
    unfolding cur_block_size
    cur-le i acc = ground arith

    received-blocks :
        (i r : ℕ)
        → 2 ^ i < n
        → r < n
        → received n block_len input i r (blocks (in_rank n (2 ^ i) r) (accumulated n i))
          ≡ some (blocks (r + accumulated n i) (cur_block_size n i (accumulated n i)))
    unfolding received
    received-blocks i r round lt =
        let acc = accumulated n i in
        let cur = cur_block_size n i acc in
        let inc = in_rank n (2 ^ i) r in
        let full : acc ≡ 2 ^ i = omega (arith, (accumulated-all n i pos).0, round) in
        let fewer : cur ≤ acc = omega (arith, cur-le i acc, full) in
        let split : acc ≡ cur + (acc - cur) = omega (arith, fewer) in
        let message : take (len_from n block_len inc cur) (blocks inc acc) ≡ blocks (r + acc) cur =
          ap (take (len_from n block_len inc cur))
            (ap (blocks inc) split ∙ blocks-add inc cur (acc - cur))
          ∙ take_front (len_from n block_len inc cur) (blocks inc cur)
              (blocks (inc + cur) (acc - cur)) (length-blocks inc cur)
          ∙ blocks-in_rank (2 ^ i) r cur lt round
          ∙ ap (λ d. blocks (r + d) cur) (sym full) in
        let back : (out_rank n (2 ^ i) inc == r) ≡ true =
          ap (λ k. k == r) (out_rank-in_rank n (2 ^ i) r lt round).1 ∙ ==_refl r in
        let long : (length (blocks (r + acc) cur) == len_from n block_len (r + acc) cur) ≡ true =
          ap (λ k. k == len_from n block_len (r + acc) cur) (length-blocks (r + acc) cur)
          ∙ ==_refl (len_from n block_len (r + acc) cur) in
        rw (message, back, long) refl

    output-blocks :
        (i r : ℕ)
        → i ≤ bruck_steps n 0 n
        → r < n
        → output n block_len input i r ≡ some (blocks r (accumulated n i))
    unfolding output blocks accumulated
    output-blocks zero r le lt = ap some (
        take-short (block_len r) (input r) (omega (arith, sized r lt))
        ∙ sym (ap input (mod-eq_of_lt lt))
        ∙ sym (append-nil (input (r % n))))
    output-blocks (suc i) r le lt =
        let acc = accumulated n i in
        let cur = cur_block_size n i acc in
        let inc = in_rank n (2 ^ i) r in
        let round = bruck_steps-lt n 0 i n (omega arith) le in
        rw
          (
            output-blocks i r (omega arith) lt,
            output-blocks i inc (omega arith) (in_rank-lt (2 ^ i) r),
            received-blocks i r round lt,
          )
          (ap some (sym (ap (blocks r) (accumulated-next i) ∙ blocks-add r acc cur)))

    blocks-all_blocks : (r : ℕ) → r ≤ n → blocks 0 r ≡ all_blocks r
    unfolding blocks all_blocks
    blocks-all_blocks zero le = refl
    blocks-all_blocks (suc r) le =
        let last : suc r ≡ r + 1 = omega arith in
        let here : 0 + r ≡ r = omega arith in
        ap (blocks 0) last
        ∙ blocks-add 0 r 1
        ∙ ap₂ (λ xs s. xs ++ (input (s % n) ++ [])) (blocks-all_blocks r (omega arith)) here
        ∙ ap (λ b. all_blocks r ++ b) (append-nil (input (r % n)) ∙ ap input (mod-eq_of_lt le))

    pub length-all_blocks : (r : ℕ) → r ≤ n → length (all_blocks r) ≡ block_start n block_len r
    unfolding all_blocks block_start
    length-all_blocks zero le = refl
    length-all_blocks (suc r) le = omega (
      arith,
      length-append (all_blocks r) (input r),
      sized r le,
      length-all_blocks r (omega arith),
    )

    -- The blocks from a rank on, all around, are those from it to the last and those before it.
    blocks-around : (r : ℕ) → r < n → blocks r n ≡ blocks r (n - r) ++ all_blocks r
    blocks-around r lt =
        let count : n ≡ (n - r) + r = omega arith in
        let end : r + (n - r) ≡ 0 + n = omega arith in
        ap (blocks r) count
        ∙ blocks-add r (n - r) r
        ∙ ap (λ s. blocks r (n - r) ++ blocks s r) end
        ∙ ap (λ b. blocks r (n - r) ++ b) (blocks-wrap 0 r ∙ blocks-all_blocks r (omega arith))

    blocks-whole : (r : ℕ) → r < n → all_blocks r ++ blocks r (n - r) ≡ all_blocks n
    blocks-whole r lt =
        let count : r + (n - r) ≡ n = omega arith in
        let here : 0 + r ≡ r = omega arith in
        sym (
          sym (blocks-all_blocks n (omega arith))
          ∙ ap (blocks 0) (sym count)
          ∙ blocks-add 0 r (n - r)
          ∙ ap₂ (λ xs s. xs ++ blocks s (n - r)) (blocks-all_blocks r (omega arith)) here)

    -- Where each machine's block has its length: Allgather returns on every machine, each message goes
    -- to the machine that waits for it and has the length that this one waits for, and the output is
    -- the blocks of all machines, in the order of the ranks.
    pub allgather-all_blocks :
        (rank : ℕ) → rank < n → allgather n block_len input rank ≡ some (all_blocks n)
    unfolding allgather
    allgather-all_blocks rank lt =
        let k = bruck_steps n 0 n in
        rw (output-blocks k rank (omega arith) lt, (accumulated-all n k pos).1)
          (ap (λ out. some (rotate_right (block_start n block_len rank) out))
              (blocks-around rank lt)
            ∙ ap some (
                rotate_right-append (block_start n block_len rank) (blocks rank (n - rank))
                  (all_blocks rank) (length-all_blocks rank (omega arith))
                ∙ blocks-whole rank lt))
