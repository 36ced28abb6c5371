-- ===== src/Net/Topology/Pairs.antt =====
-- Every exchange has its other side.
use ddls.Prelude.{
  ℕ, ◌+◌, ◌-◌, ◌*◌, ◌/◌, ◌%◌, ◌<◌, ◌≤◌, ◌≡◌, ◌≢◌, ◌⊎◌, refl, sym, ap, ◌∙◌, inl, inr, true, false,
  ◌==◌, arith, Bool-cases, dec_le, dec_lt,
}
use native.Mathlib.Nat.{
  div-add-mod, mod-lt, add-mod_right, mod-eq_of_lt, add-div_right, div-eq_of_lt, div-mul-le_self,
  lt-div-mul-add, div-div-eq-div-mul, mul-le-mul_right,
}
use ddls.Net.Topology.{in_rank, out_rank, partner, exchange}

-- A remainder below twice the divisor.
wrap : (x n : ℕ) → 0 < n → (x < n → x % n ≡ x) × (n ≤ x → x < n + n → x % n ≡ x - n)
wrap x n pos =
    let whole = div-add-mod x n in
    let below = mod-lt x pos in
    (
      λ lt. mod-eq_of_lt lt,
      λ le lt.
          let split : x ≡ x - n + n = omega arith in
          ap (λ k. k % n) split ∙ add-mod_right (x - n) n ∙ mod-eq_of_lt (omega arith),
    )

out_rank_back : (n d r : ℕ) → r < n → d < n → in_rank n d (out_rank n d r) ≡ r
unfolding in_rank out_rank
out_rank_back n d r lt lt' = elim (dec_le d r) [
  | yes le ↦
      let out : (r + n - d) % n ≡ r - d =
        (wrap (r + n - d) n (omega arith)).1 (omega arith) (omega arith) ∙ omega arith in
      let back : r - d + d ≡ r = omega arith in
      ap (λ o. (o + d) % n) out ∙ ap (λ k. k % n) back ∙ mod-eq_of_lt lt
  | no gt ↦
      let out : (r + n - d) % n ≡ r + n - d = mod-eq_of_lt (omega (arith, gt)) in
      let back : r + n - d + d ≡ r + n = omega arith in
      ap (λ o. (o + d) % n) out ∙ ap (λ k. k % n) back ∙ add-mod_right r n ∙ mod-eq_of_lt lt
]

in_rank_back : (n d r : ℕ) → r < n → d < n → out_rank n d (in_rank n d r) ≡ r
unfolding in_rank out_rank
in_rank_back n d r lt lt' = elim (dec_lt (r + d) n) [
  | yes small ↦
      let into : (r + d) % n ≡ r + d = mod-eq_of_lt small in
      let back : r + d + n - d ≡ r + n = omega arith in
      ap (λ o. (o + n - d) % n) into ∙ ap (λ k. k % n) back ∙ add-mod_right r n ∙ mod-eq_of_lt lt
  | no large ↦
      let into : (r + d) % n ≡ r + d - n =
        (wrap (r + d) n (omega arith)).1 (omega (arith, large)) (omega arith) in
      let back : r + d - n + n - d ≡ r = omega (arith, large) in
      ap (λ o. (o + n - d) % n) into ∙ ap (λ k. k % n) back ∙ mod-eq_of_lt lt
]

-- At each distance of the Bruck algorithm, the machine to which one sends receives from it, and the
-- machine from which one receives sends to it.
pub out_rank-in_rank :
    (num_machines distance rank : ℕ)
    → rank < num_machines
    → distance < num_machines
    → (in_rank num_machines distance (out_rank num_machines distance rank) ≡ rank)
      × (out_rank num_machines distance (in_rank num_machines distance rank) ≡ rank)
out_rank-in_rank n d r lt lt' = (out_rank_back n d r lt lt', in_rank_back n d r lt lt')

partner_back : (d r : ℕ) → 0 < d → partner d (partner d r) ≡ r
unfolding partner
partner_back d r pos = elim (Bool-cases ((r / d) % 2 == 0)) [
  | inl even ↦
      let next = add-div_right r pos in
      let odd : ((r + d) / d % 2 == 0) ≡ false = ground (arith, next, even) in
      rw (even, odd) (omega arith)
  | inr odd ↦ elim (dec_lt r d) [
    | yes small ↦ absurd (ground (arith, odd, div-eq_of_lt small))
    | no large ↦
        let whole : r - d + d ≡ r = omega (arith, large) in
        let next : r / d ≡ (r - d) / d + 1 =
          ap (λ k. k / d) (sym whole) ∙ add-div_right (r - d) pos in
        let even : ((r - d) / d % 2 == 0) ≡ true = ground (arith, next, odd) in rw (odd, even) whole
  ]
]

add-mul : (q w : ℕ) → (q + 1) * w ≡ q * w + w
add-mul q w = grind arith

-- A pair of neighboring blocks is a block of twice the length.
block_pair : (t d : ℕ) → (t * 2 * d ≡ t * (d * 2)) × ((t * 2 + 1) * d ≡ t * (d * 2) + d)
block_pair t d = (grind arith, grind arith)

-- `x` is one of the `len` ranks from `start` on.
abbrev pub Within : ℕ → ℕ → ℕ → Type 0
Within start len x = (start ≤ x) × (x < start + len)

-- The blocks of two partners, as the halves of one.
record Halves (distance rank next : ℕ) : Type 0 where
  pair : ℕ
  whole : rank / (distance * 2) ≡ pair
  own : Within (rank / distance * distance) distance rank
  theirs : Within (next / distance * distance) distance next
  split :
      ((rank / distance * distance ≡ pair * (distance * 2))
        × (next / distance * distance ≡ pair * (distance * 2) + distance))
      ⊎ ((next / distance * distance ≡ pair * (distance * 2))
          × (rank / distance * distance ≡ pair * (distance * 2) + distance))

own_block : (d r : ℕ) → 0 < d → Within (r / d * d) d r
own_block d r pos = (div-mul-le_self r d, lt-div-mul-add pos)

partner-Halves : (d r : ℕ) → 0 < d → Halves d r (partner d r)
unfolding partner
partner-Halves d r pos =
    let t = r / d / 2 in
    let (low, high) = block_pair t d in
    let pair : r / (d * 2) ≡ t = sym (div-div-eq-div-mul r d 2) in
    elim (Bool-cases ((r / d) % 2 == 0)) [
      | inl even ↦
          let first : r / d ≡ t * 2 = ground (arith, even) in
          let second : (r + d) / d ≡ t * 2 + 1 = omega (arith, add-div_right r pos, first) in
          rw even (record {
            pair = t;
            whole = pair;
            own = own_block d r pos;
            theirs = own_block d (r + d) pos;
            split = inl (ap (λ k. k * d) first ∙ low, ap (λ k. k * d) second ∙ high);
          })
      | inr odd ↦
          let second : r / d ≡ t * 2 + 1 = ground (arith, odd) in
          let large : d ≤ r = elim (dec_lt r d) [
            | yes small ↦ absurd (omega (arith, second, div-eq_of_lt small))
            | no large ↦ omega (arith, large)
          ] in
          let back : r - d + d ≡ r = omega (arith, large) in
          let first : (r - d) / d ≡ t * 2 =
            omega (arith, ap (λ k. k / d) back, add-div_right (r - d) pos, second) in
          rw odd (record {
            pair = t;
            whole = pair;
            own = own_block d r pos;
            theirs = own_block d (r - d) pos;
            split = inr (ap (λ k. k * d) first ∙ low, ap (λ k. k * d) second ∙ high);
          })
    ]

-- The block of twice the distance ends within the machines.
whole_block :
    (d groups r : ℕ)
    → 0 < d
    → r < groups * (d * 2)
    → r / (d * 2) * (d * 2) + d * 2 ≤ groups * (d * 2)
whole_block d groups r pos inside =
    let q = r / (d * 2) in
    elim (dec_lt q groups) [
      | yes lt ↦
          let more : (q + 1) * (d * 2) ≤ groups * (d * 2) =
            mul-le-mul_right (d * 2) (omega (arith, lt)) in
          let next : (q + 1) * (d * 2) ≡ q * (d * 2) + d * 2 = add-mul q (d * 2) in
          omega (arith, more, next)
      | no ge ↦
          let less : groups * (d * 2) ≤ q * (d * 2) =
            mul-le-mul_right (d * 2) (omega (arith, ge)) in
          absurd (omega (arith, less, inside, div-mul-le_self r (d * 2)))
    ]

-- In recursive halving, at a distance of which the number of machines is an even multiple: the
-- partner is another machine, its partner is oneself, and each sends the blocks that the other
-- receives. The block that one receives, and goes on with, holds the own rank, and the one that is
-- sent the partner's; the two are the halves of the block of twice the distance with the own rank.
pub partner-exchange :
    (distance groups rank : ℕ)
    → 0 < distance
    → rank < groups * (distance * 2)
    → let e = exchange rank distance in
      let e' = exchange e.rank distance in
      (e.rank < groups * (distance * 2))
      × (e.rank ≢ rank)
      × (e'.rank ≡ rank)
      × ((e.send_block_start ≡ e'.recv_block_start) × (e.send_block_len ≡ e'.recv_block_len))
      × ((e'.send_block_start ≡ e.recv_block_start) × (e'.send_block_len ≡ e.recv_block_len))
      × Within e.recv_block_start e.recv_block_len rank
      × Within e.send_block_start e.send_block_len e.rank
      × (((e.recv_block_start ≡ rank / (distance * 2) * (distance * 2))
            × (e.send_block_start ≡ e.recv_block_start + e.recv_block_len))
          ⊎ ((e.send_block_start ≡ rank / (distance * 2) * (distance * 2))
              × (e.recv_block_start ≡ e.send_block_start + e.send_block_len)))
unfolding exchange
partner-exchange d groups r pos inside =
    let back = partner_back d r pos in
    let h = partner-Halves d r pos in
    let own = h.own in
    let theirs = h.theirs in
    let fits : r / (d * 2) * (d * 2) + d * 2 ≤ groups * (d * 2) =
      whole_block d groups r pos inside in
    let start : r / (d * 2) * (d * 2) ≡ h.pair * (d * 2) = ap (λ k. k * (d * 2)) h.whole in
    (
      elim h.split [
        | inl (a, b) ↦ omega (arith, theirs, fits, start, b)
        | inr (a, b) ↦ omega (arith, theirs, fits, start, a)
      ],
      λ same. elim h.split [
        | inl (a, b) ↦ omega (arith, a, b, pos, ap (λ k. k / d * d) same)
        | inr (a, b) ↦ omega (arith, a, b, pos, ap (λ k. k / d * d) same)
      ],
      back,
      (refl, refl),
      (ap (λ k. (k / d) * d) back, refl),
      own,
      theirs,
      elim h.split [
        | inl (a, b) ↦ inl (omega (arith, a, start), omega (arith, a, b))
        | inr (a, b) ↦ inr (omega (arith, a, start), omega (arith, a, b))
      ],
    )
