-- ===== src/Feeder/Indices.antt =====
-- Num2Indices of feeder/utils.h.
use ddls.Prelude.{
  ℕ, zero, suc, ◌+◌, ◌≡◌, refl, ap, ◌∙◌, List, [], ◌∷◌, ◌++◌, ◌==◌, if◌then◌else◌, length,
  replicate, get_or, length-append, length-replicate, arith, Nat-cases, inl, inr, Bool-cases, ltb,
  ltb_false→le, ◌-◌, ◌%◌, ◌^◌, ◌<◌, sym, Option, some, ◌>>◌, check, ◌&&◌, leb,
}

-- The first loop: a sum of `uint32_t`, which wraps.
unfoldable pub total : List ℕ → ℕ
total [] = 0
total (count ∷ counts) = (count + total counts) % 2 ^ 32

-- The second loop, from row `i` on.
unfoldable pub indices_from : ℕ → List ℕ → List ℕ
indices_from i [] = []
indices_from i (count ∷ counts) = replicate count i ++ indices_from (i + 1) counts

-- A tensor of no elements has no memory, nor has one whose size is no int, and a write behind the
-- elements is a fault: `none`.
unfoldable pub num2indices : List ℕ → Option (List ℕ)
num2indices counts = do
  check (ltb 0 (total counts) && ltb (total counts) (2 ^ 31))
  check (leb (length (indices_from 0 counts)) (total counts))
  some (indices_from 0 counts)

-- All the counts together, whatever the width.
abbrev pub sum : List ℕ → ℕ
sum [] = 0
sum (count ∷ counts) = count + sum counts

total-sum : (counts : List ℕ) → sum counts < 2 ^ 31 → total counts ≡ sum counts
unfolding total
total-sum [] small = refl
total-sum (count ∷ counts) small = omega (arith, total-sum counts (omega arith))

pub occurrences : ℕ → List ℕ → ℕ
occurrences i [] = 0
occurrences i (x ∷ xs) = (if x == i then 1 else 0) + occurrences i xs

occurrences-append :
    (i : ℕ) (xs ys : List ℕ) → occurrences i (xs ++ ys) ≡ occurrences i xs + occurrences i ys
unfolding occurrences
occurrences-append i [] ys = omega arith
occurrences-append i (x ∷ xs) ys = omega (arith, occurrences-append i xs ys)

occurrences-replicate : (n i j : ℕ) → occurrences i (replicate n j) ≡ (if j == i then n else 0)
unfolding occurrences
occurrences-replicate zero i j = ground (arith, Nat-cases i j)
occurrences-replicate (suc n) i j = ground (arith, Nat-cases i j, occurrences-replicate n i j)

-- Row `r` occurs as often as its count says, and a row before `i` does not.
occurrences-indices_from :
    (counts : List ℕ) (i r : ℕ)
    → occurrences r (indices_from i counts) ≡ (if ltb r i then 0 else get_or counts (r - i) 0)
unfolding indices_from occurrences
occurrences-indices_from [] i r = ground arith
occurrences-indices_from (count ∷ counts) i r =
    occurrences-append r (replicate count i) (indices_from (i + 1) counts) ∙ elim (Nat-cases i r) [
      | inl same ↦
          let start : r - i ≡ 0 = omega (arith, same) in
          rw start (
            ground (
              arith,
              same,
              occurrences-replicate count r i,
              occurrences-indices_from counts (i + 1) r,
            ))
      | inr other ↦ elim (Bool-cases (ltb r i)) [
        | inl before ↦ ground (
          arith,
          other,
          before,
          occurrences-replicate count r i,
          occurrences-indices_from counts (i + 1) r,
        )
        | inr after ↦
            let le = ltb_false→le r i after in
            let later : r - i ≡ suc (r - (i + 1)) = omega (arith, other, le) in
            rw later (
              ground (
                arith,
                other,
                after,
                occurrences-replicate count r i,
                occurrences-indices_from counts (i + 1) r,
              ))
      ]
    ]

length-indices_from : (counts : List ℕ) (i : ℕ) → length (indices_from i counts) ≡ sum counts
unfolding indices_from
length-indices_from [] i = refl
length-indices_from (count ∷ counts) i = omega (
  arith,
  length-append (replicate count i) (indices_from (i + 1) counts),
  length-replicate count i,
  length-indices_from counts (i + 1),
)

-- Where there is a row to index and the counts are together below 2^31: a tensor of indices is made,
-- it has as many entries as were allotted for it, which are as many as the counts are together, and
-- it holds each row as often as the tensor of counts says.
pub num2indices-count :
    (counts : List ℕ)
    → 0 < sum counts
    → sum counts < 2 ^ 31
    → (indices : List ℕ) × (num2indices counts ≡ some indices)
      × (length indices ≡ total counts)
      × (total counts ≡ sum counts)
      × ((r : ℕ) → occurrences r indices ≡ get_or counts r 0)
unfolding num2indices
num2indices-count counts pos small =
    let exact = total-sum counts small in
    let full = length-indices_from counts 0 in
    (
      indices_from 0 counts,
      ground (arith, exact, full),
      full ∙ sym exact,
      exact,
      λ r.
          let same : r - 0 ≡ r = omega arith in
          ground (arith, occurrences-indices_from counts 0 r, ap (λ n. get_or counts n 0) same),
    )
