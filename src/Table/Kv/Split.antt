-- ===== src/Table/Kv/Split.antt =====
-- Each server gets the keys of its remainder, in their order, and their values.
use ddls.Prelude.{
  ℕ, ◌%◌, ◌≡◌, refl, sym, ap, ◌∙◌, List, [], ◌∷◌, ◌++◌, ◌==◌, if◌then◌else◌, take, drop,
  append_assoc, append-nil, Nat-cases, inl, inr, arith, Bool-cases,
}
use ddls.Table.Kv.{Part, put, split}

-- The keys meant for server `j` of `n`.
pub keys_for : ℕ → ℕ → List ℕ → List ℕ
keys_for n j [] = []
keys_for n j (k ∷ keys) = let rest = keys_for n j keys in if k % n == j then k ∷ rest else rest

module _ {ℓ} {V : Type ℓ} where
  -- The keys and the values in the first entry of a server.
  abbrev pub keys_at : List (Part V) → ℕ → List ℕ
  keys_at [] j = []
  keys_at (p ∷ out) j = if p.server == j then p.keys else keys_at out j

  abbrev pub vals_at : List (Part V) → ℕ → List V
  vals_at [] j = []
  vals_at (p ∷ out) j = if p.server == j then p.vals else vals_at out j

  -- The values of those keys.
  pub vals_for : ℕ → ℕ → ℕ → List ℕ → List V → List V
  vals_for n len j [] vals = []
  vals_for n len j (k ∷ keys) vals =
      let rest = vals_for n len j keys (drop len vals) in
      if k % n == j then take len vals ++ rest else rest

  keys-put :
      (dst key : ℕ) (vals : List V) (out : List (Part V)) (j : ℕ)
      → keys_at (put dst key vals out) j
        ≡ (if dst == j then keys_at out j ++ key ∷ [] else keys_at out j)
  unfolding put
  keys-put dst key vals [] j = ground arith
  keys-put dst key vals (p ∷ out) j = ground (
    arith,
    Nat-cases p.server dst,
    Nat-cases p.server j,
    Nat-cases dst j,
    keys-put dst key vals out j,
  )

  vals-put :
      (dst key : ℕ) (vals : List V) (out : List (Part V)) (j : ℕ)
      → vals_at (put dst key vals out) j
        ≡ (if dst == j then vals_at out j ++ vals else vals_at out j)
  unfolding put
  vals-put dst key vals [] j = ground arith
  vals-put dst key vals (p ∷ out) j = ground (
    arith,
    Nat-cases p.server dst,
    Nat-cases p.server j,
    Nat-cases dst j,
    vals-put dst key vals out j,
  )

  -- `Partition` sends to each server the keys with its remainder, in the order of the request and
  -- with none left out, and their values.
  pub split-for :
      (n len j : ℕ) (keys : List ℕ) (vals : List V) (out : List (Part V))
      → (keys_at (split n len keys vals out) j ≡ keys_at out j ++ keys_for n j keys)
        × (vals_at (split n len keys vals out) j ≡ vals_at out j ++ vals_for n len j keys vals)
  unfolding split keys_for vals_for
  split-for n len j [] vals out = (sym (append-nil _), sym (append-nil _))
  split-for n len j (k ∷ keys) vals out =
      let (a, b) = split-for n len j keys (drop len vals) (put (k % n) k (take len vals) out) in
      (
        a
            ∙ ap (λ ks. ks ++ keys_for n j keys) (keys-put (k % n) k (take len vals) out j)
            ∙ elim (Bool-cases (k % n == j)) [
              | inl e ↦ rw e (append_assoc (keys_at out j) (k ∷ []) (keys_for n j keys))
              | inr e ↦ rw e refl
            ],
        b
            ∙ ap (λ vs. vs ++ vals_for n len j keys (drop len vals))
                (vals-put (k % n) k (take len vals) out j)
            ∙ elim (Bool-cases (k % n == j)) [
              | inl e ↦ rw e (append_assoc (vals_at out j) (take len vals) _)
              | inr e ↦ rw e refl
            ],
      )
