-- ===== src/KvStore/Memory.antt =====
-- memcpy to and from an array of values, as a function from indices.
use ddls.Prelude.{
  ℕ, zero, suc, ◌+◌, ◌≤◌, ◌<◌, ◌≡◌, refl, ap₂, ◌∙◌, ◌⊎◌, inl, List, [], ◌∷◌, ◌==◌, ==_refl, ==_ne,
  if◌then◌else◌, length, arith,
}

module _ {ℓ} {V : Type ℓ} where
  unfoldable pub write_block : (ℕ → V) → ℕ → List V → ℕ → V
  write_block mem offset [] = mem
  write_block mem offset (v ∷ vs) =
      write_block (λ p. if p == offset then v else mem p) (offset + 1) vs

  unfoldable pub read_block : (ℕ → V) → ℕ → ℕ → List V
  read_block mem offset zero = []
  read_block mem offset (suc n) = mem offset ∷ read_block mem (offset + 1) n

  pub write_block_outside :
      (vs : List V) (mem : ℕ → V) (offset p : ℕ)
      → (p < offset) ⊎ (offset + length vs ≤ p)
      → write_block mem offset vs p ≡ mem p
  unfolding write_block
  write_block_outside [] mem offset p h = refl
  write_block_outside (v ∷ vs) mem offset p h =
      write_block_outside vs _ (offset + 1) p (ground arith) ∙ rw (==_ne p offset (ground arith))

  pub read_block_congr :
      (n : ℕ) (mem mem' : ℕ → V) (offset : ℕ)
      → ((p : ℕ) → offset ≤ p → p < offset + n → mem p ≡ mem' p)
      → read_block mem offset n ≡ read_block mem' offset n
  unfolding read_block
  read_block_congr zero mem mem' offset h = refl
  read_block_congr (suc n) mem mem' offset h =
      ap₂ ◌∷◌ (h offset (omega arith) (omega arith))
        (read_block_congr n mem mem' (offset + 1) (λ p lo hi. h p (omega arith) (omega arith)))

  -- A block that the write does not touch reads as before.
  pub read-write_apart :
      (n : ℕ) (mem : ℕ → V) (from offset : ℕ) (vs : List V)
      → (from + n ≤ offset) ⊎ (offset + length vs ≤ from)
      → read_block (write_block mem offset vs) from n ≡ read_block mem from n
  read-write_apart n mem from offset vs h =
      read_block_congr n _ mem from (λ p lo hi. write_block_outside vs mem offset p (ground arith))

  pub read-write_same :
      (vs : List V) (mem : ℕ → V) (offset : ℕ)
      → read_block (write_block mem offset vs) offset (length vs) ≡ vs
  unfolding read_block write_block
  read-write_same [] mem offset = refl
  read-write_same (v ∷ vs) mem offset =
      ap₂ ◌∷◌
        (write_block_outside vs _ (offset + 1) offset (inl (omega arith)) ∙ rw (==_refl offset))
        (read-write_same vs _ (offset + 1))
