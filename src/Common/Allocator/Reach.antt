-- ===== src/Common/Allocator/Reach.antt =====
-- What the smart allocator hands out, after any history of calls.
use ddls.Prelude.{
  ℕ, suc, ◌≡◌, ◌≢◌, refl, sym, ap, subst, ◌∙◌, of_some, Option, none, some, arith, Option-cases,
  Nat-cases, inl, inr,
}
use ddls.Prelude.Int.{ℤ, pos}
use ddls.Common.Allocator.{
  Block, SmartAllocator, inc, new_allocator, new_block, ensure_pool, ensure_free, take_free, pop,
  alloc, alloc_size, free, refer,
}
use ddls.Common.Allocator.Blocks.{
  Inv, put_self, put_ne, new_allocator-Inv, new_block-Inv, take_free-Inv, free-Inv, refer-Inv,
}

abbrev ref_of : SmartAllocator → ℕ → ℤ
ref_of s a = (s.blocks a).ref

-- A valid state with the references of s.
record Same (s t : SmartAllocator) : Type 0 where
  valid : Inv t
  refs : (c : ℕ) → ref_of t c ≡ ref_of s c

new_block-Same : (size : ℕ) (s : SmartAllocator) → Inv s → Same s (new_block size s)
unfolding new_block
new_block-Same size s v =
    let made : Block = record { size = size; next = none; ref = pos 0 } in
    record {
      valid = new_block-Inv size s v;
      refs = λ c. elim (Nat-cases c s.block_count) [
        | inl e ↦
            ap (ref_of (new_block size s)) e
            ∙ ap Block.ref (put_self s.blocks s.block_count made)
            ∙ sym (v.fresh c (omega arith))
        | inr ne ↦ ap Block.ref (put_ne s.blocks s.block_count made c ne)
      ];
    }

new_block-pool :
    (size : ℕ) (s : SmartAllocator) → (new_block size s).pools size ≡ some (some s.block_count)
unfolding new_block
new_block-pool size s = put_self s.pools size (some (some s.block_count))

ensure_pool-Same :
    (size : ℕ) (s : SmartAllocator)
    → Inv s
    → Same s (ensure_pool size s) × (p : Option ℕ) × ((ensure_pool size s).pools size ≡ some p)
unfolding ensure_pool
ensure_pool-Same size s v = elim (Option-cases (s.pools size)) [
  | inl e ↦ rw (ensure_pool, e) (new_block-Same size s v, some s.block_count, new_block-pool size s)
  | inr (p, e) ↦ rw (ensure_pool, e) (record { valid = v; refs = λ c. refl }, p, e)
]

ensure_free-Same :
    (size : ℕ) (s : SmartAllocator) (p : Option ℕ)
    → Inv s
    → s.pools size ≡ some p
    → Same s (ensure_free size s) × (a : ℕ) × ((ensure_free size s).pools size ≡ some (some a))
unfolding ensure_free
ensure_free-Same size s none v e =
    rw (ensure_free, e) (new_block-Same size s v, s.block_count, new_block-pool size s)
ensure_free-Same size s (some a) v e =
    rw (ensure_free, e) (record { valid = v; refs = λ c. refl }, a, e)

-- What an Alloc promises: b was in no use, is of the size asked for and has one reference now, and
-- no other block gains or loses a reference.
pub record Allocated (size : ℕ) (s : SmartAllocator) (b : ℕ) (t : SmartAllocator) : Type 0 where
  was_unused : (s.blocks b).ref ≡ pos 0
  in_use : (t.blocks b).ref ≡ pos 1
  sized : (t.blocks b).size ≡ alloc_size size
  others : (c : ℕ) → c ≢ b → (t.blocks c).ref ≡ (s.blocks c).ref

take_free-Allocated :
    (size : ℕ) (s u : SmartAllocator) (b : ℕ)
    → Same s u
    → u.pools (alloc_size size) ≡ some (some b)
    → Allocated size s b (take_free (alloc_size size) b u) × Inv (take_free (alloc_size size) b u)
unfolding take_free inc
take_free-Allocated size s u b same at =
    let (unused, sized, inv) = take_free-Inv u (alloc_size size) b at same.valid in
    let changed : Block = record (u.blocks b) { ref = inc (u.blocks b).ref } in
    let self = put_self u.blocks b changed in
    (
      record {
        was_unused = sym (same.refs b) ∙ unused;
        in_use = ap Block.ref self ∙ ap inc unused;
        sized = ap Block.size self ∙ sized;
        others = λ c ne. ap Block.ref (put_ne u.blocks b changed c ne) ∙ same.refs c;
      },
      inv,
    )

pop-take_free :
    (size b : ℕ) (s : SmartAllocator)
    → (ensure_free size s).pools size ≡ some (some b)
    → pop size s ≡ some (b, take_free size b (ensure_free size s))
unfolding pop
pop-take_free size b s e = rw (pop, e)

alloc-Allocated :
    (size : ℕ) (s : SmartAllocator)
    → Inv s
    → (b : ℕ) × (t : SmartAllocator) × (alloc size s ≡ some (b, t)) × Allocated size s b t × Inv t
unfolding alloc
alloc-Allocated size s v =
    let (one, p, at) = ensure_pool-Same (alloc_size size) s v in
    let u = ensure_pool (alloc_size size) s in
    let (two, b, head) = ensure_free-Same (alloc_size size) u p one.valid at in
    let same : Same s (ensure_free (alloc_size size) u) = record {
      valid = two.valid;
      refs = λ c. two.refs c ∙ one.refs c;
    } in
    let w = ensure_free (alloc_size size) u in
    let (is, inv) = take_free-Allocated size s w b same head in
    (b, take_free (alloc_size size) b w, pop-take_free (alloc_size size) b u head, is, inv)

-- A history of calls, in which a block is referred to or given back only while it is in use.
pub data Reach : SmartAllocator → Type 0 where
  start : Reach new_allocator
  allocs : {s t : SmartAllocator} (size b : ℕ) → Reach s → alloc size s ≡ some (b, t) → Reach t
  refers :
      {s : SmartAllocator} (a m : ℕ) → Reach s → (s.blocks a).ref ≡ pos (suc m) → Reach (refer a s)
  frees :
      {s : SmartAllocator} (a m : ℕ) → Reach s → (s.blocks a).ref ≡ pos (suc m) → Reach (free a s)

Reach-Inv : {s : SmartAllocator} → Reach s → Inv s
Reach-Inv start = new_allocator-Inv
Reach-Inv (allocs {s} {t} size b r e) =
    let (b', t', e', is, inv) = alloc-Allocated size s (Reach-Inv r) in
    subst (λ w. Inv w) (ap (λ o. o.1) (of_some (sym e' ∙ e))) inv
Reach-Inv (refers {s} a m r e) = refer-Inv s a m e (Reach-Inv r)
Reach-Inv (frees {s} a m r e) = free-Inv s a m e (Reach-Inv r)

-- After any history in which the callers refer to and give back only blocks in use, an Alloc returns
-- a block that was in no use, which is of the size class of the request and has one reference from
-- then on, and the count of references of every other block is as before.
pub Reach-Allocated :
    (s : SmartAllocator) (size : ℕ)
    → Reach s
    → (b : ℕ) × (t : SmartAllocator) × (alloc size s ≡ some (b, t)) × Allocated size s b t
Reach-Allocated s size r =
    let (b, t, e, is, inv) = alloc-Allocated size s (Reach-Inv r) in (b, t, e, is)
