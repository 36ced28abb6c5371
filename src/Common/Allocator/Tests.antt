-- ===== src/Common/Allocator/Tests.antt =====
-- Two requests of one size class, one of which is given back.
use ddls.Prelude.{ℕ, ◌≡◌, ◌^◌, ◌*◌, ◌<◌, ◌≤◌, ◌⊎◌, refl, some, arith, shift_right}
use ddls.Prelude.Int.{pos}
use ddls.Common.Allocator.{
  SmartAllocator, alloc, free, new_allocator, alloc_size, smear, pop, ensure_pool, ensure_free,
  new_block, take_free, put, inc,
}
use ddls.Common.Allocator.Sizes.{alloc_size-pow}
use ddls.Common.Allocator.Reach.{Reach, start, allocs, frees, Allocated, Reach-Allocated}

alloc_size-pow_example :
    (k : ℕ) × (alloc_size 100 ≡ 2 ^ k) × (100 ≤ 2 ^ k) × ((k ≡ 5) ⊎ (2 ^ k < 2 * 100))
alloc_size-pow_example = alloc_size-pow 100 (omega arith)

size_of_100 : alloc_size 100 ≡ 128
unfolding alloc_size smear shift_right
size_of_100 = refl

abbrev taken : SmartAllocator
taken = take_free 128 0 (new_block 128 new_allocator)

taken-Reach : Reach taken
unfolding alloc pop alloc_size ensure_pool ensure_free smear shift_right take_free new_block put
    new_allocator
taken-Reach = allocs 100 0 start refl

taken-ref : (taken.blocks 0).ref ≡ pos 1
unfolding take_free new_block put new_allocator inc
taken-ref = refl

Reach-Allocated_example :
    (b : ℕ) × (t : SmartAllocator) × (alloc 120 (free 0 taken) ≡ some (b, t))
    × Allocated 120 (free 0 taken) b t
Reach-Allocated_example = Reach-Allocated (free 0 taken) 120 (frees 0 0 taken-Reach taken-ref)
