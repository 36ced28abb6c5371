-- ===== src/Common/Allocator.antt =====
-- common/allocator.cc: the size classes, the free lists and the counts of references. Each operation
-- of a free list holds its lock. An address of a block is the number of its creation.
pub mod Sizes
mod Tests
pub mod Blocks
pub mod Reach
pub mod Plain
use ddls.Prelude.{
  ℕ, zero, suc, ◌+◌, ◌-◌, ◌%◌, ◌^◌, Option, none, some, Bool, bit_or, shift_right, leb, ◌==◌,
  if◌then◌else◌,
}
use ddls.Prelude.Int.{ℤ, pos, negsuc, eqb_ℤ}

-- size |= size >> s
unfoldable pub smear : ℕ → ℕ → ℕ
smear s size = bit_or size (shift_right size s)

-- The size that SmartAllocator::Alloc looks for, of 64 bits.
unfoldable pub alloc_size : ℕ → ℕ
alloc_size size =
    if leb size 32
    then 32
    else (smear 1 (smear 2 (smear 4 (smear 8 (smear 16 (smear 32 (size - 1)))))) + 1) % 2 ^ 64

-- A MemoryBlock; its header holds the list that it belongs to, which is the one of its size.
pub record Block : Type 0 where
  pub size : ℕ
  pub next : Option ℕ
  pub ref : ℤ

-- `free_` of each FreeList that there is.
pub record SmartAllocator : Type 0 where
  pub blocks : ℕ → Block
  pub block_count : ℕ
  pub pools : ℕ → Option (Option ℕ)

unfoldable pub inc : ℤ → ℤ
inc (pos n) = pos (suc n)
inc (negsuc zero) = pos 0
inc (negsuc (suc n)) = negsuc n

unfoldable pub dec : ℤ → ℤ
dec (pos zero) = negsuc 0
dec (pos (suc n)) = pos n
dec (negsuc n) = negsuc (suc n)

unfoldable pub put {ℓ} : {A : Type ℓ} → (ℕ → A) → ℕ → A → ℕ → A
put f a v x = if x == a then v else f x

unfoldable pub no_block : Block
no_block = record { size = 0; next = none; ref = pos 0 }

unfoldable pub new_allocator : SmartAllocator
new_allocator = record { blocks = λ a. no_block; block_count = 0; pools = λ size. none }

-- `free_ = new MemoryBlock(size_, this)`
unfoldable pub new_block : ℕ → SmartAllocator → SmartAllocator
new_block size s = record {
  blocks = put s.blocks s.block_count (record { size = size; next = none; ref = pos 0 });
  block_count = s.block_count + 1;
  pools = put s.pools size (some (some s.block_count));
}

-- The pool of a size, made when there is none.
unfoldable pub ensure_pool : ℕ → SmartAllocator → SmartAllocator
ensure_pool size s = elim (s.pools size) [ none ↦ new_block size s | some p ↦ s ]

unfoldable pub ensure_free : ℕ → SmartAllocator → SmartAllocator
ensure_free size s = elim (s.pools size) [ some none ↦ new_block size s | _ ↦ s ]

-- FreeList::Pop with MemoryBlock::data, where the list has a block.
unfoldable pub take_free : ℕ → ℕ → SmartAllocator → SmartAllocator
take_free size a s = record s {
  blocks = put s.blocks a (record (s.blocks a) { ref = inc (s.blocks a).ref });
  pools = put s.pools size (some (s.blocks a).next);
}

unfoldable pub pop : ℕ → SmartAllocator → Option (ℕ × SmartAllocator)
pop size s =
    let s' = ensure_free size s in
    elim (s'.pools size) [ some (some a) ↦ some (a, take_free size a s') | _ ↦ none ]

unfoldable pub alloc : ℕ → SmartAllocator → Option (ℕ × SmartAllocator)
alloc size s = pop (alloc_size size) (ensure_pool (alloc_size size) s)

-- FreeList::Push, on the list of the block; there is one, since the block was made for it.
unfoldable pub push : ℕ → SmartAllocator → SmartAllocator
push a s = record s {
  blocks = put s.blocks a (record (s.blocks a) {
    next = elim (s.pools (s.blocks a).size) [ some p ↦ p | none ↦ none ];
  });
  pools = put s.pools (s.blocks a).size (some (some a));
}

-- MemoryBlock::Unlink.
unfoldable pub free : ℕ → SmartAllocator → SmartAllocator
free a s =
    let s' = record s {
      blocks = put s.blocks a (record (s.blocks a) { ref = dec (s.blocks a).ref });
    } in
    if eqb_ℤ (s'.blocks a).ref (pos 0) then push a s' else s'

-- MemoryBlock::Link.
unfoldable pub refer : ℕ → SmartAllocator → SmartAllocator
refer a s = record s {
  blocks = put s.blocks a (record (s.blocks a) { ref = inc (s.blocks a).ref });
}
