-- ===== src/Common/Allocator/Plain.antt =====
-- The plain Allocator of common/allocator.cc: a count of references for each piece of memory. The use
-- of memory that is not there is `none`.
use ddls.Prelude.{ℕ, ◌+◌, Option, none, some, ◌>>=◌, if◌then◌else◌}
use ddls.Prelude.Int.{ℤ, pos, eqb_ℤ}
use ddls.Common.Allocator.{inc, dec, put}

pub record Allocator : Type 0 where
  pub refs : ℕ → Option ℤ
  pub piece_count : ℕ

unfoldable pub plain_alloc : Allocator → ℕ × Allocator
plain_alloc s = (
  s.piece_count,
  record { refs = put s.refs s.piece_count (some (pos 1)); piece_count = s.piece_count + 1 },
)

unfoldable pub plain_free : ℕ → Allocator → Option Allocator
plain_free a s = do
  ref ← s.refs a
  let left = dec ref
  some (record s { refs = put s.refs a (if eqb_ℤ left (pos 0) then none else some left) })

unfoldable pub plain_refer : ℕ → Allocator → Option Allocator
plain_refer a s = do ref ← s.refs a; some (record s { refs = put s.refs a (some (inc ref)) })
