-- ===== src/Scheduler/Sync/Inv.antt =====
-- The invariant of the synchronous scheduler, kept by one answer.
use ddls.Prelude.{
  ℕ, ◌+◌, ◌≤◌, ◌<◌, ◌≡◌, ◌∙◌, inl, inr, List, [], ◌∷◌, true, ◌==◌, arith, ==_refl, ==_ne, length,
  Nat-cases, if◌then◌else◌,
}
use ddls.Message.{Message, reply_get, reply_add}
use ddls.Scheduler.Clock.{VectorClock, local_at, tick, int_max}
use ddls.Scheduler.Clock.Laws.{
  IsBehind, length-tick, local_at-update_self, local_at-update_ne, tick-IsBehind, tick-true,
}
use ddls.Scheduler.Sync.Count.{gets, adds}

module _ {ℓ} {B : Type ℓ} (rank_to_worker_id : ℕ → ℕ) (num_worker : ℕ) where
  -- The promise: when a Get of a worker is answered, every worker has had as many Adds applied as
  -- this one; when an Add of a worker is applied, every worker has had as many Gets answered.
  abbrev pub IsFair : Message B → List (Message B) → Type 0
  IsFair r rs =
      (r.type ≡ reply_get
        → (v : ℕ) → v < num_worker
        → adds rank_to_worker_id (rank_to_worker_id r.dst) rs ≤ adds rank_to_worker_id v rs)
      × (r.type ≡ reply_add
          → (v : ℕ) → v < num_worker
          → gets rank_to_worker_id (rank_to_worker_id r.dst) rs ≤ gets rank_to_worker_id v rs)

  -- Every reply was fair when it was sent; the newest stands first.
  abbrev pub IsSynced : List (Message B) → Type 0
  IsSynced [] = Unit
  IsSynced (r ∷ rs) = IsFair r rs × IsSynced rs

-- A clock of `n` workers stands at the given counts, and the global clock at or below them.
pub record Counts (n : ℕ) (c : VectorClock) (count : ℕ → ℕ) : Type 0 where
  pub size : length c.local_clock ≡ n
  pub behind : (v : ℕ) → v < n → c.global_clock ≤ count v
  pub counted : (v : ℕ) → v < n → local_at c v ≡ count v

pub Counts-congr :
    {n : ℕ} {c : VectorClock} (count count' : ℕ → ℕ)
    → ((v : ℕ) → count' v ≡ count v)
    → Counts n c count
    → Counts n c count'
Counts-congr count count' same k = record {
  size = k.size;
  behind = λ v lt. rw (same v) (k.behind v lt);
  counted = λ v lt. rw (same v) (k.counted v lt);
}

-- All workers stand at the same count.
abbrev pub IsLevel : ℕ → (ℕ → ℕ) → Type 0
IsLevel n count = (u v : ℕ) → u < n → v < n → count u ≤ count v

-- Stepping the clock of `w` keeps up with a count that grows by one at `w` only; where `tick`
-- answers true, the counts are level.
module _ (n w : ℕ) (member : w < n) (c : VectorClock) (count : ℕ → ℕ) (k : Counts n c count)
    (count' : ℕ → ℕ) (grows : (v : ℕ) → count' v ≡ (if w == v then 1 else 0) + count v) where
  clock-IsBehind : IsBehind c
  clock-IsBehind i lt = omega (arith, k.behind i, k.counted i, k.size)

  in_clock : w < length c.local_clock
  in_clock = omega (arith, k.size)

  local_at-count : (v : ℕ) → v < n → local_at (tick c w).0 v ≡ count' v
  local_at-count v lt = elim (Nat-cases w v) [
    | inl e ↦
        rw (← e) (
          ground (arith, local_at-update_self c w in_clock, grows w, k.counted w member, ==_refl w))
    | inr ne ↦
        ground (arith, local_at-update_ne c w in_clock v ne, grows v, k.counted v lt, ==_ne w v ne)
  ]

  pub step-Counts : Counts n (tick c w).0 count'
  step-Counts = record {
    size = length-tick c w ∙ k.size;
    behind = λ v lt.
        rw (← local_at-count v lt)
          (tick-IsBehind c w in_clock clock-IsBehind v (omega (arith, k.size, length-tick c w)));
    counted = local_at-count;
  }

  pub tick-IsLevel : ((v : ℕ) → v < n → count' v < int_max) → (tick c w).1 ≡ true → IsLevel n count'
  tick-IsLevel bounded reached u v u_lt v_lt = ground (
    arith,
    tick-true c w in_clock clock-IsBehind reached u (omega (arith, k.size)),
    tick-true c w in_clock clock-IsBehind reached v (omega (arith, k.size)),
    local_at-count u u_lt,
    local_at-count v v_lt,
    bounded u u_lt,
    bounded v v_lt,
  )
