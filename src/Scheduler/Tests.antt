-- ===== src/Scheduler/Tests.antt =====
-- Runs of the schedulers on concrete messages, and the theorems at such inputs.
use ddls.Prelude.{
  ℕ, zero, suc, ◌>>=◌, ◌+◌, ◌<◌, ◌≡◌, refl, inl, inr, List, [], ◌∷◌, Option, none, some, arith,
  Bool, ◌≢◌, length, get_or,
}
use ddls.Prelude.Int.{ℤ}
use ddls.Message.{Message, request_get, request_add, create_reply_message}
use ddls.Scheduler.Clock
use ddls.Scheduler.Clock.{
  VectorClock, int_max, local_at, tick, update, min_from, min_element, max_from, max_element,
}
use ddls.Scheduler.Clock.Laws.{update-IsMin, IsBehind}
use ddls.Scheduler.Table
use ddls.Scheduler.Table.{ServerTable}
use ddls.Scheduler.Sync.{
  SyncScheduler, new, is_empty, answer_get, apply_add, drain_gets, drain_adds, unwait, cache_add,
  cache_get, after_add, after_get, process_add, process_get, handle, waited,
}
use ddls.Scheduler.Sync.Inv.{IsSynced}
use ddls.Scheduler.Sync.Promise.{Reach, start, next, Reach-IsSynced, Reach-counts}

-- A table that holds one number.
abbrev counter : ServerTable ℕ
counter = record {
  Store = ℕ;
  process_get = λ keys store. some (store ∷ [], store);
  process_add = λ values store. some (store + get_or values 0 0);
}

abbrev request : ℤ → ℕ → ℕ → Message ℕ
request type src value = record {
  src = src;
  dst = 9;
  type = type;
  table_id = 0;
  msg_id = 0;
  blobs = value ∷ [];
}

abbrev Server : Type 0
Server = SyncScheduler counter (λ r. r)

abbrev or_else : Option Server → Server → Server
or_else none s = s
or_else (some t) s = t

program : Unit {0}
unfolding Clock.new min_from min_element max_from max_element tick update Table.process_get
    Table.process_add create_reply_message new is_empty answer_get apply_add drain_gets drain_adds
    unwait cache_add cache_get after_add after_get process_add process_get handle
program = tt

abbrev s₀ : Server
s₀ = new counter (λ r. r) 2 0

-- Worker 0 adds 5 and asks; the Get waits for the Add of worker 1, and both see the sum.
abbrev s₁ : Server
s₁ = or_else (handle counter (λ r. r) (request request_add 0 5) s₀) s₀

abbrev s₂ : Server
s₂ = or_else (handle counter (λ r. r) (request request_get 0 0) s₁) s₁

abbrev s₃ : Server
s₃ = or_else (handle counter (λ r. r) (request request_add 1 7) s₂) s₂

get_waits : length s₂.msg_get_cache ≡ 1
unfolding program
get_waits = refl

get_answered : s₃.serving.store ≡ 12
unfolding program
get_answered = refl

history : Reach counter (λ r. r) 2 0 s₃
unfolding program
history =
    next (request request_add 1 7)
      (next (request request_get 0 0)
        (next (request request_add 0 5) start (inr (refl, ((λ e. cc), omega arith))) refl)
        (inl (refl, ((λ e. cc), omega arith))) refl)
      (inr (refl, ((λ e. cc), omega arith))) refl

few : length s₃.serving.sent < int_max
unfolding program
few = omega arith

Reach-IsSynced_example : IsSynced (λ r. r) 2 s₃.serving.sent
Reach-IsSynced_example = Reach-IsSynced counter (λ r. r) 2 history few

Reach-counts_example : waited counter (λ r. r) s₃ 1 ≡ 0
unfolding program
Reach-counts_example = (Reach-counts counter (λ r. r) 2 history few 1 (omega arith)).4

abbrev uneven : VectorClock
uneven = record { local_clock = 4 ∷ 2 ∷ 3 ∷ []; global_clock = 2 }

uneven-IsBehind : IsBehind uneven
uneven-IsBehind zero h = omega arith
uneven-IsBehind (suc zero) h = omega arith
uneven-IsBehind (suc (suc zero)) h = omega arith
uneven-IsBehind (suc (suc (suc i))) h = absurd (omega arith)

update-IsMin_example :
    (c' : VectorClock) × (reached : Bool) × (update uneven 1 ≡ some (c', reached))
    × IsBehind c'
    × (local_at c' 1 ≡ 3)
    × ((j : ℕ) → 1 ≢ j → local_at c' j ≡ local_at uneven j)
    × ((m : ℕ) × (m < 3) × (local_at c' m ≡ c'.global_clock))
update-IsMin_example =
    update-IsMin uneven 1 (omega arith) 1 (omega arith) (omega arith) uneven-IsBehind refl

-- Two workers that each make two Gets and one Add, in different orders: worker 0 is ahead by one Get
-- when its Add arrives, worker 1 by one Add when its second Get arrives, and both wait for ever.
abbrev stuck : Option Server
stuck = run s₀ (
    request request_get 0 0
    ∷ request request_get 0 0
    ∷ request request_get 1 0
    ∷ request request_add 1 7
    ∷ request request_get 1 0
    ∷ request request_add 0 5
    ∷ [])
  where
    run : Server → List (Message ℕ) → Option Server
    run s [] = some s
    run s (m ∷ ms) = handle counter (λ r. r) m s >>= λ t. run t ms

abbrev held : Option Server → ℕ × ℕ
held none = (0, 0)
held (some s) = (length s.msg_get_cache, length s.msg_add_cache)

stuck_waits : held stuck ≡ (1, 1)
unfolding program
stuck_waits = refl
