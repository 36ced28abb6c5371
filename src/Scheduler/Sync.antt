-- ===== src/Scheduler/Sync.antt =====
-- frame/scheduler/sync_scheduler.cc: the scheduler that keeps the workers in step. One server thread
-- (the default of `server_thread_num`) handles one message at a time.
pub mod Count
pub mod Inv
pub mod Answers
pub mod Growth
pub mod Drain
pub mod Step
pub mod Promise
use ddls.Prelude.{
  ℕ, ◌+◌, ◌-◌, List, [], ◌∷◌, ◌++◌, Option, none, some, ◌>>=◌, ◌>>◌, check, Bool, true, false, ◌||◌,
  not, ltb, if◌then◌else◌, get_or, set, replicate,
}
use ddls.Prelude.Int.{ℤ, eqb_ℤ}
use ddls.Message.{Message, request_get, request_add, server_finish_train}
use ddls.Scheduler.Clock
use ddls.Scheduler.Clock.{VectorClock, local_at, update, finish_train}
use ddls.Scheduler.Table.{ServerTable, Serving}
use ddls.Scheduler.Table

unfoldable pub is_empty {ℓ} : {A : Type ℓ} → List A → Bool
is_empty [] = true
is_empty (x ∷ xs) = false

-- `rank_to_worker_id` is the node table of the Zoo.
module _ {ℓ} {B : Type ℓ} (table : ServerTable B) (rank_to_worker_id : ℕ → ℕ) where
  pub record SyncScheduler : Type ℓ where
    pub serving : Serving table
    pub worker_get_clocks : VectorClock
    pub worker_add_clocks : VectorClock
    pub num_waited_add : List ℕ
    pub msg_add_cache : List (Message B)
    pub msg_get_cache : List (Message B)

  abbrev pub worker_of : Message B → ℕ
  worker_of m = rank_to_worker_id m.src

  unfoldable pub new : ℕ → table.Store → SyncScheduler
  new num_worker store = record {
    serving = record { store = store; sent = [] };
    worker_get_clocks = Clock.new num_worker;
    worker_add_clocks = Clock.new num_worker;
    num_waited_add = replicate num_worker 0;
    msg_add_cache = [];
    msg_get_cache = [];
  }

  abbrev pub waited : SyncScheduler → ℕ → ℕ
  waited s w = get_or s.num_waited_add w 0

  -- `Scheduler::ProcessGet(msg)` and the step of the get clock; the flag is `Update`'s.
  unfoldable pub answer_get : Message B → SyncScheduler → Option (SyncScheduler × Bool)
  answer_get m s = do
    serving ← Table.process_get table m s.serving
    ticked ← update s.worker_get_clocks (worker_of m)
    some (record s { serving = serving; worker_get_clocks = ticked.0 }, ticked.1)

  unfoldable pub apply_add : Message B → SyncScheduler → Option (SyncScheduler × Bool)
  apply_add m s = do
    serving ← Table.process_add table m s.serving
    ticked ← update s.worker_add_clocks (worker_of m)
    some (record s { serving = serving; worker_add_clocks = ticked.0 }, ticked.1)

  -- while (!msg_get_cache_.Empty()), over the messages that are still cached.
  unfoldable pub drain_gets : List (Message B) → SyncScheduler → Option SyncScheduler
  drain_gets [] s = some (record s { msg_get_cache = [] })
  drain_gets (m ∷ ms) s = do (s', reached) ← answer_get m s; check (not reached); drain_gets ms s'

  -- --num_waited_add_[worker]
  unfoldable pub unwait : ℕ → SyncScheduler → SyncScheduler
  unwait w s = record s { num_waited_add = set s.num_waited_add w (waited s w - 1) }

  unfoldable pub drain_adds : List (Message B) → SyncScheduler → Option SyncScheduler
  drain_adds [] s = some (record s { msg_add_cache = [] })
  drain_adds (m ∷ ms) s = do
    (s', reached) ← apply_add m s
    check (not reached)
    drain_adds ms (unwait (worker_of m) s')

  unfoldable pub cache_add : Message B → SyncScheduler → SyncScheduler
  cache_add m s = record s {
    msg_add_cache = s.msg_add_cache ++ m ∷ [];
    num_waited_add = set s.num_waited_add (worker_of m) (waited s (worker_of m) + 1);
  }

  unfoldable pub cache_get : Message B → SyncScheduler → SyncScheduler
  cache_get m s = record s { msg_get_cache = s.msg_get_cache ++ m ∷ [] }

  -- After `Update` reached a common clock.
  unfoldable pub after_add : SyncScheduler × Bool → Option SyncScheduler
  after_add (s, false) = some s
  after_add (s, true) = do check (is_empty s.msg_add_cache); drain_gets s.msg_get_cache s

  unfoldable pub after_get : SyncScheduler × Bool → Option SyncScheduler
  after_get (s, false) = some s
  after_get (s, true) = drain_adds s.msg_add_cache s

  unfoldable pub process_add : Message B → SyncScheduler → Option SyncScheduler
  process_add m s =
      if ltb s.worker_get_clocks.global_clock (local_at s.worker_get_clocks (worker_of m))
      then some (cache_add m s)
      else (apply_add m s >>= after_add)

  unfoldable pub process_get : Message B → SyncScheduler → Option SyncScheduler
  process_get m s =
      if ltb s.worker_add_clocks.global_clock (local_at s.worker_add_clocks (worker_of m))
        || ltb 0 (waited s (worker_of m))
      then some (cache_get m s)
      else (answer_get m s >>= after_get)

  -- `FinishTrain` of the add clocks, and then of the get clocks.
  finish_adds : ℕ → SyncScheduler → Option SyncScheduler
  finish_adds w s =
      let finished = finish_train s.worker_add_clocks w in
      after_add (record s { worker_add_clocks = finished.0 }, finished.1)

  finish_gets : ℕ → SyncScheduler → Option SyncScheduler
  finish_gets w s =
      let finished = finish_train s.worker_get_clocks w in
      let s' = record s { worker_get_clocks = finished.0 } in
      if finished.1
      then check (is_empty s'.msg_get_cache) >> drain_adds s'.msg_add_cache s'
      else some s'

  unfoldable pub process_finish_train : Message B → SyncScheduler → Option SyncScheduler
  unfolding finish_adds finish_gets
  process_finish_train m s = finish_adds (worker_of m) s >>= finish_gets (worker_of m)

  -- The handlers that frame/server.cc registers for one table; any other type is fatal.
  unfoldable pub handle : Message B → SyncScheduler → Option SyncScheduler
  unfolding process_finish_train
  handle m s =
      if eqb_ℤ m.type request_get
      then process_get m s
      else if eqb_ℤ m.type request_add
      then process_add m s
      else if eqb_ℤ m.type server_finish_train
      then process_finish_train m s
      else none
