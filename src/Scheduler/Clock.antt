-- ===== src/Scheduler/Clock.antt =====
-- `SyncScheduler::VectorClock` of frame/scheduler/sync_scheduler.h. The clocks are `int`; the
-- increment of one that stands at `int_max`, as after `FinishTrain`, is undefined behaviour. `size_` is never read.
-- `local_clock_` is not empty, since a system has workers.
pub mod Laws
use ddls.Prelude.{
  ℕ, suc, ◌+◌, ◌-◌, ◌^◌, List, [], ◌∷◌, Bool, true, false, ◌&&◌, ltb, ◌==◌, not, if◌then◌else◌,
  get_or, set, replicate, Option, some, check, ◌>>◌, ◌>>=◌,
}

abbrev pub int_max : ℕ
int_max = 2 ^ 31 - 1

pub record VectorClock : Type 0 where
  pub local_clock : List ℕ
  pub global_clock : ℕ

unfoldable pub new : ℕ → VectorClock
new n = record { local_clock = replicate n 0; global_clock = 0 }

-- The loop of std::min_element over the rest of the vector.
unfoldable pub min_from : ℕ → List ℕ → ℕ
min_from m [] = m
min_from m (v ∷ vs) = min_from (if ltb v m then v else m) vs

unfoldable pub min_element : List ℕ → ℕ
unfolding min_from
min_element [] = 0
min_element (v ∷ vs) = min_from v vs

-- The loop of `max_element()`, which passes over the workers that have finished.
unfoldable pub max_from : ℕ → List ℕ → ℕ
max_from max [] = max
max_from max (val ∷ vs) = max_from (if not (val == int_max) && ltb max val then val else max) vs

unfoldable pub max_element : VectorClock → ℕ
unfolding max_from
max_element c = max_from c.global_clock c.local_clock

abbrev pub local_at : VectorClock → ℕ → ℕ
local_at c i = get_or c.local_clock i 0

-- The new clock of `Update`, and whether all clocks reached one number.
unfoldable pub tick : VectorClock → ℕ → VectorClock × Bool
tick c i =
    let locals = set c.local_clock i (local_at c i + 1) in
    let ticked = record c { local_clock = locals; global_clock = c.global_clock + 1 } in
    if ltb c.global_clock (min_element locals)
    then (ticked, ticked.global_clock == max_element ticked)
    else (record c { local_clock = locals }, false)

unfoldable pub update : VectorClock → ℕ → Option (VectorClock × Bool)
unfolding tick
update c i = check (ltb (local_at c i) int_max) >> some (tick c i)

unfoldable pub finish_train : VectorClock → ℕ → VectorClock × Bool
finish_train c i =
    let locals = set c.local_clock i int_max in
    let raised = record c { local_clock = locals; global_clock = min_element locals } in
    if ltb c.global_clock (min_element locals)
    then (raised, raised.global_clock == max_element raised)
    else (record c { local_clock = locals }, false)
