-- ===== src/Feeder/Produce/Tests.antt =====
-- A file of five rows in two samples, in batches of two.
use ddls.Prelude.{ℕ, ◌≡◌, ◌≤◌, refl, List, [], ◌∷◌, some, false, replicate, arith}
use ddls.Common.Queue.{Queue, push_front}
use ddls.Feeder.Record.{uint32, data_type_size, Tensor, elements, product}
use ddls.Feeder.Assemble.{Sample, is_primary, assemble_batch}
use ddls.Feeder.Assemble.Split.{Column, IsColumn, Fits}
use ddls.Feeder.Assemble.Read.{AllFit, total_rows}
use ddls.Feeder.Assemble.Merge.{AllSmall}
use ddls.Feeder.Assemble.Batches.{Assembled, assemble_batch-Assembled}
use ddls.Feeder.Produce.{Task}
use ddls.Feeder.Produce.Runs.{IsTask, Batches, produce_times, produce_times-Made}

abbrev ids : Column
ids = record { config = record { type = uint32; level = 0; is_aux_number = false }; dims = [] }

abbrev rows_from : ℕ → ℕ → Tensor
rows_from rows byte = record { data_type = uint32; shape = rows ∷ []; blob = replicate 12 byte }

abbrev file : List Sample
file = (rows_from 3 7 ∷ []) ∷ (rows_from 2 9 ∷ []) ∷ []

three-IsColumn : IsColumn ids 3 (rows_from 3 7)
unfolding data_type_size elements product is_primary
three-IsColumn = record {
  typed = refl;
  shaped = refl;
  filled = omega arith;
  primary = refl;
  some_rows = omega arith;
  some_size = omega arith;
  small = omega arith;
}

two-IsColumn : IsColumn ids 2 (rows_from 2 9)
unfolding data_type_size elements product is_primary
two-IsColumn = record {
  typed = refl;
  shaped = refl;
  filled = omega arith;
  primary = refl;
  some_rows = omega arith;
  some_size = omega arith;
  small = omega arith;
}

file-AllFit : AllFit (ids ∷ []) (3 ∷ 2 ∷ []) file
unfolding AllFit Fits
file-AllFit = ((three-IsColumn, tt), ((two-IsColumn, tt), tt))

abbrev task : Task
task = record {
  curr = 0;
  batch_size = 2;
  sample_count = 5;
  configs = ids.config ∷ [];
  cache = [];
  unread = file;
}

batch_small : AllSmall 2 (ids ∷ [])
unfolding product
batch_small = (omega arith, tt)

task-IsTask : IsTask ids [] (3 ∷ 2 ∷ []) task
unfolding total_rows
task-IsTask = record {
  columns = refl;
  sized = omega arith;
  fits = file-AllFit;
  small = omega arith;
  batch_small = batch_small;
  counted = refl;
}

enough : 2 ≤ total_rows (3 ∷ 2 ∷ [])
unfolding total_rows
enough = omega arith

twice : 4 ≤ total_rows (3 ∷ 2 ∷ [])
unfolding total_rows
twice = omega arith

abbrev no_tasks : Queue Task
no_tasks = record { buffer = []; exit = false }

abbrev no_batches : Queue Sample
no_batches = record { buffer = []; exit = false }

produce_times-Made_example :
    (q : Queue Task) × (batches : List Sample) × (left : List Sample) × (produce_times 2
        (push_front task no_tasks)
        no_batches
      ≡ some (q, record { buffer = batches; exit = false }))
    × Batches ids [] 2 2 file batches left
produce_times-Made_example =
    produce_times-Made ids [] 2 task (3 ∷ 2 ∷ []) no_tasks no_batches task-IsTask twice

assemble_batch-Assembled_example :
    (tensors : Sample) × (cache' : List Sample) × (unread' : List Sample) × (assemble_batch
        (ids.config ∷ [])
        2
        []
        file
      ≡ some (tensors, cache', unread'))
    × Assembled (ids ∷ []) 2 (3 ∷ 2 ∷ []) file tensors cache' unread'
assemble_batch-Assembled_example =
    assemble_batch-Assembled ids [] 2 (3 ∷ 2 ∷ []) [] file (omega arith) enough (omega arith)
      file-AllFit batch_small
