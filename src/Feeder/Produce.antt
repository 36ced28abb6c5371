-- ===== src/Feeder/Produce.antt =====
-- Schedule, AddTask and ProduceBatch of feeder/feeder.cc, Make of feeder/plan.cc and the bounded
-- queue of feeder/blocking_queue.h. The thread that calls Pop on an empty queue waits: the state stays.
pub mod Runs
mod Tests
use ddls.Prelude.{
  ℕ, zero, suc, ◌+◌, ◌≤◌, List, [], ◌∷◌, Option, none, some, ◌>>=◌, leb, ltb, if◌then◌else◌, map,
  ◌++◌, Bool, ◌>>◌, check, length,
}
use ddls.Common.Queue.{Queue, Popped, asleep, failed, item, push, push_front, pop, new, size}
use ddls.Feeder.Assemble.{Config, Sample, assemble_batch}

-- A file as ReadHeader leaves it: the count of samples in its header, and the samples.
pub record RecordFile : Type 0 where
  pub sample_count : ℕ
  pub configs : List Config
  pub samples : List Sample

pub record Plan : Type 0 where
  pub sample_record : List RecordFile
  pub count : ℕ
  pub batch_size : ℕ

unfoldable pub add_records : List RecordFile → Plan → Plan
add_records [] plan = plan
add_records (f ∷ fs) plan = add_records fs (record plan {
  sample_record = plan.sample_record ++ f ∷ [];
  count = plan.count + f.sample_count;
})

unfoldable pub epochs : ℕ → List RecordFile → Plan → Plan
epochs zero files plan = plan
epochs (suc n) files plan = epochs n files (add_records files plan)

-- PlanMaker::Make on the files of its URIs.
unfoldable pub make : ℕ → ℕ → List RecordFile → Option Plan
make epoch batch_size files =
    check (ltb 0 batch_size)
    >> some (epochs epoch files (record { sample_record = []; count = 0; batch_size = batch_size }))

-- Task, with the part of its file that is not read.
pub record Task : Type 0 where
  pub curr : ℕ
  pub batch_size : ℕ
  pub sample_count : ℕ
  pub configs : List Config
  pub cache : List Sample
  pub unread : List Sample

-- BlockingQueue::Full
unfoldable pub full {ℓ} : {A : Type ℓ} → ℕ → Queue A → Bool
full max_queue_size q = leb max_queue_size (size q)

unfoldable pub new_task : ℕ → RecordFile → Task
new_task batch_size f = record {
  curr = 0;
  batch_size = batch_size;
  sample_count = f.sample_count;
  configs = f.configs;
  cache = [];
  unread = f.samples;
}

unfoldable pub push_tasks : ℕ → List RecordFile → Queue Task → Queue Task
push_tasks batch_size [] q = q
push_tasks batch_size (f ∷ fs) q = push_tasks batch_size fs (push (new_task batch_size f) q)

-- AddTask: the queue of the tasks of a plan.
unfoldable pub add_task : Plan → Queue Task
add_task plan = push_tasks plan.batch_size plan.sample_record new

-- Where a task that is not at its end goes back.
unfoldable pub requeue : Task → Queue Task → Queue Task
requeue task q = if ltb task.curr task.sample_count then push_front task q else q

unfoldable pub produce_task : Task → Queue Task → Queue Sample → Option (Queue Task × Queue Sample)
produce_task task q out =
    let made = assemble_batch task.configs task.batch_size task.cache task.unread in
    if leb (task.curr + task.batch_size) task.sample_count
    then (do
      (batch, cache, unread) ← made
      some (
        requeue (record task { curr = task.curr + task.batch_size; cache = cache; unread = unread })
            q,
        push batch out,
      ))
    else some (q, out)

-- ProduceBatch, on the queue of tasks and the queue of batches.
unfoldable pub produce_batch : Queue Task → Queue Sample → Option (Queue Task × Queue Sample)
produce_batch q out = elim (pop q).0 [
  | item task ↦ produce_task task (pop q).1 out
  | _ ↦ some (q, out)
]
