-- ===== src/Feeder/Produce/Runs.antt =====
-- The batches that the feeder makes of one file.
use ddls.Prelude.{
  ℕ, zero, suc, ◌+◌, ◌*◌, ◌≤◌, ◌<◌, ◌≡◌, refl, sym, ap, ◌∙◌, subst, List, [], ◌∷◌, ◌++◌, Option,
  some, true, ◌>>=◌, length, map, arith, replicate, append_assoc, append-nil, leb, ltb,
}
use ddls.Common.Queue.{Queue, push, push_front, pop}
use ddls.Feeder.Assemble.{Sample}
use ddls.Feeder.Assemble.Split.{Column, Fits, live_at}
use ddls.Feeder.Assemble.Read.{AllFit, total_rows, elements_at}
use ddls.Feeder.Assemble.Merge.{AllSmall}
use ddls.Feeder.Assemble.Batches.{assemble_batch-Assembled}
use ddls.Feeder.Produce.{Task, requeue, produce_task, produce_batch}

-- So many calls of ProduceBatch, one after the other.
pub produce_times : ℕ → Queue Task → Queue Sample → Option (Queue Task × Queue Sample)
produce_times zero q out = some (q, out)
produce_times (suc n) q out = do (q', out') ← produce_batch q out; produce_times n q' out'

-- A task of a file with these columns, with as many rows left as its count says.
pub record IsTask (c : Column) (cs : List Column) (rows : List ℕ) (task : Task) : Type 0 where
  pub columns : task.configs ≡ map Column.config (c ∷ cs)
  pub sized : 0 < task.batch_size
  pub fits : AllFit (c ∷ cs) rows (task.cache ++ task.unread)
  pub small : length task.cache ≤ 1
  pub batch_small : AllSmall task.batch_size (c ∷ cs)
  pub counted : task.curr + total_rows rows ≡ task.sample_count

-- What n batches are: of n times the batch size rows, and before what is left.
pub record Batches (c : Column) (cs : List Column) (batch_size n : ℕ) (items : List Sample)
    (batches : List Sample) (left : List Sample) : Type 0 where
  pub fits : AllFit (c ∷ cs) (replicate n batch_size) batches
  pub in_order :
      (j : ℕ)
      → j < length (c ∷ cs)
      → elements_at j batches ++ elements_at j left ≡ elements_at j items

abbrev Made :
    Column
    → List Column
    → ℕ
    → ℕ
    → List Sample
    → Queue Sample
    → Option (Queue Task × Queue Sample)
    → Type 0
Made c cs batch_size n items out o =
    (q : Queue Task) × (batches : List Sample) × (left : List Sample) × (o
      ≡ some (q, record out { buffer = out.buffer ++ batches }))
    × Batches c cs batch_size n items batches left

none-Made :
    (c : Column) (cs : List Column) (batch_size : ℕ) (items : List Sample) (q : Queue Task)
    (out : Queue Sample)
    → Made c cs batch_size 0 items out (some (q, out))
unfolding AllFit elements_at
none-Made c cs batch_size items q out = (
  q,
  [],
  items,
  ap (λ b. some (q, record out { buffer = b })) (sym (append-nil out.buffer)),
  record { fits = tt; in_order = λ j lt. refl },
)

-- One call of ProduceBatch on a task with enough rows.
record Produced (c : Column) (cs : List Column) (task : Task) (rows : List ℕ) (q : Queue Task)
    (out : Queue Sample) : Type 0 where
  batch : Sample
  next : Task
  next_rows : List ℕ
  run : produce_task task q out ≡ some (requeue next q, push batch out)
  next_task : IsTask c cs next_rows next
  same_size : next.batch_size ≡ task.batch_size
  kept : task.batch_size + total_rows next_rows ≡ total_rows rows
  fit : Fits (c ∷ cs) task.batch_size batch
  in_order :
      (j : ℕ)
      → j < length (c ∷ cs)
      → live_at j batch ++ elements_at j (next.cache ++ next.unread)
        ≡ elements_at j (task.cache ++ task.unread)

produce_task-Produced :
    (c : Column) (cs : List Column) (task : Task) (rows : List ℕ) (q : Queue Task)
    (out : Queue Sample)
    → IsTask c cs rows task
    → task.batch_size ≤ total_rows rows
    → Produced c cs task rows q out
unfolding produce_task
produce_task-Produced c cs task rows q out is enough =
    let (batch, cache, unread, e, done) =
      assemble_batch-Assembled c cs task.batch_size rows task.cache task.unread is.sized enough
        is.small is.fits is.batch_small in
    let room : leb (task.curr + task.batch_size) task.sample_count ≡ true =
      let counted = is.counted in ground (arith, counted) in
    record {
      batch = batch;
      next = record task { curr = task.curr + task.batch_size; cache = cache; unread = unread };
      next_rows = done.left_rows;
      run = rw (room, is.columns, e) refl;
      next_task = record {
        columns = is.columns;
        sized = is.sized;
        fits = done.left_fits;
        small = done.small;
        batch_small = is.batch_small;
        counted = omega (arith, is.counted, done.kept);
      };
      same_size = refl;
      kept = done.kept;
      fit = done.fits;
      in_order = done.in_order;
    }

cons-Made :
    (c : Column) (cs : List Column) (batch_size n : ℕ) (items items' : List Sample) (batch : Sample)
    (out : Queue Sample) (o : Option (Queue Task × Queue Sample))
    → Fits (c ∷ cs) batch_size batch
    → ((j : ℕ)
        → j < length (c ∷ cs)
        → live_at j batch ++ elements_at j items' ≡ elements_at j items)
    → Made c cs batch_size n items' (push batch out) o
    → Made c cs batch_size (suc n) items out o
unfolding AllFit elements_at push
cons-Made c cs batch_size n items items' batch out o fit split (q, batches, left, e, made) = (
  q,
  batch ∷ batches,
  left,
  e ∙ ap (λ b. some (q, record out { buffer = b })) (append_assoc out.buffer (batch ∷ []) batches),
  record {
    fits = (fit, made.fits);
    in_order = λ j lt.
        append_assoc (live_at j batch) (elements_at j batches) (elements_at j left)
        ∙ ap (λ l. live_at j batch ++ l) (made.in_order j lt)
        ∙ split j lt;
  },
)

produce_times-step :
    (n : ℕ) (task : Task) (q : Queue Task) (out : Queue Sample)
    → produce_times (suc n) (push_front task q) out
      ≡ (do (q', out') ← produce_task task q out; produce_times n q' out')
unfolding produce_times produce_batch pop push_front
produce_times-step n task q out = refl

requeue-push_front :
    (task : Task) (q : Queue Task)
    → task.curr < task.sample_count
    → requeue task q ≡ push_front task q
unfolding requeue
requeue-push_front task q lt =
    let e : ltb task.curr task.sample_count ≡ true = ground (arith, lt) in rw e

first-Made :
    (c : Column) (cs : List Column) (n : ℕ) (task : Task) (rows : List ℕ) (q : Queue Task)
    (out : Queue Sample) (p : Produced c cs task rows q out)
    → Made c cs task.batch_size n
        (p.next.cache ++ p.next.unread)
        (push p.batch out)
        (produce_times n (requeue p.next q) (push p.batch out))
    → Made c cs task.batch_size
        (suc n)
        (task.cache ++ task.unread)
        out
        (produce_times (suc n) (push_front task q) out)
first-Made c cs n task rows q out p rest =
    let items = p.next.cache ++ p.next.unread in
    let first =
      produce_times-step n task q out ∙ ap (λ o. o >>= λ r. produce_times n r.0 r.1) p.run in
    cons-Made c cs task.batch_size n (task.cache ++ task.unread) items p.batch out _ p.fit
      p.in_order (subst (Made c cs task.batch_size n items (push p.batch out)) (sym first) rest)

-- With the task of a valid file in front, whose samples and batches have elements in every column,
-- and fewer than 2^31: as many calls of ProduceBatch as the rows that are left
-- fill batches succeed, each puts one batch of batch_size rows behind the batches, and the elements
-- of the new batches and of what is left are those of the file, column by column, in order.
pub produce_times-Made :
    (c : Column) (cs : List Column) (n : ℕ) (task : Task) (rows : List ℕ) (q : Queue Task)
    (out : Queue Sample)
    → IsTask c cs rows task
    → n * task.batch_size ≤ total_rows rows
    → Made c cs task.batch_size n
        (task.cache ++ task.unread)
        out
        (produce_times n (push_front task q) out)
unfolding produce_times
produce_times-Made c cs zero task rows q out is enough =
    none-Made c cs task.batch_size (task.cache ++ task.unread) (push_front task q) out
produce_times-Made c cs (suc zero) task rows q out is enough =
    let p = produce_task-Produced c cs task rows q out is (omega (arith, enough)) in
    first-Made c cs 0 task rows q out p (
      none-Made c cs task.batch_size (p.next.cache ++ p.next.unread) (requeue p.next q)
        (push p.batch out))
produce_times-Made c cs (suc (suc n)) task rows q out is enough =
    let p = produce_task-Produced c cs task rows q out is (omega (arith, enough)) in
    let sized = is.sized in
    let more : suc n * p.next.batch_size ≤ total_rows p.next_rows =
      subst (λ b. suc n * b ≤ total_rows p.next_rows) (sym p.same_size)
        (omega (arith, enough, p.kept)) in
    let waits : p.next.curr < p.next.sample_count =
      omega (arith, p.next_task.counted, p.kept, enough, sized) in
    let out' = push p.batch out in
    let items = p.next.cache ++ p.next.unread in
    first-Made c cs (suc n) task rows q out p (
      subst (λ w. Made c cs task.batch_size (suc n) items out' (produce_times (suc n) w out'))
        (sym (requeue-push_front p.next q waits))
        (subst
          (λ b. Made c cs b (suc n) items out' (produce_times (suc n) (push_front p.next q) out'))
          p.same_size (produce_times-Made c cs (suc n) p.next p.next_rows q out' p.next_task more)))
