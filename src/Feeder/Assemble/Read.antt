-- ===== src/Feeder/Assemble/Read.antt =====
-- ReadBatchTensor reads as many rows as are asked for, in order, and keeps the rest.
use ddls.Prelude.{
  ℕ, zero, suc, ◌+◌, ◌-◌, ◌≤◌, ◌<◌, ◌≡◌, refl, sym, ap, ◌∙◌, subst, List, [], ◌∷◌, ◌++◌, Option,
  some, if◌then◌else◌, ltb, append_assoc, append-nil, ◌>>=◌, length, arith, map, Bool-cases, inl,
  inr,
}
use ddls.Message.Wire.{Byte}
use ddls.Feeder.Assemble.{Sample, Reading, split, curr_batch_size, read_unread, read_batch}
use ddls.Feeder.Assemble.Split.{Column, Fits, live_at, split-live, curr_batch_size-Fits}

-- Samples with these numbers of rows.
unfoldable pub AllFit : List Column → List ℕ → List Sample → Type 0
AllFit cs [] [] = Unit
AllFit cs [] (item ∷ items) = ⊥
AllFit cs (n ∷ rows) [] = ⊥
AllFit cs (n ∷ rows) (item ∷ items) = Fits cs n item × AllFit cs rows items

unfoldable pub total_rows : List ℕ → ℕ
total_rows [] = 0
total_rows (n ∷ rows) = n + total_rows rows

-- The elements of column j of samples, in order.
unfoldable pub elements_at : ℕ → List Sample → List Byte
elements_at j [] = []
elements_at j (item ∷ items) = live_at j item ++ elements_at j items

-- What a reading of n rows leaves: of the items, n rows in the batch, and the others in order.
pub record Reads (cs : List Column) (n : ℕ) (rows : List ℕ) (items : List Sample) (r : Reading)
    : Type 0 where
  pub batch_rows : List ℕ
  pub left_rows : List ℕ
  pub batch_fits : AllFit cs batch_rows r.batch
  pub left_fits : AllFit cs left_rows (r.cache ++ r.unread)
  pub counted : total_rows batch_rows ≡ n
  pub kept : n + total_rows left_rows ≡ total_rows rows
  pub small : length r.cache ≤ 1
  pub in_order :
      (j : ℕ) → elements_at j r.batch ++ elements_at j (r.cache ++ r.unread) ≡ elements_at j items

abbrev Ready : List Column → ℕ → List ℕ → List Sample → Option Reading → Type 0
Ready cs n rows items o = (r : Reading) × (o ≡ some r) × Reads cs n rows items r

nothing-Ready :
    (cs : List Column) (rows : List ℕ) (cache unread : List Sample)
    → length cache ≤ 1
    → AllFit cs rows (cache ++ unread)
    → Ready cs 0 rows
        (cache ++ unread)
        (some (record { batch = []; cache = cache; unread = unread }))
unfolding total_rows AllFit elements_at
nothing-Ready cs rows cache unread small fits = (
  record { batch = []; cache = cache; unread = unread },
  refl,
  record {
    batch_rows = [];
    left_rows = rows;
    batch_fits = tt;
    left_fits = fits;
    counted = refl;
    kept = omega arith;
    small = small;
    in_order = λ j. refl;
  },
)

-- The item is taken whole.
whole-Ready :
    (cs : List Column) (n k : ℕ) (rows : List ℕ) (item : Sample) (items : List Sample)
    (o : Option Reading)
    → k ≤ n
    → Fits cs k item
    → Ready cs (n - k) rows items o
    → Ready cs n (k ∷ rows) (item ∷ items) (do r ← o; some (record r { batch = item ∷ r.batch }))
unfolding total_rows AllFit elements_at
whole-Ready cs n k rows item items o le fits (r, e, reads) = (
  record r { batch = item ∷ r.batch },
  rw e refl,
  record {
    batch_rows = k ∷ reads.batch_rows;
    left_rows = reads.left_rows;
    batch_fits = (fits, reads.batch_fits);
    left_fits = reads.left_fits;
    counted = omega (arith, reads.counted);
    kept = omega (arith, reads.kept);
    small = reads.small;
    in_order = λ j.
        append_assoc (live_at j item) (elements_at j r.batch) (elements_at j (r.cache ++ r.unread))
        ∙ ap (λ ys. live_at j item ++ ys) (reads.in_order j);
  },
)

-- The item has more rows than are wanted.
part-Ready :
    (cs : List Column) (n m : ℕ) (rows : List ℕ) (item : Sample) (unread : List Sample)
    → Fits cs (suc n + m) item
    → 0 < m
    → AllFit cs rows unread
    → Ready cs (suc n) ((suc n + m) ∷ rows) (item ∷ unread) (do
      (a, b) ← split (map Column.config cs) item (suc n)
      some (record { batch = a ∷ []; cache = b ∷ []; unread = unread }))
unfolding total_rows AllFit elements_at
part-Ready cs n m rows item unread fits more others =
    let (a, b, e, fits_a, fits_b, joined) = split-live cs (suc n) m item fits (omega arith) more in
    (
      record { batch = a ∷ []; cache = b ∷ []; unread = unread },
      rw e refl,
      record {
        batch_rows = suc n ∷ [];
        left_rows = m ∷ rows;
        batch_fits = (fits_a, tt);
        left_fits = (fits_b, others);
        counted = omega arith;
        kept = omega arith;
        small = omega arith;
        in_order = λ j.
            ap (λ ys. ys ++ (live_at j b ++ elements_at j unread)) (append-nil (live_at j a))
            ∙ sym (append_assoc (live_at j a) (live_at j b) (elements_at j unread))
            ∙ ap (λ ys. ys ++ elements_at j unread) (joined j);
      },
    )

-- One step of the loop, on an item that is taken whole or cut.
step-Ready :
    (c : Column) (cs : List Column) (n k : ℕ) (rows : List ℕ) (item : Sample) (unread : List Sample)
    (more : Option Reading)
    → Fits (c ∷ cs) k item
    → AllFit (c ∷ cs) rows unread
    → (k ≤ suc n → Ready (c ∷ cs) (suc n - k) rows unread more)
    → Ready (c ∷ cs) (suc n) (k ∷ rows) (item ∷ unread) (
        if ltb (suc n) (curr_batch_size (map Column.config (c ∷ cs)) item)
        then (do
          (a, b) ← split (map Column.config (c ∷ cs)) item (suc n)
          some (record { batch = a ∷ []; cache = b ∷ []; unread = unread }))
        else (do r ← more; some (record r { batch = item ∷ r.batch })))
step-Ready c cs n k rows item unread more fits others ready =
    let size = curr_batch_size-Fits c cs k item fits in
    elim (Bool-cases (ltb (suc n) k)) [
      | inl e ↦
          let m = k - suc n in
          let cut : k ≡ suc n + m = ground (arith, e) in
          rw (size, e)
            (subst
              (λ rows_k. Ready (c ∷ cs) (suc n) (rows_k ∷ rows) (item ∷ unread) (do
                (a, b) ← split (map Column.config (c ∷ cs)) item (suc n)
                some (record { batch = a ∷ []; cache = b ∷ []; unread = unread })))
              (sym cut)
              (part-Ready (c ∷ cs) n m rows item unread (subst (λ r. Fits (c ∷ cs) r item) cut fits)
                (ground (arith, e)) others))
      | inr e ↦
          let le : k ≤ suc n = ground (arith, e) in
          rw (size, e) (whole-Ready (c ∷ cs) (suc n) k rows item unread more le fits (ready le))
    ]

read_unread-Ready :
    (c : Column) (cs : List Column) (n : ℕ) (rows : List ℕ) (items : List Sample)
    → AllFit (c ∷ cs) rows items
    → n ≤ total_rows rows
    → Ready (c ∷ cs) n rows items (read_unread (map Column.config (c ∷ cs)) n items)
unfolding read_unread total_rows AllFit
read_unread-Ready c cs zero rows items fits le =
    nothing-Ready (c ∷ cs) rows [] items (omega arith) fits
read_unread-Ready c cs (suc n) [] [] fits le = absurd (omega arith)
read_unread-Ready c cs (suc n) [] (item ∷ items) fits le = elim fits [ ]
read_unread-Ready c cs (suc n) (k ∷ rows) [] fits le = elim fits [ ]
read_unread-Ready c cs (suc n) (k ∷ rows) (item ∷ items) (fit, fits) le =
    let size = curr_batch_size-Fits c cs k item fit in
    step-Ready c cs n k rows item items _ fit fits λ small.
      subst
        (λ r.
          Ready (c ∷ cs) (suc n - k) rows items
            (read_unread (map Column.config (c ∷ cs)) (suc n - r) items))
        (sym size) (read_unread-Ready c cs (suc n - k) rows items fits (omega arith))

-- With at most one sample in the cache and n rows in the cache and the file, ReadBatchTensor returns
-- n rows.
pub read_batch-Ready :
    (c : Column) (cs : List Column) (n : ℕ) (rows : List ℕ) (cache unread : List Sample)
    → length cache ≤ 1
    → AllFit (c ∷ cs) rows (cache ++ unread)
    → n ≤ total_rows rows
    → Ready
        (c ∷ cs)
        n
        rows
        (cache ++ unread)
        (read_batch (map Column.config (c ∷ cs)) n cache unread)
unfolding read_batch total_rows AllFit
read_batch-Ready c cs n rows [] unread small fits le = read_unread-Ready c cs n rows unread fits le
read_batch-Ready c cs zero rows (item ∷ cache) unread small fits le =
    nothing-Ready (c ∷ cs) rows (item ∷ cache) unread small fits
read_batch-Ready c cs (suc n) [] (item ∷ []) unread small fits le = elim fits [ ]
read_batch-Ready c cs (suc n) (k ∷ rows) (item ∷ []) unread small (fit, fits) le =
    let size = curr_batch_size-Fits c cs k item fit in
    step-Ready c cs n k rows item unread _ fit fits λ whole.
      subst
        (λ r.
          Ready (c ∷ cs) (suc n - k) rows unread
            (read_unread (map Column.config (c ∷ cs)) (suc n - r) unread))
        (sym size) (read_unread-Ready c cs (suc n - k) rows unread fits (omega arith))
read_batch-Ready c cs (suc n) rows (item ∷ more ∷ cache) unread small fits le = absurd (omega arith)
