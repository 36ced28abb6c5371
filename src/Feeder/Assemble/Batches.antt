-- ===== src/Feeder/Assemble/Batches.antt =====
-- AssembleBatch: reading and merging together.
use ddls.Prelude.{
  ℕ, ◌+◌, ◌≤◌, ◌<◌, ◌≡◌, refl, sym, ap, ◌∙◌, subst, List, [], ◌∷◌, ◌++◌, some, length, map, arith,
  get_elem?,
}
use ddls.Feeder.Assemble.{Sample, assemble_batch}
use ddls.Feeder.Assemble.Split.{Column, Fits, live_at}
use ddls.Feeder.Assemble.Read.{AllFit, total_rows, elements_at, read_batch-Ready}
use ddls.Feeder.Assemble.Merge.{AllSmall, merge_from-live}

-- A batch of n rows, which with what is left has the elements of the items, in order.
pub record Assembled (cs : List Column) (n : ℕ) (rows : List ℕ) (items : List Sample)
    (tensors : Sample) (cache unread : List Sample) : Type 0 where
  pub left_rows : List ℕ
  pub left_fits : AllFit cs left_rows (cache ++ unread)
  pub small : length cache ≤ 1
  pub fits : Fits cs n tensors
  pub kept : n + total_rows left_rows ≡ total_rows rows
  pub in_order :
      (j : ℕ)
      → j < length cs
      → live_at j tensors ++ elements_at j (cache ++ unread) ≡ elements_at j items

nonempty :
    (cs : List Column) (rows : List ℕ) (batch : List Sample)
    → AllFit cs rows batch
    → 0 < total_rows rows
    → 0 < length batch
unfolding AllFit total_rows
nonempty cs [] [] fits pos = pos
nonempty cs [] (item ∷ batch) fits pos = elim fits [ ]
nonempty cs (k ∷ rows) [] fits pos = elim fits [ ]
nonempty cs (k ∷ rows) (item ∷ batch) fits pos = omega arith

-- With at most one sample in the cache, in the cache and the file together as many rows as a batch
-- has, each sample of some rows, and the elements of a sample and of a batch fewer than 2^31 in every
-- column, which has some elements in a row: AssembleBatch succeeds, each tensor of the batch has batch_size rows, and its elements
-- with those that are left are the elements there were, in order, for every column.
pub assemble_batch-Assembled :
    (c : Column) (cs : List Column) (batch_size : ℕ) (rows : List ℕ) (cache unread : List Sample)
    → 0 < batch_size
    → batch_size ≤ total_rows rows
    → length cache ≤ 1
    → AllFit (c ∷ cs) rows (cache ++ unread)
    → AllSmall batch_size (c ∷ cs)
    → (tensors : Sample) × (cache' : List Sample) × (unread' : List Sample) × (assemble_batch
          (map Column.config (c ∷ cs))
          batch_size
          cache
          unread
        ≡ some (tensors, cache', unread'))
      × Assembled (c ∷ cs) batch_size rows (cache ++ unread) tensors cache' unread'
unfolding assemble_batch
assemble_batch-Assembled c cs n rows cache unread pos enough small fits int_size =
    let (r, e, reads) = read_batch-Ready c cs n rows cache unread small fits enough in
    let full : 0 < length r.batch =
      nonempty (c ∷ cs) reads.batch_rows r.batch reads.batch_fits (omega (arith, reads.counted)) in
    let (tensors, e', fit, same) =
      merge_from-live (c ∷ cs) (c ∷ cs) 0 reads.batch_rows r.batch reads.batch_fits full
        (subst (λ k. AllSmall k (c ∷ cs)) (sym reads.counted) int_size)
        (λ i. ap (get_elem? (c ∷ cs)) (let s : i ≡ 0 + i = omega arith in s)) in
    (
      tensors,
      r.cache,
      r.unread,
      rw (e, e') refl,
      record {
        left_rows = reads.left_rows;
        left_fits = reads.left_fits;
        small = reads.small;
        fits = subst (λ k. Fits (c ∷ cs) k tensors) reads.counted fit;
        kept = reads.kept;
        in_order = λ j lt.
            ap (λ l. l ++ elements_at j (r.cache ++ r.unread))
              (same j lt ∙ ap (λ k. elements_at k r.batch) (let s : 0 + j ≡ j = omega arith in s))
            ∙ reads.in_order j;
      },
    )
