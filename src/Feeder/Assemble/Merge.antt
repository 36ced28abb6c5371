-- ===== src/Feeder/Assemble/Merge.antt =====
-- BatchTensor2Batch puts the elements of each column one after the other.
mod Fill
use ddls.Prelude.{
  ℕ, zero, suc, ◌+◌, ◌*◌, ◌<◌, ◌≡◌, refl, sym, ap, ◌∙◌, subst, List, [], ◌∷◌, ◌++◌, some, true,
  of_some, length, take-short, replicate, arith, map, get_elem?, All, leb, le→leb, ◌^◌,
}
use native.Mathlib.Nat.{le-mul_of_pos_right}
use ddls.Feeder.Record.{data_type_size, Tensor, product, elements}
use ddls.Feeder.Assemble.{Sample, live, column, merged_shape, fill, stride, merge, merge_from}
use ddls.Feeder.Assemble.Split.{Column, IsColumn, Fits, live_at, elements-rows, has_blob-rows}
use ddls.Feeder.Assemble.Read.{AllFit, total_rows, elements_at}
use Fill.{
  AllColumn, all_live, merged_shape-rows, fill-live, length-all_live, stride-rows, all_filled-true,
}

merge-live :
    (c : Column) (rows : List ℕ) (ts : List Tensor)
    → 0 < length ts
    → AllColumn c rows ts
    → total_rows rows * product c.dims < 2 ^ 31
    → (out : Tensor) × (merge c.config.type ts ≡ some out)
      × IsColumn c (total_rows rows) out
      × (live out ≡ all_live ts)
unfolding merge live AllColumn total_rows all_live
merge-live c rows [] some_ts all small = absurd (omega arith)
merge-live c [] (t ∷ ts) some_ts all small = elim all [ ]
merge-live c (k ∷ rows) (t ∷ ts) some_ts (is, all) small =
    let n = total_rows (k ∷ rows) in
    let shape = n ∷ c.dims in
    let width = data_type_size c.config.type in
    let out : Tensor = record {
      data_type = c.config.type;
      shape = shape;
      blob = all_live (t ∷ ts);
    } in
    let n_pos : 0 < n = omega (arith, is.some_rows) in
    let n_small : n < 2 ^ 31 = omega (arith, le-mul_of_pos_right n is.some_size, small) in
    let size = elements-rows c.dims n small in
    let made = has_blob-rows c.dims n n_pos is.some_size small in
    let sized = length-all_live c (k ∷ rows) (t ∷ ts) (is, all) in
    let shaped : merged_shape t.shape ts ≡ some shape =
      ap (λ s. merged_shape s ts) is.shaped
      ∙ merged_shape-rows c k rows ts all (omega (arith, n_small)) in
    let filled : fill width 0 (t ∷ ts) (replicate (width * (n * product c.dims)) 0)
        ≡ all_live (t ∷ ts) =
      fill-live c (k ∷ rows) (t ∷ ts) 0 [] (is, all) (omega arith) in
    let room : leb (stride (t ∷ ts)) (n * product c.dims) ≡ true =
      le→leb (stride (t ∷ ts)) (n * product c.dims)
        (omega (arith, stride-rows c (k ∷ rows) (t ∷ ts) (is, all))) in
    (
      out,
      rw (shaped, made, all_filled-true c (k ∷ rows) (t ∷ ts) (is, all), size, room, filled) refl,
      record {
        typed = refl;
        shaped = refl;
        filled = rw size (omega (arith, sized));
        primary = is.primary;
        some_rows = n_pos;
        some_size = is.some_size;
        small = small;
      },
      rw size
          (take-short (width * (n * product c.dims)) (all_live (t ∷ ts)) (omega (arith, sized))),
    )

Fits-at :
    (cs : List Column) (c : Column) (n j : ℕ) (item : Sample)
    → Fits cs n item
    → get_elem? cs j ≡ some c
    → (t : Tensor) × (get_elem? item j ≡ some t) × IsColumn c n t × (live_at j item ≡ live t)
unfolding Fits live_at
Fits-at [] c n j item fits at = cc
Fits-at (d ∷ cs) c n j [] fits at = elim fits [ ]
Fits-at (d ∷ cs) c n zero (t ∷ item) (is, fits) at =
    (t, refl, subst (λ e. IsColumn e n t) (of_some at) is, refl)
Fits-at (d ∷ cs) c n (suc j) (t ∷ item) (is, fits) at = Fits-at cs c n j item fits at

column-live :
    (cs : List Column) (c : Column) (j : ℕ) (rows : List ℕ) (batch : List Sample)
    → AllFit cs rows batch
    → get_elem? cs j ≡ some c
    → (ts : List Tensor) × (column j batch ≡ some ts)
      × AllColumn c rows ts
      × (all_live ts ≡ elements_at j batch)
      × (length ts ≡ length batch)
unfolding AllFit column AllColumn all_live elements_at
column-live cs c j [] [] fits at = ([], refl, tt, refl, refl)
column-live cs c j [] (item ∷ batch) fits at = elim fits [ ]
column-live cs c j (k ∷ rows) [] fits at = elim fits [ ]
column-live cs c j (k ∷ rows) (item ∷ batch) (fit, fits) at =
    let (t, here, is, one) = Fits-at cs c k j item fit at in
    let (ts, there, all, rest, count) = column-live cs c j rows batch fits at in
    (
      t ∷ ts,
      rw (here, there) refl,
      (is, all),
      ap (λ l. l ++ all_live ts) (sym one) ∙ ap (λ l. live_at j item ++ l) rest,
      ap suc count,
    )

live_at-first :
    {n : ℕ} (j : ℕ) (t : Tensor) (out : Sample) (batch : List Sample)
    → live t ≡ elements_at j batch
    → ((i : ℕ) → i < n → live_at i out ≡ elements_at (j + 1 + i) batch)
    → (i : ℕ) → i < suc n
    → live_at i (t ∷ out) ≡ elements_at (j + i) batch
unfolding live_at
live_at-first j t out batch first others zero lt =
    first ∙ ap (λ k. elements_at k batch) (let s : j ≡ j + 0 = omega arith in s)
live_at-first j t out batch first others (suc i) lt =
    others i (omega arith)
    ∙ ap (λ k. elements_at k batch) (let s : j + 1 + i ≡ j + suc i = omega arith in s)

-- An int holds the elements of so many rows of each column.
abbrev pub AllSmall : ℕ → List Column → Type 0
AllSmall n cs = All (λ c. n * product c.dims < 2 ^ 31) cs

pub merge_from-live :
    (cs ds : List Column) (j : ℕ) (rows : List ℕ) (batch : List Sample)
    → AllFit cs rows batch
    → 0 < length batch
    → AllSmall (total_rows rows) ds
    → ((i : ℕ) → get_elem? ds i ≡ get_elem? cs (j + i))
    → (out : Sample) × (merge_from (map Column.config ds) j batch ≡ some out)
      × Fits ds (total_rows rows) out
      × ((i : ℕ) → i < length ds → live_at i out ≡ elements_at (j + i) batch)
unfolding merge_from Fits live_at
merge_from-live cs [] j rows batch fits some_rows small same =
    ([], refl, tt, λ i h. absurd (omega arith))
merge_from-live cs (d ∷ ds) j rows batch fits some_rows small same =
    let here : get_elem? cs j ≡ some d =
      sym (same 0 ∙ ap (get_elem? cs) (let none_more : j + 0 ≡ j = omega arith in none_more)) in
    let (ts, col, all, joined, count) = column-live cs d j rows batch fits here in
    let (t, e, is, lives) = merge-live d rows ts (omega (arith, count)) all small.0 in
    let (out, e', rest, others) =
      merge_from-live cs ds (j + 1) rows batch fits some_rows small.1 (λ i.
        same (suc i) ∙ ap (get_elem? cs) (let s : j + suc i ≡ j + 1 + i = omega arith in s)) in
    (t ∷ out, rw (col, e, e') refl, (is, rest), live_at-first j t out batch (lives ∙ joined) others)
