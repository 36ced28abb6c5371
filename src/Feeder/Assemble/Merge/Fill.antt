-- ===== src/Feeder/Assemble/Merge/Fill.antt =====
-- What the loops of BatchTensor2Batch do on one column: the shape, the stride and the copies.
use ddls.Prelude.{
  ℕ, zero, suc, ◌+◌, ◌*◌, ◌≤◌, ◌<◌, ◌≡◌, refl, sym, ap, ◌∙◌, subst, List, [], ◌∷◌, ◌++◌, some, true,
  append_assoc, length, length-append, length-take, take, drop, drop-add, take-append, drop-append,
  replicate, arith, ==_refl, lt→ltb, le→leb, ◌%◌, ◌^◌,
}
use native.Mathlib.Nat.{mul_comm, mul-add, add-mul, mul-pos}
use ddls.Message.Wire.{Byte}
use ddls.Feeder.Record.{data_type_size, data_type_size-pos, Tensor, product, elements}
use ddls.Feeder.Assemble.{live, same_dims, merged_shape, copy, fill, stride, all_filled}
use ddls.Feeder.Assemble.Split.{Column, IsColumn, elements-IsColumn}
use ddls.Feeder.Assemble.Read.{total_rows}

-- The tensors of one column, with their rows.
unfoldable pub AllColumn : Column → List ℕ → List Tensor → Type 0
AllColumn c [] [] = Unit
AllColumn c [] (t ∷ ts) = ⊥
AllColumn c (n ∷ rows) [] = ⊥
AllColumn c (n ∷ rows) (t ∷ ts) = IsColumn c n t × AllColumn c rows ts

unfoldable pub all_live : List Tensor → List Byte
all_live [] = []
all_live (t ∷ ts) = live t ++ all_live ts

same_dims_refl : (dims : List ℕ) → same_dims dims dims ≡ true
unfolding same_dims
same_dims_refl [] = refl
same_dims_refl (d ∷ dims) = rw (==_refl d) (same_dims_refl dims)

pub merged_shape-rows :
    (c : Column) (n : ℕ) (rows : List ℕ) (ts : List Tensor)
    → AllColumn c rows ts
    → n + total_rows rows < 2 ^ 32
    → merged_shape (n ∷ c.dims) ts ≡ some ((n + total_rows rows) ∷ c.dims)
unfolding merged_shape AllColumn total_rows
merged_shape-rows c n [] [] all fits = ap (λ k. some (k ∷ c.dims)) (omega arith)
merged_shape-rows c n [] (t ∷ ts) all fits = elim all [ ]
merged_shape-rows c n (k ∷ rows) [] all fits = elim all [ ]
merged_shape-rows c n (k ∷ rows) (t ∷ ts) (is, all) fits =
    let kept : (n + k) % 2 ^ 32 ≡ n + k = omega arith in
    rw (is.shaped, same_dims_refl c.dims, kept)
      (merged_shape-rows c (n + k) rows ts all (omega arith)
        ∙ ap (λ r. some (r ∷ c.dims)) (omega arith))

drop-replicate {ℓ} : {A : Type ℓ} (m n : ℕ) (a : A) → drop m (replicate (m + n) a) ≡ replicate n a
drop-replicate zero n a = let none : 0 + n ≡ n = omega arith in rw none
drop-replicate (suc m) n a =
    let next : suc m + n ≡ suc (m + n) = omega arith in rw next (drop-replicate m n a)

-- The buffer, filled in front.
copy-append :
    (pre src : List Byte) (n : ℕ)
    → copy (pre ++ replicate (length src + n) 0) (length pre) src ≡ (pre ++ src) ++ replicate n 0
unfolding copy
copy-append pre src n =
    let zeros = replicate {A = Byte} (length src + n) 0 in
    let back : drop (length pre + length src) (pre ++ zeros) ≡ replicate n 0 =
      drop-add (length pre) (length src) (pre ++ zeros)
      ∙ ap (drop (length src)) (drop-append pre zeros)
      ∙ drop-replicate (length src) n 0 in
    rw (take-append pre zeros, back) (sym (append_assoc pre src (replicate n 0)))

pub fill-live :
    (c : Column) (rows : List ℕ) (ts : List Tensor) (offset : ℕ) (pre : List Byte)
    → AllColumn c rows ts
    → length pre ≡ offset * data_type_size c.config.type
    → fill
        (data_type_size c.config.type)
        offset
        ts
        (pre ++ replicate (data_type_size c.config.type * (total_rows rows * product c.dims)) 0)
      ≡ pre ++ all_live ts
unfolding fill AllColumn total_rows all_live live
fill-live c [] [] offset pre all h =
    let none_left : data_type_size c.config.type * (0 * product c.dims) ≡ 0 = omega arith in
    rw none_left
fill-live c [] (t ∷ ts) offset pre all h = elim all [ ]
fill-live c (k ∷ rows) [] offset pre all h = elim all [ ]
fill-live c (k ∷ rows) (t ∷ ts) offset pre (is, all) h =
    let width = data_type_size c.config.type in
    let size = product c.dims in
    let src = take (elements t.shape * width) t.blob in
    let own : width * elements t.shape ≡ elements t.shape * width =
      mul_comm width (elements t.shape) in
    let typed = ap data_type_size is.typed in
    let lives : src ≡ live t =
      ap (λ n. take n t.blob) (sym own ∙ ap (λ w. w * elements t.shape) (sym typed)) in
    let filled : width * elements t.shape ≤ length t.blob =
      subst (λ w. w * elements t.shape ≤ length t.blob) typed is.filled in
    let shaped : elements t.shape ≡ k * size = elements-IsColumn c k t is in
    let long : length src ≡ elements t.shape * width =
      omega (arith, length-take (elements t.shape * width) t.blob, own, filled) in
    let total : width * ((k + total_rows rows) * size)
        ≡ length src + width * (total_rows rows * size) =
      omega (
        arith,
        ap (λ n. width * n) (add-mul k (total_rows rows) size),
        mul-add width (k * size) (total_rows rows * size),
        long,
        own,
        ap (λ n. width * n) shaped,
      ) in
    let more : length (pre ++ src) ≡ (offset + elements t.shape) * width =
      omega (arith, length-append pre src, long, h, add-mul offset (elements t.shape) width) in
    let left = width * (total_rows rows * size) in
    rw total (
      ap (fill width (offset + elements t.shape) ts) (
        ap (λ o. copy (pre ++ replicate (length src + left) 0) o src) (sym h)
        ∙ copy-append pre src left)
      ∙ fill-live c rows ts (offset + elements t.shape) (pre ++ src) all more
      ∙ append_assoc pre src (all_live ts)
      ∙ ap (λ l. pre ++ (l ++ all_live ts)) lives)

pub length-all_live :
    (c : Column) (rows : List ℕ) (ts : List Tensor)
    → AllColumn c rows ts
    → length (all_live ts) ≡ data_type_size c.config.type * (total_rows rows * product c.dims)
unfolding AllColumn total_rows all_live live
length-all_live c [] [] all = omega arith
length-all_live c [] (t ∷ ts) all = elim all [ ]
length-all_live c (k ∷ rows) [] all = elim all [ ]
length-all_live c (k ∷ rows) (t ∷ ts) (is, all) =
    let width = data_type_size c.config.type in
    let size = product c.dims in
    let typed = ap data_type_size is.typed in
    let shaped : elements t.shape ≡ k * size = elements-IsColumn c k t is in
    let own : data_type_size t.data_type * elements t.shape ≡ width * (k * size) =
      ap (λ w. w * elements t.shape) typed ∙ ap (λ n. width * n) shaped in
    omega (
      arith,
      own,
      is.filled,
      length-append (take (data_type_size t.data_type * elements t.shape) t.blob) (all_live ts),
      length-take (data_type_size t.data_type * elements t.shape) t.blob,
      length-all_live c rows ts all,
      ap (λ n. width * n) (add-mul k (total_rows rows) size),
      mul-add width (k * size) (total_rows rows * size),
    )

pub stride-rows :
    (c : Column) (rows : List ℕ) (ts : List Tensor)
    → AllColumn c rows ts
    → stride ts ≡ total_rows rows * product c.dims
unfolding AllColumn total_rows stride
stride-rows c [] [] all = omega arith
stride-rows c [] (t ∷ ts) all = elim all [ ]
stride-rows c (k ∷ rows) [] all = elim all [ ]
stride-rows c (k ∷ rows) (t ∷ ts) (is, all) = omega (
  arith,
  elements-IsColumn c k t is,
  stride-rows c rows ts all,
  add-mul k (total_rows rows) (product c.dims),
)

pub all_filled-true :
    (c : Column) (rows : List ℕ) (ts : List Tensor)
    → AllColumn c rows ts
    → all_filled (data_type_size c.config.type) ts ≡ true
unfolding AllColumn all_filled
all_filled-true c [] [] all = refl
all_filled-true c [] (t ∷ ts) all = elim all [ ]
all_filled-true c (k ∷ rows) [] all = elim all [ ]
all_filled-true c (k ∷ rows) (t ∷ ts) (is, all) =
    let width = data_type_size c.config.type in
    let n = elements t.shape in
    let filled : width * n ≤ length t.blob =
      subst (λ w. w * n ≤ length t.blob) (ap data_type_size is.typed) is.filled in
    let some_elements : 0 < n =
      subst (λ m. 0 < m) (sym (elements-IsColumn c k t is)) (mul-pos is.some_rows is.some_size) in
    let some_bytes : 0 < width * n = mul-pos (data_type_size-pos c.config.type) some_elements in
    rw (
      lt→ltb 0 (length t.blob) (omega (arith, filled, some_bytes)),
      le→leb (n * width) (length t.blob) (omega (arith, filled, mul_comm width n)),
      all_filled-true c rows ts all,
    )
