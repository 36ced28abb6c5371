-- ===== src/Feeder/Assemble/Split.antt =====
-- Split cuts every tensor of a sample at the same row and loses nothing.
use ddls.Prelude.{
  ℕ, zero, suc, ◌+◌, ◌-◌, ◌*◌, ◌/◌, ◌≤◌, ◌<◌, ◌≡◌, refl, sym, ap, ◌∙◌, subst, List, [], ◌∷◌, ◌++◌,
  some, true, ltb, leb, take, drop, length, take-take, take-add, length-take, length-drop, min,
  arith, map, le→leb, ◌^◌,
}
use native.Mathlib.Nat.{mul_comm, mul_assoc, mul-add, add-mul, mul-div_cancel_left, mul-pos}
use ddls.Message.Wire.{Byte}
use ddls.Feeder.Record.{
  data_type_size, Tensor, product, elements, has_blob, elements-product, has_blob-product,
}
use ddls.Feeder.Assemble.{
  Config, is_primary, Sample, live, split_tensor, split, curr_batch_size, rows_of,
}

-- What the tensors of one name have in common: the configuration and the dimensions but the first.
pub record Column : Type 0 where
  pub config : Config
  pub dims : List ℕ

pub record IsColumn (c : Column) (rows : ℕ) (t : Tensor) : Type 0 where
  pub typed : t.data_type ≡ c.config.type
  pub shaped : t.shape ≡ rows ∷ c.dims
  pub filled : data_type_size t.data_type * elements t.shape ≤ length t.blob
  pub some_rows : 0 < rows
  pub some_size : 0 < product c.dims
  pub small : rows * product c.dims < 2 ^ 31
  pub primary : is_primary c.config ≡ true

-- The elements of a tensor of a column, of which an int holds the count.
pub elements-rows :
    (dims : List ℕ) (rows : ℕ)
    → rows * product dims < 2 ^ 31
    → elements (rows ∷ dims) ≡ rows * product dims
unfolding product
elements-rows dims rows small = elements-product (rows ∷ dims) small

pub has_blob-rows :
    (dims : List ℕ) (rows : ℕ)
    → 0 < rows
    → 0 < product dims
    → rows * product dims < 2 ^ 31
    → has_blob (rows ∷ dims) ≡ true
unfolding product
has_blob-rows dims rows some_rows some_size small =
    has_blob-product (rows ∷ dims) (mul-pos some_rows some_size) small

pub elements-IsColumn :
    (c : Column) (rows : ℕ) (t : Tensor)
    → IsColumn c rows t
    → elements t.shape ≡ rows * product c.dims
elements-IsColumn c rows t is = ap elements is.shaped ∙ elements-rows c.dims rows is.small

-- A sample of so many rows in each column.
unfoldable pub Fits : List Column → ℕ → Sample → Type 0
Fits [] rows [] = Unit
Fits [] rows (t ∷ item) = ⊥
Fits (c ∷ cs) rows [] = ⊥
Fits (c ∷ cs) rows (t ∷ item) = IsColumn c rows t × Fits cs rows item

-- The elements of column j of a sample.
unfoldable pub live_at : ℕ → Sample → List Byte
live_at j [] = []
live_at zero (t ∷ item) = live t
live_at (suc j) (t ∷ item) = live_at j item

-- The row that a cut is at, in elements.
cut_at : (k rows size : ℕ) → 0 < rows → ((k + 1 - 1) * (rows * size)) / rows ≡ k * size
cut_at k rows size h =
    let here : k + 1 - 1 ≡ k = omega arith in
    let same : (k + 1 - 1) * (rows * size) ≡ rows * (k * size) =
      ap (λ n. n * (rows * size)) here
      ∙ sym (mul_assoc k rows size)
      ∙ ap (λ n. n * size) (mul_comm k rows)
      ∙ mul_assoc rows k size in
    ap (λ n. n / rows) same ∙ mul-div_cancel_left (k * size) h

cut :
    (c : Column) (k m : ℕ) (t : Tensor)
    → IsColumn c (k + m) t
    → t.shape ≡ (k + m) ∷ c.dims
    → 0 < k
    → 0 < m
    → (a : Tensor) × (b : Tensor) × (split_tensor k (record t { shape = (k + m) ∷ c.dims })
        ≡ some (a, b))
      × IsColumn c k a
      × IsColumn c m b
      × (live a ++ live b ≡ live t)
unfolding split_tensor live
cut c k m t is shaped k_pos m_pos =
    let width = data_type_size t.data_type in
    let size = product c.dims in
    let fits : leb k (k + m) ≡ true = ground arith in
    let some_rows : ltb 0 (k + m) ≡ true = ground (arith, k_pos) in
    let sum = add-mul k m size in
    let small = is.small in
    let k_small : k * size < 2 ^ 31 = omega (arith, sum, small) in
    let m_small : m * size < 2 ^ 31 = omega (arith, sum, small) in
    let all_of = elements-rows c.dims (k + m) small in
    let k_of = elements-rows c.dims k k_small in
    let m_of = elements-rows c.dims m m_small in
    let made = has_blob-rows c.dims m m_pos is.some_size m_small in
    let at = cut_at k (k + m) size (omega (arith, k_pos)) in
    let left : k + m + 1 - (k + 1) ≡ m = omega arith in
    let parts : width * (k * size) + width * (m * size) ≡ width * ((k + m) * size) =
      sym (mul-add width (k * size) (m * size)) ∙ sym (ap (◌*◌ width) sum) in
    let whole : width * ((k + m) * size) ≤ length t.blob =
      subst (λ n. width * n ≤ length t.blob) (elements-IsColumn c (k + m) t is) is.filled in
    let reads : leb (width * (k * size) + width * (m * size)) (length t.blob) ≡ true =
      le→leb (width * (k * size) + width * (m * size)) (length t.blob)
        (omega (arith, parts, whole)) in
    let tail_length =
      length-take (width * (m * size)) (drop (width * (k * size)) t.blob)
      ∙ ap (min (width * (m * size))) (length-drop (width * (k * size)) t.blob) in
    (
      record t { shape = k ∷ c.dims },
      record {
        data_type = t.data_type;
        shape = m ∷ c.dims;
        blob = take (width * (m * size)) (drop (width * (k * size)) t.blob);
      },
      rw (fits, some_rows, left, made, all_of, at, m_of, reads) refl,
      record {
        typed = is.typed;
        shaped = refl;
        filled = rw k_of (omega (arith, parts, whole));
        primary = is.primary;
        some_rows = k_pos;
        some_size = is.some_size;
        small = k_small;
      },
      record {
        typed = is.typed;
        shaped = refl;
        filled = rw m_of (omega (arith, parts, whole, tail_length));
        primary = is.primary;
        some_rows = m_pos;
        some_size = is.some_size;
        small = m_small;
      },
      rw (k_of, m_of)
          (ap (λ ys. take (width * (k * size)) t.blob ++ ys)
              (take-take (width * (m * size)) (drop (width * (k * size)) t.blob))
            ∙ take-add (width * (k * size)) (width * (m * size)) t.blob
            ∙ ap (λ n. take n t.blob)
                (parts ∙ sym (ap (λ n. width * n) (elements-IsColumn c (k + m) t is)))),
    )

-- Of a cut: both parts are there, with their rows, and together they have the elements.
abbrev IsCut : Column → ℕ → ℕ → Tensor → Type 0
IsCut c k m t =
    (a : Tensor) × (b : Tensor) × (split_tensor k t ≡ some (a, b))
    × IsColumn c k a
    × IsColumn c m b
    × (live a ++ live b ≡ live t)

split_tensor-live :
    (c : Column) (k m : ℕ) (t : Tensor) → IsColumn c (k + m) t → 0 < k → 0 < m → IsCut c k m t
split_tensor-live c k m t is k_pos m_pos =
    let (a, b, e, is_a, is_b, joined) = cut c k m t is is.shaped k_pos m_pos in
    (a, b, ap (λ d. split_tensor k (record t { shape = d })) is.shaped ∙ e, is_a, is_b, joined)

live_at-cons :
    (a b t : Tensor) (first second item : Sample)
    → live a ++ live b ≡ live t
    → ((j : ℕ) → live_at j first ++ live_at j second ≡ live_at j item)
    → (j : ℕ) → live_at j (a ∷ first) ++ live_at j (b ∷ second) ≡ live_at j (t ∷ item)
unfolding live_at
live_at-cons a b t first second item joined all zero = joined
live_at-cons a b t first second item joined all (suc j) = all j

-- Split of a sample in k and m rows.
pub split-live :
    (cs : List Column) (k m : ℕ) (item : Sample)
    → Fits cs (k + m) item
    → 0 < k
    → 0 < m
    → (first : Sample) × (second : Sample) × (split (map Column.config cs) item k
        ≡ some (first, second))
      × Fits cs k first
      × Fits cs m second
      × ((j : ℕ) → live_at j first ++ live_at j second ≡ live_at j item)
unfolding Fits live_at split
split-live [] k m [] fits k_pos m_pos = ([], [], refl, tt, tt, λ j. refl)
split-live [] k m (t ∷ item) fits k_pos m_pos = elim fits [ ]
split-live (c ∷ cs) k m [] fits k_pos m_pos = elim fits [ ]
split-live (c ∷ cs) k m (t ∷ item) (is, fits) k_pos m_pos =
    let (a, b, e, is_a, is_b, joined) = split_tensor-live c k m t is k_pos m_pos in
    let (first, second, e', fits_a, fits_b, all) = split-live cs k m item fits k_pos m_pos in
    (
      a ∷ first,
      b ∷ second,
      rw (is.primary, e, e') refl,
      (is_a, fits_a),
      (is_b, fits_b),
      live_at-cons a b t first second item joined all,
    )

pub curr_batch_size-Fits :
    (c : Column) (cs : List Column) (rows : ℕ) (item : Sample)
    → Fits (c ∷ cs) rows item
    → curr_batch_size (map Column.config (c ∷ cs)) item ≡ rows
unfolding Fits curr_batch_size rows_of
curr_batch_size-Fits c cs rows [] fits = elim fits [ ]
curr_batch_size-Fits c cs rows (t ∷ item) (is, fits) = rw (is.primary, is.shaped) refl
