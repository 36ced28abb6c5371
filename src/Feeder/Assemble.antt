-- ===== src/Feeder/Assemble.antt =====
-- How the feeder makes a batch: ReadBatchTensor, BatchTensor2Batch and AssembleBatch of
-- feeder/feeder.cc and Split of feeder/record_io.cc. The record files are those without aux numbers;
-- a file with one is `none`, as is what the code reads out of bounds.
pub mod Split
pub mod Read
pub mod Merge
pub mod Batches
use ddls.Prelude.{
  ℕ, zero, suc, ◌+◌, ◌-◌, ◌*◌, ◌/◌, ◌%◌, ◌^◌, List, [], ◌∷◌, ◌++◌, Option, none, some, Bool, true,
  false, ◌&&◌, ◌||◌, not, ◌>>=◌, ◌>>◌, check, ltb, leb, ◌==◌, if◌then◌else◌, take, drop, length,
  get_or, get_elem?, replicate,
}
use ddls.Message.Wire.{Byte}
use ddls.Feeder.Record.{DataType, data_type_size, Tensor, elements, has_blob}

-- ItemConfig
pub record Config : Type 0 where
  pub type : DataType
  pub level : ℕ
  pub is_aux_number : Bool

unfoldable pub is_primary : Config → Bool
is_primary c = (c.level == 0) && not c.is_aux_number

abbrev pub Sample : Type 0
Sample = List Tensor

-- The bytes that the shape of a tensor says are its elements'.
unfoldable pub live : Tensor → List Byte
live t = take (data_type_size t.data_type * elements t.shape) t.blob

-- A tensor cut before row `split_size`; the first part keeps its memory.
unfoldable pub split_tensor : ℕ → Tensor → Option (Tensor × Tensor)
split_tensor split_size t = elim t.shape [
  | [] ↦ none
  | rows ∷ dims ↦
      let second_bottom = split_size + 1 in
      let new_shape = (rows + 1 - second_bottom) ∷ dims in
      let type_size = data_type_size t.data_type in
      let from = ((second_bottom - 1) * elements (rows ∷ dims)) / rows in
      check (ltb 0 rows && leb split_size rows)
      >> check (has_blob new_shape)
      >> check (leb (type_size * from + type_size * elements new_shape) (length t.blob))
      >> some (
        record t { shape = split_size ∷ dims },
        record {
          data_type = t.data_type;
          shape = new_shape;
          blob = take (type_size * elements new_shape) (drop (type_size * from) t.blob);
        },
      )
]

unfoldable pub split : List Config → Sample → ℕ → Option (Sample × Sample)
split [] [] split_size = some ([], [])
split [] (t ∷ raw) split_size = none
split (c ∷ cs) [] split_size = some ([], [])
split (c ∷ cs) (t ∷ raw) split_size = do
  check (is_primary c)
  (a, b) ← split_tensor split_size t
  (first, second) ← split cs raw split_size
  some (a ∷ first, b ∷ second)

unfoldable pub rows_of : Tensor → ℕ
rows_of t = get_or t.shape 0 0

-- The rows of the first primary tensor.
unfoldable pub curr_batch_size : List Config → Sample → ℕ
curr_batch_size [] item = 0
curr_batch_size (c ∷ cs) [] = 0
curr_batch_size (c ∷ cs) (t ∷ item) = if is_primary c then rows_of t else curr_batch_size cs item

-- What ReadBatchTensor leaves: the batch, the cache and the samples that are not read.
pub record Reading : Type 0 where
  pub batch : List Sample
  pub cache : List Sample
  pub unread : List Sample

-- The loop of ReadBatchTensor and what follows it, once the cache is empty.
unfoldable pub read_unread : List Config → ℕ → List Sample → Option Reading
read_unread cs zero unread = some (record { batch = []; cache = []; unread = unread })
read_unread cs (suc n) [] = none
read_unread cs (suc n) (item ∷ unread) =
    let more = read_unread cs (suc n - curr_batch_size cs item) unread in
    if ltb (suc n) (curr_batch_size cs item)
    then (do
      (a, b) ← split cs item (suc n)
      some (record { batch = a ∷ []; cache = b ∷ []; unread = unread }))
    else (do r ← more; some (record r { batch = item ∷ r.batch }))

unfoldable pub read_batch : List Config → ℕ → List Sample → List Sample → Option Reading
read_batch cs n [] unread = read_unread cs n unread
read_batch cs zero (item ∷ cache) unread =
    some (record { batch = []; cache = item ∷ cache; unread = unread })
read_batch cs (suc n) (item ∷ cache) unread =
    let more = read_batch cs (suc n - curr_batch_size cs item) cache unread in
    if ltb (suc n) (curr_batch_size cs item)
    then (do
      (a, b) ← split cs item (suc n)
      some (record { batch = a ∷ []; cache = cache ++ b ∷ []; unread = unread }))
    else (do r ← more; some (record r { batch = item ∷ r.batch }))

-- batch_tensor[row][col] for every row.
unfoldable pub column : ℕ → List Sample → Option (List Tensor)
column col [] = some []
column col (item ∷ batch) = do t ← get_elem? item col; ts ← column col batch; some (t ∷ ts)

unfoldable pub same_dims : List ℕ → List ℕ → Bool
same_dims [] [] = true
same_dims [] (b ∷ bs) = false
same_dims (a ∷ rest) [] = false
same_dims (a ∷ rest) (b ∷ bs) = (a == b) && same_dims rest bs

unfoldable pub merged_shape : List ℕ → List Tensor → Option (List ℕ)
merged_shape shape [] = some shape
merged_shape [] (t ∷ ts) = none
merged_shape (rows ∷ dims) (t ∷ ts) = elim t.shape [
  | [] ↦ none
  | more ∷ dims' ↦ check (same_dims dims dims') >> merged_shape ((rows + more) % 2 ^ 32 ∷ dims) ts
]

-- memcpy into a buffer.
unfoldable pub copy : List Byte → ℕ → List Byte → List Byte
copy dst offset src = take offset dst ++ (src ++ drop (offset + length src) dst)

unfoldable pub fill : ℕ → ℕ → List Tensor → List Byte → List Byte
fill type_size offset [] dst = dst
fill type_size offset (t ∷ ts) dst =
    fill type_size (offset + elements t.shape) ts
      (copy dst (offset * type_size) (take (elements t.shape * type_size) t.blob))

-- `stride` after its loop: the elements of all the tensors.
unfoldable pub stride : List Tensor → ℕ
stride [] = 0
stride (t ∷ ts) = elements t.shape + stride ts

-- Whether the blob of each tensor is there and has what its shape says.
unfoldable pub all_filled : ℕ → List Tensor → Bool
all_filled type_size [] = true
all_filled type_size (t ∷ ts) =
    (ltb 0 (length t.blob) && leb (elements t.shape * type_size) (length t.blob))
    && all_filled type_size ts

-- One column of BatchTensor2Batch. The result has memory for what is copied into it.
unfoldable pub merge : DataType → List Tensor → Option Tensor
merge type [] = none
merge type (t ∷ ts) = do
  shape ← merged_shape t.shape ts
  check (has_blob shape)
  check (all_filled (data_type_size type) (t ∷ ts))
  check (leb (stride (t ∷ ts)) (elements shape))
  some (record {
    data_type = type;
    shape = shape;
    blob =
        fill (data_type_size type) 0 (t ∷ ts) (replicate (data_type_size type * elements shape) 0);
  })

unfoldable pub merge_from : List Config → ℕ → List Sample → Option Sample
merge_from [] col batch = some []
merge_from (c ∷ cs) col batch = do
  ts ← column col batch
  t ← merge c.type ts
  rest ← merge_from cs (col + 1) batch
  some (t ∷ rest)

-- AssembleBatch: the tensors of the batch, the cache and the samples that are not read.
unfoldable pub assemble_batch :
    List Config → ℕ → List Sample → List Sample → Option (Sample × List Sample × List Sample)
assemble_batch cs batch_size cache unread = do
  r ← read_batch cs batch_size cache unread
  tensors ← merge_from cs 0 r.batch
  some (tensors, r.cache, r.unread)
