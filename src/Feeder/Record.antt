-- ===== src/Feeder/Record.antt =====
-- WriteSample and ReadSampleAsArray of feeder/record_io.cc, on the bytes of the stream. The types of
-- the tensors are those of the header; a read past the end of the stream is `none`.
use ddls.Prelude.{
  ℕ, zero, suc, ◌*◌, ◌^◌, ◌<◌, ◌≡◌, refl, sym, ap, ◌∙◌, List, [], ◌∷◌, ◌++◌, Option, none, some,
  ◌>>=◌, ◌>>◌, check, ltb, ◌==◌, ==_refl, if◌then◌else◌, true, false, take, drop, length,
  length-map, length-append, take-append, drop-append, append_assoc, arith, All, map, lt→ltb, ◌%◌,
  Bool, ◌&&◌, subst,
}
use native.Mathlib.Nat.{mul-pos}
use ddls.Message.Wire.{Byte, to_bytes, of_bytes, length-to_bytes, of_bytes-to_bytes}

-- enum TensorDataType, and TensorDataTypeSize.
pub data DataType : Type 0 where
  uint32 uint64 float32 : DataType

unfoldable pub data_type_size : DataType → ℕ
data_type_size uint32 = 4
data_type_size uint64 = 8
data_type_size float32 = 4

pub data_type_size-pos : (type : DataType) → 0 < data_type_size type
unfolding data_type_size
data_type_size-pos uint32 = omega arith
data_type_size-pos uint64 = omega arith
data_type_size-pos float32 = omega arith

pub record Tensor : Type 0 where
  pub data_type : DataType
  pub shape : List ℕ
  pub blob : List Byte

unfoldable pub product : List ℕ → ℕ
product [] = 1
product (dim ∷ shape) = dim * product shape

-- The size that Reshape computes: a product of `int` and `uint32_t`, which wraps.
unfoldable pub elements : List ℕ → ℕ
elements shape = product shape % 2 ^ 32

-- Whether the constructor gives the tensor memory: not for no elements, and not for a size that is
-- negative as an int. Otherwise the blob is null, and the code that reads or fills it is `none`.
unfoldable pub has_blob : List ℕ → Bool
has_blob shape = ltb 0 (elements shape) && ltb (elements shape) (2 ^ 31)

unfoldable pub write_dims : List ℕ → List Byte
write_dims [] = []
write_dims (dim ∷ shape) = to_bytes 4 dim ++ write_dims shape

-- The body of the loop of WriteSample. No bytes stand for a null blob.
unfoldable pub write_tensor : Tensor → Option (List Byte)
write_tensor t =
    check (ltb 0 (length t.blob))
    >> some (to_bytes 1 (length t.shape) ++ (write_dims t.shape ++ t.blob))

unfoldable pub write_tensors : List Tensor → Option (List Byte)
write_tensors [] = some []
write_tensors (t ∷ sample) = do
  bytes ← write_tensor t
  rest ← write_tensors sample
  some (bytes ++ rest)

-- What is written of the tensors that are found for the names of the header.
unfoldable pub write_sample : List Tensor → Option (List Byte)
write_sample sample = do bytes ← write_tensors sample; some (to_bytes 2 (length sample) ++ bytes)

unfoldable pub read_block : ℕ → List Byte → Option (List Byte × List Byte)
read_block n stream = if ltb (length stream) n then none else some (take n stream, drop n stream)

unfoldable pub read_number : ℕ → List Byte → Option (ℕ × List Byte)
read_number w stream = do (bytes, rest) ← read_block w stream; some (of_bytes bytes, rest)

unfoldable pub read_dims : ℕ → List Byte → Option (List ℕ × List Byte)
read_dims zero stream = some ([], stream)
read_dims (suc n) stream = do
  (dim, rest) ← read_number 4 stream
  (shape, rest') ← read_dims n rest
  some (dim ∷ shape, rest')

-- The body of the loop of ReadSampleAsArray.
unfoldable pub read_tensor : DataType → List Byte → Option (Tensor × List Byte)
read_tensor type stream = do
  (dim_count, rest) ← read_number 1 stream
  (shape, rest') ← read_dims dim_count rest
  check (has_blob shape)
  (blob, rest'') ← read_block (data_type_size type * elements shape) rest'
  some (record { data_type = type; shape = shape; blob = blob }, rest'')

unfoldable pub read_tensors : List DataType → List Byte → Option (List Tensor × List Byte)
read_tensors [] stream = some ([], stream)
read_tensors (type ∷ types) stream = do
  (t, rest) ← read_tensor type stream
  (sample, rest') ← read_tensors types rest
  some (t ∷ sample, rest')

unfoldable pub read_sample : List DataType → List Byte → Option (List Tensor × List Byte)
read_sample types stream = do
  (count, rest) ← read_number 2 stream
  check (count == length types)
  read_tensors types rest

pub elements-product : (shape : List ℕ) → product shape < 2 ^ 31 → elements shape ≡ product shape
unfolding elements
elements-product shape small = omega arith

pub has_blob-product :
    (shape : List ℕ) → 0 < product shape → product shape < 2 ^ 31 → has_blob shape ≡ true
unfolding has_blob
has_blob-product shape pos small = ground (arith, elements-product shape small)

-- A tensor that its constructor can make and the format can hold.
pub record IsTensor (t : Tensor) : Type 0 where
  pub rank : length t.shape < 256 ^ 1
  pub dims : All (λ dim. dim < 256 ^ 4) t.shape
  pub made : has_blob t.shape ≡ true
  pub filled : length t.blob ≡ data_type_size t.data_type * elements t.shape

pub read_block-append :
    (n : ℕ) (xs rest : List Byte) → length xs ≡ n → read_block n (xs ++ rest) ≡ some (xs, rest)
unfolding read_block
read_block-append n xs rest h =
    let fits : ltb (length (xs ++ rest)) n ≡ false = ground (arith, length-append xs rest, h) in
    let front : take n (xs ++ rest) ≡ xs =
      ap (λ k. take k (xs ++ rest)) (sym h) ∙ take-append xs rest in
    let back : drop n (xs ++ rest) ≡ rest =
      ap (λ k. drop k (xs ++ rest)) (sym h) ∙ drop-append xs rest in
    rw (fits, front, back)

pub read_number-to_bytes :
    (w n : ℕ) (rest : List Byte)
    → n < 256 ^ w
    → read_number w (to_bytes w n ++ rest) ≡ some (n, rest)
unfolding read_number
read_number-to_bytes w n rest small =
    rw (read_block-append w (to_bytes w n) rest (length-to_bytes w n), of_bytes-to_bytes w n small)

read_dims-write_dims :
    (shape : List ℕ) (rest : List Byte)
    → All (λ dim. dim < 256 ^ 4) shape
    → read_dims (length shape) (write_dims shape ++ rest) ≡ some (shape, rest)
unfolding read_dims write_dims
read_dims-write_dims [] rest all = refl
read_dims-write_dims (dim ∷ shape) rest all = rw (
  append_assoc (to_bytes 4 dim) (write_dims shape) rest,
  read_number-to_bytes 4 dim (write_dims shape ++ rest) all.0,
  read_dims-write_dims shape rest all.1,
)

-- The blob of such a tensor is not null.
blob-pos : (t : Tensor) → IsTensor t → 0 < length t.blob
unfolding has_blob
blob-pos t h =
    let some_elements : 0 < elements t.shape = let made = h.made in ground (arith, made) in
    size-pos t.data_type (elements t.shape) (length t.blob) some_elements h.filled
  where
    size-pos : (type : DataType) (n len : ℕ) → 0 < n → len ≡ data_type_size type * n → 0 < len
    size-pos type n len pos e = subst (λ l. 0 < l) (sym e) (mul-pos (data_type_size-pos type) pos)

read_tensor-write_tensor :
    (t : Tensor) (rest : List Byte)
    → IsTensor t
    → (bytes : List Byte) × (write_tensor t ≡ some bytes)
      × (read_tensor t.data_type (bytes ++ rest) ≡ some (t, rest))
unfolding read_tensor write_tensor
read_tensor-write_tensor t rest h = (
  to_bytes 1 (length t.shape) ++ (write_dims t.shape ++ t.blob),
  rw (lt→ltb 0 (length t.blob) (blob-pos t h)) refl,
  rw (
    append_assoc (to_bytes 1 (length t.shape)) (write_dims t.shape ++ t.blob) rest,
    append_assoc (write_dims t.shape) t.blob rest,
    read_number-to_bytes 1 (length t.shape) (write_dims t.shape ++ (t.blob ++ rest)) h.rank,
    read_dims-write_dims t.shape (t.blob ++ rest) h.dims,
    h.made,
    read_block-append (data_type_size t.data_type * elements t.shape) t.blob rest h.filled,
  ),
)

read_tensors-write_tensors :
    (sample : List Tensor) (rest : List Byte)
    → All IsTensor sample
    → (bytes : List Byte) × (write_tensors sample ≡ some bytes)
      × (read_tensors (map Tensor.data_type sample) (bytes ++ rest) ≡ some (sample, rest))
unfolding read_tensors write_tensors
read_tensors-write_tensors [] rest all = ([], refl, refl)
read_tensors-write_tensors (t ∷ sample) rest all =
    let (behind, e, e') = read_tensors-write_tensors sample rest all.1 in
    let (bytes, f, f') = read_tensor-write_tensor t (behind ++ rest) all.0 in
    (bytes ++ behind, rw (f, e) refl, rw (append_assoc bytes behind rest, f', e') refl)

-- A sample of fewer than 2^16 tensors, each of a shape that Reshape makes memory for, with its blob
-- full, fewer than 256 dimensions and each dimension below 2^32, is written, and is read back as it
-- was, with the stream left behind it.
pub read_sample-write_sample :
    (sample : List Tensor) (rest : List Byte)
    → length sample < 256 ^ 2
    → All IsTensor sample
    → (bytes : List Byte) × (write_sample sample ≡ some bytes)
      × (read_sample (map Tensor.data_type sample) (bytes ++ rest) ≡ some (sample, rest))
unfolding read_sample write_sample
read_sample-write_sample sample rest small all =
    let (bytes, e, e') = read_tensors-write_tensors sample rest all in
    (
      to_bytes 2 (length sample) ++ bytes,
      rw e refl,
      rw (
        append_assoc (to_bytes 2 (length sample)) bytes rest,
        read_number-to_bytes 2 (length sample) (bytes ++ rest) small,
        length-map sample Tensor.data_type,
        ==_refl (length sample),
        e',
      ),
    )
