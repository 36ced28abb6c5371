-- ===== src/Feeder/Header.antt =====
-- The header of a record file: WriteHeader, ReadHeader and WriteFinalize of feeder/record_io.cc, and
-- the count of samples that WriteSample keeps. A read past the end of the file is `none`.
pub mod Laws
mod Tests
use ddls.Prelude.{
  ℕ, zero, suc, ◌+◌, ◌-◌, ◌≡◌, List, [], ◌∷◌, ◌++◌, Option, none, some, Bool, true, false, ◌==◌,
  if◌then◌else◌, ◌>>=◌, ◌>>◌, check, take, drop, length, get_elem?, ◌&&◌,
}
use ddls.Message.Wire.{Byte, to_bytes, of_bytes}
use ddls.Common.Configure.{Register, get_value}
use ddls.Feeder.Record.{Tensor, read_block, read_number, write_sample}

-- kTensorNameLen
abbrev pub name_len : ℕ
name_len = 32

-- A name and its ItemConfig.
pub record Item : Type 0 where
  pub name : List Byte
  pub type : ℕ
  pub level : ℕ
  pub is_aux_number : ℕ

pub record Header : Type 0 where
  pub version : ℕ
  pub sample_count : ℕ
  pub items : List Item

-- A character that begins a conversion.
abbrev pub percent : Byte
percent = 37

unfoldable pub is_plain : List Byte → Bool
is_plain [] = true
is_plain (c ∷ name) = if c == percent then false else is_plain name

-- snprintf(buf, kTensorNameLen, name): what is behind the end of the name stays. The name is the
-- format, so that a conversion in it has no argument: `none`.
unfoldable pub print_name : List Byte → List Byte → Option (List Byte)
print_name name buf =
    check (is_plain name)
    >> some (take (name_len - 1) name ++ (0 ∷ drop (length (take (name_len - 1) name) + 1) buf))

-- The string that begins a buffer.
unfoldable pub c_string : List Byte → Option (List Byte)
c_string [] = none
c_string (c ∷ buf) =
    let more = c_string buf in if c == 0 then some [] else (do rest ← more; some (c ∷ rest))

unfoldable pub write_config : Item → List Byte
write_config i = to_bytes 1 i.type ++ (to_bytes 4 i.level ++ to_bytes 1 i.is_aux_number)

-- The loop of WriteHeader, with the buffer of the names.
unfoldable pub write_items : List Byte → List Item → Option (List Byte)
write_items buf [] = some []
write_items buf (i ∷ items) = do
  buf' ← print_name i.name buf
  rest ← write_items buf' items
  some (buf' ++ (write_config i ++ rest))

unfoldable pub write_header : List Byte → Header → Option (List Byte)
write_header buf h = do
  items ← write_items buf h.items
  some (
      to_bytes 4 h.version ++ (to_bytes 8 h.sample_count ++ (to_bytes 2 (length h.items) ++ items)))

unfoldable pub read_items : ℕ → List Byte → Option (List Item × List Byte)
read_items zero stream = some ([], stream)
read_items (suc n) stream = do
  (buf, s₁) ← read_block name_len stream
  name ← c_string buf
  (type, s₂) ← read_number 1 s₁
  (level, s₃) ← read_number 4 s₂
  (is_aux_number, s₄) ← read_number 1 s₃
  (items, rest) ← read_items n s₄
  some (
    record { name = name; type = type; level = level; is_aux_number = is_aux_number } ∷ items,
    rest,
  )

unfoldable pub read_header : List Byte → Option (Header × List Byte)
read_header stream = do
  (version, s₁) ← read_number 4 stream
  (sample_count, s₂) ← read_number 8 s₁
  (tensor_count, s₃) ← read_number 2 s₂
  (items, rest) ← read_items tensor_count s₃
  some (record { version = version; sample_count = sample_count; items = items }, rest)

-- `batch_size` after the tensor of an item: a primary one has the rows, shape()[0].
unfoldable pub rows_after : Item → Tensor → ℕ → Option ℕ
rows_after i t batch_size =
    if (i.level == 0) && (i.is_aux_number == 0) then get_elem? t.shape 0 else some batch_size

-- What WriteSample adds to sample_count_: the rows of the last primary tensor, or one.
unfoldable pub sample_rows : ℕ → List Item → List Tensor → Option ℕ
sample_rows batch_size [] sample = some batch_size
sample_rows batch_size (i ∷ items) [] = none
sample_rows batch_size (i ∷ items) (t ∷ sample) = do
  next ← rows_after i t batch_size
  sample_rows next items sample

-- The tensors of a sample, which is a map by name, in the order of the names; the CHECK that each
-- name has one.
unfoldable pub tensors_of : List Item → Register Tensor → Option (List Tensor)
tensors_of [] sample = some []
tensors_of (i ∷ items) sample = do
  t ← get_value i.name sample
  ts ← tensors_of items sample
  some (t ∷ ts)

-- Calls of WriteSample: the bytes and the count.
unfoldable pub write_samples : List Item → List (Register Tensor) → ℕ → Option (List Byte × ℕ)
write_samples items [] sample_count = some ([], sample_count)
write_samples items (sample ∷ samples) sample_count = do
  tensors ← tensors_of items sample
  rows ← sample_rows 1 items tensors
  bytes ← write_sample tensors
  (rest, count) ← write_samples items samples (sample_count + rows)
  some (bytes ++ rest, count)

-- Seek behind the version, and a write of the count.
unfoldable pub write_finalize : ℕ → List Byte → List Byte
write_finalize sample_count file = take 4 file ++ (to_bytes 8 sample_count ++ drop 12 file)

-- A file: WriteHeader, WriteSample for each sample, and WriteFinalize.
unfoldable pub write_file : List Byte → ℕ → List Item → List (Register Tensor) → Option (List Byte)
write_file buf version items samples = do
  header ← write_header buf (record { version = version; sample_count = 0; items = items })
  (body, count) ← write_samples items samples 0
  some (write_finalize count (header ++ body))
