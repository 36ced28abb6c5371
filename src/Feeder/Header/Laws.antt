-- ===== src/Feeder/Header/Laws.antt =====
-- The header of a finished file is read back.
use ddls.Prelude.{
  ℕ, ◌+◌, ◌-◌, ◌^◌, ◌≡◌, ◌≢◌, ◌<◌, refl, sym, ap, ◌∙◌, List, [], ◌∷◌, ◌++◌, some, true, ==_ne, take,
  drop, drop-add, length, length-append, length-drop, take-short, take-append, drop-append,
  append_assoc, All, arith, ◌==◌, ◌&&◌, Bool-cases, inl, inr, get_elem?, lt→ltb,
}
use ddls.Message.Wire.{Byte, to_bytes, length-to_bytes}
use ddls.Common.Configure.{Register, get_value}
use ddls.Feeder.Record.{
  Tensor, write_dims, write_tensor, write_tensors, write_sample, read_block-append,
  read_number-to_bytes,
}
use ddls.Feeder.Header.{
  Item, name_len, is_plain, print_name, c_string, write_config, write_items, write_header,
  read_items, read_header, rows_after, sample_rows, tensors_of, write_samples, write_finalize,
  write_file,
}

-- An item that the format can hold: the name is shorter than the buffer, with no zero and no `%`.
pub record IsItem (i : Item) : Type 0 where
  pub named : length i.name < name_len
  pub text : All (λ c. c ≢ 0) i.name
  pub plain : is_plain i.name ≡ true
  pub typed : i.type < 256 ^ 1
  pub leveled : i.level < 256 ^ 4
  pub aux : i.is_aux_number < 256 ^ 1

c_string-append :
    (name rest : List Byte) → All (λ c. c ≢ 0) name → c_string (name ++ (0 ∷ rest)) ≡ some name
unfolding c_string
c_string-append [] rest all = refl
c_string-append (c ∷ name) rest all = rw (==_ne c 0 all.0, c_string-append name rest all.1) refl

-- The buffer of a name.
name_buffer : List Byte → List Byte → List Byte
name_buffer name buf = name ++ (0 ∷ drop (length name + 1) buf)

length-name_buffer :
    (name buf : List Byte)
    → length name < name_len
    → length buf ≡ name_len
    → length (name_buffer name buf) ≡ name_len
unfolding name_buffer
length-name_buffer name buf short full = omega (
  arith,
  short,
  full,
  length-append name (0 ∷ drop (length name + 1) buf),
  length-drop (length name + 1) buf,
)

print_name-name_buffer :
    (i : Item) (buf : List Byte) → IsItem i → print_name i.name buf ≡ some (name_buffer i.name buf)
unfolding print_name name_buffer
print_name-name_buffer i buf is =
    let whole = take-short (name_len - 1) i.name (omega (arith, is.named)) in
    rw (is.plain, whole) refl

c_string-name_buffer :
    (i : Item) (buf : List Byte) → IsItem i → c_string (name_buffer i.name buf) ≡ some i.name
unfolding name_buffer
c_string-name_buffer i buf is = c_string-append i.name (drop (length i.name + 1) buf) is.text

write_items-read_items :
    (buf : List Byte) (items : List Item) (rest : List Byte)
    → length buf ≡ name_len
    → All IsItem items
    → (bytes : List Byte) × (write_items buf items ≡ some bytes)
      × (read_items (length items) (bytes ++ rest) ≡ some (items, rest))
unfolding write_items read_items write_config
write_items-read_items buf [] rest full all = ([], refl, refl)
write_items-read_items buf (i ∷ items) rest full (is, all) =
    let named = name_buffer i.name buf in
    let long = length-name_buffer i.name buf is.named full in
    let (bytes, e, e') = write_items-read_items named items rest long all in
    let flag = to_bytes 1 i.is_aux_number in
    let level = to_bytes 4 i.level in
    let config = to_bytes 1 i.type ++ (to_bytes 4 i.level ++ to_bytes 1 i.is_aux_number) in
    (
      named ++ (config ++ bytes),
      rw (print_name-name_buffer i buf is, e) refl,
      rw
          (
            append_assoc named (config ++ bytes) rest,
            read_block-append name_len named ((config ++ bytes) ++ rest) long,
            c_string-name_buffer i buf is,
            append_assoc config bytes rest,
            append_assoc (to_bytes 1 i.type) (level ++ flag) (bytes ++ rest),
            append_assoc level flag (bytes ++ rest),
            read_number-to_bytes 1 i.type (level ++ (flag ++ (bytes ++ rest))) is.typed,
            read_number-to_bytes 4 i.level (flag ++ (bytes ++ rest)) is.leveled,
            read_number-to_bytes 1 i.is_aux_number (bytes ++ rest) is.aux,
            e',
          )
          refl,
    )

-- The count that is written over.
write_finalize-append :
    (version old count : ℕ) (rest : List Byte)
    → write_finalize count (to_bytes 4 version ++ (to_bytes 8 old ++ rest))
      ≡ to_bytes 4 version ++ (to_bytes 8 count ++ rest)
unfolding write_finalize
write_finalize-append version old count rest =
    let v = to_bytes 4 version in
    let o = to_bytes 8 old in
    let front : take 4 (v ++ (o ++ rest)) ≡ v =
      ap (λ n. take n (v ++ (o ++ rest))) (sym (length-to_bytes 4 version))
      ∙ take-append v (o ++ rest) in
    let behind : drop 4 (v ++ (o ++ rest)) ≡ o ++ rest =
      ap (λ n. drop n (v ++ (o ++ rest))) (sym (length-to_bytes 4 version))
      ∙ drop-append v (o ++ rest) in
    let back : drop 12 (v ++ (o ++ rest)) ≡ rest =
      drop-add 4 8 (v ++ (o ++ rest))
      ∙ ap (drop 8) behind
      ∙ ap (λ n. drop n (o ++ rest)) (sym (length-to_bytes 8 old))
      ∙ drop-append o rest in
    rw (front, back) refl

-- A sample that WriteSample takes: each name has a tensor with memory, and a primary tensor has a
-- first dimension.
abbrev pub IsSample : List Item → Register Tensor → Type 0
IsSample items sample =
    All
      (λ i.
        (t : Tensor) × (get_value i.name sample ≡ some t)
        × (0 < length t.blob)
        × (i.level ≡ 0 → i.is_aux_number ≡ 0 → 0 < length t.shape))
      items

first_dim : (shape : List ℕ) → 0 < length shape → (rows : ℕ) × (get_elem? shape 0 ≡ some rows)
first_dim [] h = absurd (omega arith)
first_dim (rows ∷ dims) h = (rows, refl)

rows_after-some :
    (i : Item) (t : Tensor) (batch_size : ℕ)
    → (i.level ≡ 0 → i.is_aux_number ≡ 0 → 0 < length t.shape)
    → (n : ℕ) × (rows_after i t batch_size ≡ some n)
unfolding rows_after
rows_after-some i t batch_size primary =
    elim (Bool-cases ((i.level == 0) && (i.is_aux_number == 0))) [
      | inl e ↦
          let level : i.level ≡ 0 = ground (arith, e) in
          let aux : i.is_aux_number ≡ 0 = ground (arith, e) in
          let (rows, first) = first_dim t.shape (primary level aux) in (rows, rw (e, first) refl)
      | inr e ↦ (batch_size, rw e refl)
    ]

tensors_of-some :
    (items : List Item) (sample : Register Tensor) (batch_size : ℕ)
    → IsSample items sample
    → (ts : List Tensor) × (rows : ℕ) × (bytes : List Byte) × (tensors_of items sample ≡ some ts)
      × (sample_rows batch_size items ts ≡ some rows)
      × (write_tensors ts ≡ some bytes)
unfolding tensors_of sample_rows write_tensors write_tensor
tensors_of-some [] sample batch_size is = ([], batch_size, [], refl, refl, refl)
tensors_of-some (i ∷ items) sample batch_size ((t, found, blob, primary), is) =
    let (n, after) = rows_after-some i t batch_size primary in
    let (ts, rows, bytes, e, e', e'') = tensors_of-some items sample n is in
    (
      t ∷ ts,
      rows,
      (to_bytes 1 (length t.shape) ++ (write_dims t.shape ++ t.blob)) ++ bytes,
      rw (found, e) refl,
      rw (after, e') refl,
      rw (lt→ltb 0 (length t.blob) blob, e'') refl,
    )

write_samples-some :
    (items : List Item) (samples : List (Register Tensor)) (start : ℕ)
    → All (IsSample items) samples
    → (body : List Byte) × (count : ℕ) × (write_samples items samples start ≡ some (body, count))
unfolding write_samples write_sample
write_samples-some items [] start all = ([], start, refl)
write_samples-some items (sample ∷ samples) start (is, all) =
    let (ts, rows, bytes, e, e', e'') = tensors_of-some items sample 1 is in
    let (body, count, rest) = write_samples-some items samples (start + rows) all in
    ((to_bytes 2 (length ts) ++ bytes) ++ body, count, rw (e, e', e'', rest) refl)

-- Where the buffer has its size, fewer than 2^16 items each have a name of at most 31 characters with
-- no zero and no `%`, every sample has for each name a tensor with memory, and with a first dimension
-- if it is primary, and the numbers fit their widths: the samples and the finished file are written,
-- and reading its header gives the version, the count of all the samples and the items, and leaves
-- the samples.
pub read_header-write_file :
    (buf : List Byte) (version : ℕ) (items : List Item) (samples : List (Register Tensor))
    → length buf ≡ name_len
    → version < 256 ^ 4
    → length items < 256 ^ 2
    → All IsItem items
    → All (IsSample items) samples
    → ((body : List Byte) (count : ℕ)
        → write_samples items samples 0 ≡ some (body, count)
        → count < 256 ^ 8)
    → (body : List Byte) × (count : ℕ) × (file : List Byte) × (write_samples items samples 0
        ≡ some (body, count))
      × (write_file buf version items samples ≡ some file)
      × (read_header file
          ≡ some (record { version = version; sample_count = count; items = items }, body))
unfolding write_file write_header read_header
read_header-write_file buf version items samples full v_fits items_fit all complete count_fits =
    let (body, count, written) = write_samples-some items samples 0 complete in
    let (bytes, e, e') = write_items-read_items buf items body full all in
    let number = to_bytes 2 (length items) in
    let tail = number ++ (bytes ++ body) in
    (
      body,
      count,
      to_bytes 4 version ++ (to_bytes 8 count ++ tail),
      written,
      rw
          (
            e,
            written,
            append_assoc (to_bytes 4 version) (to_bytes 8 0 ++ (number ++ bytes)) body,
            append_assoc (to_bytes 8 0) (number ++ bytes) body,
            append_assoc number bytes body,
            write_finalize-append version 0 count tail,
          )
          refl,
      rw
          (
            read_number-to_bytes 4 version (to_bytes 8 count ++ tail) v_fits,
            read_number-to_bytes 8 count tail (count_fits body count written),
            read_number-to_bytes 2 (length items) (bytes ++ body) items_fit,
            e',
          )
          refl,
    )
