-- ===== src/Feeder/Header/Tests.antt =====
-- A file of one column "id" with one sample of two rows.
use ddls.Prelude.{ℕ, ◌≡◌, ◌<◌, ◌^◌, refl, List, [], ◌∷◌, some, replicate, All, arith}
use ddls.Message.Wire.{Byte, to_bytes}
use ddls.Common.Configure.{Register, get_value, same_text}
use ddls.Feeder.Record.{uint32, Tensor, write_dims, write_tensor, write_tensors, write_sample}
use ddls.Feeder.Header.{
  Item, write_file, read_header, write_samples, sample_rows, rows_after, tensors_of, is_plain,
}
use ddls.Feeder.Header.Laws.{IsItem, IsSample, read_header-write_file}

abbrev items : List Item
items = record { name = 105 ∷ 100 ∷ []; type = 0; level = 0; is_aux_number = 0 } ∷ []

abbrev rows : Tensor
rows = record { data_type = uint32; shape = 2 ∷ []; blob = replicate 8 7 }

abbrev samples : List (Register Tensor)
samples = ((105 ∷ 100 ∷ [], rows) ∷ []) ∷ []

abbrev written : List Byte
written = 1 ∷ 0 ∷ 1 ∷ 2 ∷ 0 ∷ 0 ∷ 0 ∷ replicate 8 7

abbrev buf : List Byte
buf = replicate 32 9

two_rows : write_samples items samples 0 ≡ some (written, 2)
unfolding write_samples sample_rows rows_after tensors_of get_value write_sample write_tensors
    write_tensor write_dims to_bytes same_text
two_rows = refl

samples-IsSample : All (IsSample items) samples
unfolding get_value same_text
samples-IsSample = (((rows, refl, omega arith, λ level aux. omega arith), tt), tt)

items-IsItem : All IsItem items
unfolding is_plain
items-IsItem = (
  record {
    named = omega arith;
    text = (omega arith, (omega arith, tt));
    plain = refl;
    typed = omega arith;
    leveled = omega arith;
    aux = omega arith;
  },
  tt,
)

count_fits :
    (body : List Byte) (count : ℕ)
    → write_samples items samples 0 ≡ some (body, count)
    → count < 256 ^ 8
count_fits body count h = ground (arith, two_rows, h)

read_header-write_file_example :
    (body : List Byte) × (count : ℕ) × (file : List Byte) × (write_samples items samples 0
      ≡ some (body, count))
    × (write_file buf 1 items samples ≡ some file)
    × (read_header file ≡ some (record { version = 1; sample_count = count; items = items }, body))
read_header-write_file_example =
    read_header-write_file buf 1 items samples refl (omega arith) (omega arith) items-IsItem
      samples-IsSample count_fits
