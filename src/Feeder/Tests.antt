-- ===== src/Feeder/Tests.antt =====
-- A tensor of ids in which one comes twice, and rows of 2, 0 and 1 entries.
use ddls.Prelude.{List, ℕ, ◌++◌, arith, ◌≡◌, refl, [], ◌∷◌, some, get_elem?, get_or, length, map}
use ddls.Feeder.Ids.{id2uniq_id, id2uniq_id-named, add_ids, add_id, find_id}
use ddls.Message.Wire.{Byte}
use ddls.Feeder.Record.{
  Tensor, uint32, IsTensor, data_type_size, elements, product, has_blob, read_sample, write_sample,
  read_sample-write_sample,
}
use ddls.Feeder.Indices.{num2indices, num2indices-count, occurrences, total, indices_from}

id2uniq_id-named_example :
    (map (get_elem? (id2uniq_id (7 ∷ 9 ∷ 7 ∷ [])).0) (id2uniq_id (7 ∷ 9 ∷ 7 ∷ [])).1
      ≡ some 7 ∷ some 9 ∷ some 7 ∷ [])
    × ((i j id : ℕ)
        → get_elem? (id2uniq_id (7 ∷ 9 ∷ 7 ∷ [])).0 i ≡ some id
        → get_elem? (id2uniq_id (7 ∷ 9 ∷ 7 ∷ [])).0 j ≡ some id
        → i ≡ j)
id2uniq_id-named_example = id2uniq_id-named (7 ∷ 9 ∷ 7 ∷ [])

seven_twice : id2uniq_id (7 ∷ 9 ∷ 7 ∷ []) ≡ (7 ∷ 9 ∷ [], 0 ∷ 1 ∷ 0 ∷ [])
unfolding id2uniq_id add_ids add_id find_id
seven_twice = refl

num2indices-count_example :
    (indices : List ℕ) × (num2indices (2 ∷ 0 ∷ 1 ∷ []) ≡ some indices)
    × (length indices ≡ total (2 ∷ 0 ∷ 1 ∷ []))
    × (total (2 ∷ 0 ∷ 1 ∷ []) ≡ 3)
    × ((r : ℕ) → occurrences r indices ≡ get_or (2 ∷ 0 ∷ 1 ∷ []) r 0)
num2indices-count_example = num2indices-count (2 ∷ 0 ∷ 1 ∷ []) (omega arith) (omega arith)

rows : num2indices (2 ∷ 0 ∷ 1 ∷ []) ≡ some (0 ∷ 0 ∷ 2 ∷ [])
unfolding num2indices indices_from total
rows = refl

abbrev row : Tensor
row = record { data_type = uint32; shape = 2 ∷ []; blob = 1 ∷ 0 ∷ 0 ∷ 0 ∷ 2 ∷ 0 ∷ 0 ∷ 0 ∷ [] }

row-IsTensor : IsTensor row
unfolding data_type_size elements product has_blob
row-IsTensor = record { rank = omega arith; dims = (omega arith, tt); made = refl; filled = refl }

read_sample-write_sample_example :
    (bytes : List Byte) × (write_sample (row ∷ row ∷ []) ≡ some bytes)
    × (read_sample (uint32 ∷ uint32 ∷ []) (bytes ++ 9 ∷ []) ≡ some (row ∷ row ∷ [], 9 ∷ []))
read_sample-write_sample_example =
    read_sample-write_sample (row ∷ row ∷ []) (9 ∷ []) (omega arith)
      (row-IsTensor, (row-IsTensor, tt))
