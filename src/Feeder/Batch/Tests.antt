-- ===== src/Feeder/Batch/Tests.antt =====
-- A batch that gets two tensors.
use ddls.Prelude.{ℕ, ◌≡◌, ◌≢◌, refl, [], ◌∷◌, some}
use ddls.Common.Configure.{Text, get_value, register_flag, has, set_value, same_text}
use ddls.Feeder.Record.{uint32}
use ddls.Feeder.Indices.{total, num2indices, indices_from}
use ddls.Feeder.Batch.{
  Batch, new_batch, index_names, get, get_at, insert, add_indices_tensor, is_uint32, indices_suffix,
}
use ddls.Feeder.Batch.Names.{IsValid, get-insert}

abbrev empty_batch : Batch ℕ
empty_batch = record { index = []; tensors = []; names = [] }

empty_batch-IsValid : IsValid empty_batch
unfolding get_value
empty_batch-IsValid key i e = cc

abbrev one_tensor : Batch ℕ
one_tensor = record { index = (110 ∷ [], 0) ∷ []; tensors = some 5 ∷ []; names = (110 ∷ []) ∷ [] }

one_tensor-IsValid : IsValid one_tensor
unfolding insert register_flag has
one_tensor-IsValid = (get-insert (110 ∷ []) 5 empty_batch empty_batch-IsValid).2

get-insert_example :
    (get (111 ∷ []) (insert (111 ∷ []) 6 one_tensor) ≡ some (some 6))
    × ((other : Text)
        → (111 ∷ []) ≢ other
        → get other (insert (111 ∷ []) 6 one_tensor) ≡ get other one_tensor)
    × IsValid (insert (111 ∷ []) 6 one_tensor)
get-insert_example = get-insert (111 ∷ []) 6 one_tensor one_tensor-IsValid

-- The counts 2 and 1 of "n" become the indices 0, 0 and 1.
counts_added :
    add_indices_tensor
      ((110 ∷ []) ∷ [])
      (insert (110 ∷ []) (record { data_type = uint32; values = 2 ∷ 1 ∷ [] }) (new_batch []))
    ≡ some (record {
      index = (110 ∷ [], 0) ∷ (110 ∷ indices_suffix, 1) ∷ [];
      tensors =
          some (record { data_type = uint32; values = 2 ∷ 1 ∷ [] })
          ∷ some (record { data_type = uint32; values = 0 ∷ 0 ∷ 1 ∷ [] })
          ∷ [];
      names = (110 ∷ []) ∷ (110 ∷ indices_suffix) ∷ [];
    })
unfolding add_indices_tensor insert new_batch index_names get get_at get_value register_flag has
    set_value same_text is_uint32 num2indices indices_from total
counts_added = refl
