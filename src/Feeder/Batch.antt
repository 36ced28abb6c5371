-- ===== src/Feeder/Batch.antt =====
-- feeder/batch.{h,cc}, and the adding of tensors in feeder/utils.h. A failed CHECK and the use of a
-- null pointer are `none`.
pub mod Names
mod Tests
use ddls.Prelude.{
  ℕ, zero, suc, ◌+◌, List, [], ◌∷◌, ◌++◌, Option, none, some, ◌>>=◌, ◌>>◌, check, ltb,
  if◌then◌else◌, length, get_or, set, replicate, map, Bool, true, false,
}
use ddls.Common.Configure.{Text, Register, get_value, register_flag}
use ddls.Feeder.Record.{DataType, uint32, uint64, float32}
use ddls.Feeder.Indices.{num2indices}
use ddls.Feeder.Ids.{id2uniq_id}

-- `index_` is a map by name, as a register is; a null pointer is `none`.
pub record Batch {ℓ} (T : Type ℓ) : Type ℓ where
  pub index : Register ℕ
  pub tensors : List (Option T)
  pub names : List Text

unfoldable pub index_names : ℕ → List Text → Register ℕ → Register ℕ
index_names i [] index = index
index_names i (name ∷ names) index = index_names (i + 1) names (register_flag name i index)

module _ {ℓ} {T : Type ℓ} where
  unfoldable pub new_batch : List Text → Batch T
  new_batch names = record {
    index = index_names 0 names [];
    tensors = replicate (length names) none;
    names = names;
  }

  -- Get by place.
  unfoldable pub get_at : ℕ → Batch T → Option (Option T)
  get_at index b = check (ltb index (length b.tensors)) >> some (get_or b.tensors index none)

  -- Get by name: the inner `none` is a null pointer.
  unfoldable pub get : Text → Batch T → Option (Option T)
  get key b = elim (get_value key b.index) [ none ↦ some none | some i ↦ get_at i b ]

  unfoldable pub set_at : ℕ → T → Batch T → Option (Batch T)
  set_at index tensor b =
      check (ltb index (length b.tensors))
      >> some (record b { tensors = set b.tensors index (some tensor) })

  unfoldable pub keys : Batch T → List Text
  keys b = map (λ entry. entry.0) b.index

  unfoldable pub insert : Text → T → Batch T → Batch T
  insert name tensor b = record {
    index = register_flag name (length b.tensors) b.index;
    tensors = b.tensors ++ some tensor ∷ [];
    names = b.names ++ name ∷ [];
  }

-- A tensor of whole numbers.
pub record IdTensor : Type 0 where
  pub data_type : DataType
  pub values : List ℕ

unfoldable pub is_uint32 : DataType → Bool
is_uint32 uint32 = true
is_uint32 uint64 = false
is_uint32 float32 = false

unfoldable pub is_uint64 : DataType → Bool
is_uint64 uint64 = true
is_uint64 uint32 = false
is_uint64 float32 = false

abbrev pub indices_suffix : Text
indices_suffix = 46 ∷ 105 ∷ 110 ∷ 100 ∷ 105 ∷ 99 ∷ 101 ∷ 115 ∷ []

abbrev pub uniqid_suffix : Text
uniqid_suffix = 46 ∷ 117 ∷ 110 ∷ 105 ∷ 113 ∷ 105 ∷ 100 ∷ []

abbrev pub localid_suffix : Text
localid_suffix = 46 ∷ 108 ∷ 111 ∷ 99 ∷ 97 ∷ 108 ∷ 105 ∷ 100 ∷ []

-- AddIndicesTensor.
unfoldable pub add_indices_tensor : List Text → Batch IdTensor → Option (Batch IdTensor)
add_indices_tensor [] b = some b
add_indices_tensor (name ∷ names) b = do
  pointer ← get name b
  tensor ← pointer
  check (is_uint32 tensor.data_type)
  indices ← num2indices tensor.values
  add_indices_tensor names
      (insert (name ++ indices_suffix) (record { data_type = uint32; values = indices }) b)

-- AddUniqIdTensor.
unfoldable pub add_uniq_id_tensor : List Text → Batch IdTensor → Option (Batch IdTensor)
add_uniq_id_tensor [] b = some b
add_uniq_id_tensor (name ∷ names) b = do
  pointer ← get name b
  tensor ← pointer
  check (is_uint64 tensor.data_type)
  let ids = id2uniq_id tensor.values
  add_uniq_id_tensor names (
      insert (name ++ localid_suffix) (record { data_type = uint32; values = ids.1 })
        (insert (name ++ uniqid_suffix) (record { data_type = uint64; values = ids.0 }) b))
