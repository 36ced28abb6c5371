-- ===== src/Table/Kv.antt =====
-- table/kv_table.h: a table of keys that is split over the servers by the remainder of the key. The
-- keys are unsigned; a worker keeps what it got in a store of its own.
pub mod Split
pub mod Local
use ddls.Prelude.{
  ℕ, zero, suc, ◌+◌, ◌*◌, ◌%◌, List, [], ◌∷◌, ◌++◌, Option, none, some, ◌>>=◌, ◌>>◌, check, Bool,
  true, false, ◌==◌, if◌then◌else◌, take, drop, length, leb,
}
use ddls.KvStore.{KvStore, set_value, get, found, missing, Found}
use ddls.KvStore.Memory.{read_block, write_block}

-- One entry of `out`: a server, its keys, and their values where values are sent.
pub record Part {ℓ} (V : Type ℓ) : Type ℓ where
  pub server : ℕ
  pub keys : List ℕ
  pub vals : List V

module _ {ℓ} {V : Type ℓ} where
  -- (*out)[dst][0].As<Key>(counts[dst]) = key, and the memcpy of its values behind those there.
  unfoldable pub put : ℕ → ℕ → List V → List (Part V) → List (Part V)
  put dst key vals [] = record { server = dst; keys = key ∷ []; vals = vals } ∷ []
  put dst key vals (p ∷ out) =
      let rest = put dst key vals out in
      if p.server == dst
      then record p { keys = p.keys ++ key ∷ []; vals = p.vals ++ vals } ∷ out
      else p ∷ rest

  -- The second loop of `Partition`: `vals` is what is left of kv[1], and `len` is value_len, or 0
  -- where only keys are sent. The first loop makes room for what this one writes.
  unfoldable pub split : ℕ → ℕ → List ℕ → List V → List (Part V) → List (Part V)
  split num_servers len [] vals out = out
  split num_servers len (k ∷ keys) vals out =
      split num_servers len keys (drop len vals) (put (k % num_servers) k (take len vals) out)

  -- Of a request with values (`some`) or without; a third blob fails the CHECK.
  unfoldable pub partition : ℕ → ℕ → List ℕ → Option (List V) → Bool → Option (List (Part V))
  partition num_servers value_len keys vals has_option = do
    check (if has_option then false else true)
    some (elim vals [
      | none ↦ split num_servers 0 keys [] []
      | some vs ↦ split num_servers value_len keys vs []
    ])

  -- The loop of KVWorkerTable::ProcessReplyGet.
  unfoldable pub set_all : List ℕ → List V → KvStore V → Option (KvStore V)
  set_all [] vals s = some s
  set_all (k ∷ keys) vals s = do
    s' ← set_value s k (take s.value_len vals) false
    set_all keys (drop s.value_len vals) s'

  unfoldable pub process_reply_get : List ℕ → List V → KvStore V → Option (KvStore V)
  process_reply_get keys vals s = do
    check (length keys * s.value_len == length vals)
    set_all keys vals s

  -- The server: a new entry is filled by the random generator, whose state is `R`.
  module _ {R : Type ℓ} (gen : R → ℕ → List V × R) where
    unfoldable pub fill_found : Found → KvStore V × R → (List V × (KvStore V × R))
    fill_found missing (s, r) = ([], (s, r))
    fill_found (found index offset immutable true) (s, r) =
        let (vals, r') = gen r s.value_len in
        let mem = write_block s.mem offset vals in
        (read_block mem offset s.value_len, (record s { mem = mem }, r'))
    fill_found (found index offset immutable false) (s, r) =
        (read_block s.mem offset s.value_len, (s, r))

    -- The loop of KVServerTable::ProcessGet: the values of the keys, in order. `Get` with `immutable`
    -- false gives no null pointer.
    unfoldable pub get_all : List ℕ → KvStore V × R → Option (List V × (KvStore V × R))
    get_all [] state = some ([], state)
    get_all (k ∷ keys) (s, r) = do
      (s', place) ← get s k false
      let filled = fill_found place (s', r)
      (vals, state) ← get_all keys filled.1
      some (filled.0 ++ vals, state)

  -- The loop of KVServerTable::ProcessAdd. `update` is the updater's, for one block.
  unfoldable pub update_found : (List V → List V → List V) → List V → Found → KvStore V → KvStore V
  update_found update delta missing s = s
  update_found update delta (found index offset true new_data) s = s
  update_found update delta (found index offset false new_data) s = record s {
    mem = write_block s.mem offset (update (read_block s.mem offset s.value_len) delta);
  }

  unfoldable pub add_all :
      (List V → List V → List V) → List ℕ → List V → KvStore V → Option (KvStore V)
  add_all update [] vals s = some s
  add_all update (k ∷ keys) vals s = do
    (s', place) ← get s k false
    add_all update keys (drop s.value_len vals)
        (update_found update (take s.value_len vals) place s')

  unfoldable pub process_add :
      (List V → List V → List V) → List ℕ → List V → KvStore V → Option (KvStore V)
  process_add update keys vals s = do
    check (length keys * s.value_len == length vals)
    add_all update keys vals s
