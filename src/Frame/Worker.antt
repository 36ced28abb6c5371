-- ===== src/Frame/Worker.antt =====
-- frame/table_interface.cc, common/waiter.h and frame/worker.cc: the requests of a worker's table, and
-- the counting of the replies from the servers. Each function is atomic: it holds the table's lock,
-- or runs in the actor's thread. What the user's table does is a parameter.
pub mod Pending
use ddls.Prelude.{
  ℕ, zero, suc, ◌+◌, ◌-◌, List, [], ◌∷◌, ◌++◌, Option, none, some, ◌>>=◌, ◌>>◌, check, Bool, true,
  false, not, ltb, if◌then◌else◌, get_or, set, map, length,
}
use ddls.Prelude.Int.{ℤ}
use ddls.Message.{Message, request_get, request_add, load_model, store_model}

-- A Waiter is its `num_wait_`, and a deleted one is `none`. The count is an int that Notify may take
-- below 0; only whether it is above 0 is ever read, so the model stops there.
pub record WorkerTable : Type 0 where
  pub table_id : ℕ
  pub msg_id : ℕ
  pub waitings : List (Option ℕ)

abbrev pub waiter : WorkerTable → ℕ → Option ℕ
waiter t id = get_or t.waitings id none

-- The part that Store, Load, GetAsync and AddAsync share: the id, and a Waiter(1) for it.
unfoldable pub new_request {ℓ} :
    {B : Type ℓ} → ℕ → ℤ → List B → WorkerTable → WorkerTable × Message B
new_request rank type blobs t = (
  record t { msg_id = t.msg_id + 1; waitings = t.waitings ++ some 1 ∷ [] },
  record {
    src = rank;
    dst = 0;
    type = type;
    table_id = t.table_id;
    msg_id = t.msg_id;
    blobs = blobs;
  },
)

-- The blob of the option, where there is one.
abbrev pub with_option {ℓ} : {B : Type ℓ} → Option B → List B
with_option none = []
with_option (some o) = o ∷ []

module _ {ℓ} {B : Type ℓ} (rank : ℕ) where
  unfoldable pub get_async : B → Option B → WorkerTable → WorkerTable × Message B
  get_async keys option t = new_request rank request_get (keys ∷ with_option option) t

  unfoldable pub add_async : B → B → Option B → WorkerTable → WorkerTable × Message B
  add_async keys values option t =
      new_request rank request_add (keys ∷ values ∷ with_option option) t

  -- Store(uri) and Load(uri), up to their Wait.
  unfoldable pub store_request : B → WorkerTable → WorkerTable × Message B
  store_request uri t = new_request rank store_model (uri ∷ []) t

  unfoldable pub load_request : B → WorkerTable → WorkerTable × Message B
  load_request uri t = new_request rank load_model (uri ∷ []) t

-- What a thread in Wait(id) does next: it sleeps, or goes on with the waiter deleted.
pub data Waiting : Type 0 where
  asleep : Waiting
  woken : WorkerTable → Waiting

-- What it does when it looks at the count: on its way in, and whenever a Notify wakes it.
unfoldable pub wait : ℕ → WorkerTable → Option Waiting
wait id t = do
  num_wait ← waiter t id
  some (if ltb 0 num_wait then asleep else woken (record t { waitings = set t.waitings id none }))

-- Reset wakes no one: a thread that sleeps looks at the new count at the next Notify, and never where
-- the new count is 0 and no reply is to come.
unfoldable pub reset : ℕ → ℕ → WorkerTable → Option WorkerTable
reset id num_wait t = do
  old ← waiter t id
  some (record t { waitings = set t.waitings id (some num_wait) })

unfoldable pub notify : ℕ → WorkerTable → Option WorkerTable
notify id t = do
  num_wait ← waiter t id
  some (record t { waitings = set t.waitings id (some (num_wait - 1)) })

module _ {ℓ} {B : Type ℓ} (rank : ℕ) (server_id_to_rank : ℕ → ℕ) where
  -- One message for each entry of the partition.
  unfoldable pub to_servers : ℤ → Message B → List (ℕ × List B) → List (Message B)
  to_servers type m [] = []
  to_servers type m ((server, blobs) ∷ parts) =
      record {
        src = rank;
        dst = server_id_to_rank server;
        type = type;
        table_id = m.table_id;
        msg_id = m.msg_id;
        blobs = blobs;
      }
      ∷ to_servers type m parts

  -- ProcessGet and ProcessAdd differ in the type alone, and in a CHECK that the Add has blobs.
  -- `partition` is the table's; the number of entries is what it returns.
  unfoldable pub process_get :
      (List B → Option (List (ℕ × List B)))
      → Message B
      → WorkerTable
      → Option (WorkerTable × List (Message B))
  process_get partition m t = do
    parts ← partition m.blobs
    t' ← reset m.msg_id (length parts) t
    some (t', to_servers request_get m parts)

  unfoldable pub process_add :
      (List B → Option (List (ℕ × List B)))
      → Message B
      → WorkerTable
      → Option (WorkerTable × List (Message B))
  process_add partition m t = do
    check (ltb 0 (length m.blobs))
    parts ← partition m.blobs
    t' ← reset m.msg_id (length parts) t
    some (t', to_servers request_add m parts)

  -- The messages for the servers from `i` on; `file i` is the file name with the server's id.
  unfoldable pub model_parts : (B → ℕ → B) → B → ℕ → ℕ → List (ℕ × List B)
  model_parts with_id file i zero = []
  model_parts with_id file i (suc n) = (i, with_id file i ∷ []) ∷ model_parts with_id file (suc i) n

  -- ProcessLoadModel and ProcessStoreModel, which leave the waiter alone.
  unfoldable pub process_model :
      (B → ℕ → B) → ℕ → ℤ → Message B → WorkerTable → Option (WorkerTable × List (Message B))
  process_model with_id num_servers type m t = elim m.blobs [
    | [] ↦ none
    | file ∷ rest ↦ some (t, to_servers type m (model_parts with_id file 0 num_servers))
  ]

-- ProcessReplyAdd, and the replies to Load and Store.
unfoldable pub process_reply {ℓ} : {B : Type ℓ} → Message B → WorkerTable → Option WorkerTable
process_reply m t = notify m.msg_id t

-- `store` is what the table's own ProcessReplyGet writes to.
unfoldable pub process_reply_get {ℓ} :
    {B S : Type ℓ}
    → (List B → S → Option S)
    → Message B
    → S × WorkerTable
    → Option (S × WorkerTable)
process_reply_get receive m (store, t) = do
  store' ← receive m.blobs store
  t' ← notify m.msg_id t
  some (store', t')
