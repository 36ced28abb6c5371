-- ===== src/Scheduler/Table.antt =====
-- What the schedulers ask of a server table (class ServerTable of frame/table_interface.h), and the
-- asynchronous `Scheduler` of frame/scheduler/scheduler.cc.
use ddls.Prelude.{List, [], ◌∷◌, Option, some, ◌>>=◌}
use ddls.Message.{Message, create_reply_message}

-- A failed CHECK inside the table ends the process: `none`.
pub record ServerTable {ℓ} (B : Type ℓ) : Type (ℓ + 1) where
  pub Store : Type ℓ
  pub process_get : List B → Store → Option (List B × Store)
  pub process_add : List B → Store → Option Store

module _ {ℓ} {B : Type ℓ} (table : ServerTable B) where
  -- The table, and what was handed to the communicator, newest first.
  pub record Serving : Type ℓ where
    pub store : table.Store
    pub sent : List (Message B)

  unfoldable pub process_get : Message B → Serving → Option Serving
  process_get m s = elim m.blobs [
    | [] ↦ some s
    | b ∷ bs ↦ do
      (answer, store) ← table.process_get m.blobs s.store
      some (record {
        store = store;
        sent = record (create_reply_message m) { blobs = answer } ∷ s.sent;
      })
  ]

  unfoldable pub process_add : Message B → Serving → Option Serving
  process_add m s = elim m.blobs [
    | [] ↦ some s
    | b ∷ bs ↦ do
      store ← table.process_add m.blobs s.store
      some (record { store = store; sent = create_reply_message m ∷ s.sent })
  ]
