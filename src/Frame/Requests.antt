-- ===== src/Frame/Requests.antt =====
-- The messages that Zoo of frame/zoo.cc sends for its node: RegisterNode, Barrier and FinishTrain.
use ddls.Prelude.{ℕ, zero, suc, List, [], ◌∷◌}
use ddls.Prelude.Int.{ℤ}
use ddls.Message.{Message, control_barrier, control_register, server_finish_train}

-- kController
abbrev pub controller_rank : ℕ
controller_rank = 0

module _ {ℓ} {B : Type ℓ} (rank : ℕ) where
  abbrev request : ℕ → ℤ → List B → Message B
  request dst type blobs = record {
    src = rank;
    dst = dst;
    type = type;
    table_id = 0;
    msg_id = 0;
    blobs = blobs;
  }

  unfoldable pub barrier_request : Message B
  barrier_request = request controller_rank control_barrier []

  -- `node` is the blob of the node's own entry.
  unfoldable pub register_request : B → Message B
  register_request node = request controller_rank control_register (node ∷ [])

  -- The messages to the servers from `i` on.
  unfoldable pub finish_requests : (ℕ → ℕ) → ℕ → ℕ → List (Message B)
  finish_requests server_id_to_rank i zero = []
  finish_requests server_id_to_rank i (suc n) =
      request (server_id_to_rank i) server_finish_train []
      ∷ finish_requests server_id_to_rank (suc i) n
