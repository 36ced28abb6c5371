-- ===== src/Frame/Tests.antt =====
-- Two nodes, both worker and server; the controller is on rank 0.
use ddls.Prelude.{
  ℕ, get_elem?, ◌+◌, ◌<◌, ◌≡◌, ◌≢◌, refl, List, [], ◌∷◌, ◌++◌, Option, none, some, length, All,
  arith, get_or, map,
}
use mathlib.Core.List.{Perm}
use ddls.Prelude.Int.{pos}
use ddls.Message.{Message, control_barrier}
use ddls.Frame.Controller.{
  barrier, Node, RegisterController, add_node, number_worker, number_server, is_worker, is_server,
  new_register,
}
use ddls.Frame.Controller.Barrier.{barrier-round, count_from}
use ddls.Frame.Controller.Register.{node_at, Registered, start, next}
use ddls.Frame.Zoo.{register_node, register_node-rank}
use ddls.Frame.Server.{dispatch, dispatch_all, process_all, for_table, dispatch_all-for_table}
use ddls.Message.{create_reply_message}
use ddls.Frame.Worker.{
  WorkerTable, process_get, get_async, wait, asleep, woken, notify, process_model, load_request,
}
use ddls.Frame.Worker.Pending.{notify_times, get_async-wait, load_request-wait}

abbrev one : ℕ
one = 1

abbrev two : ℕ
two = 2

abbrev from : ℕ → Message ℕ
from src = record {
  src = src;
  dst = 0;
  type = control_barrier;
  table_id = 0;
  msg_id = 0;
  blobs = [];
}

barrier-round_example :
    (two ≢ two → barrier 2 0 (from 0) (from 1 ∷ []) ≡ some (from 1 ∷ from 0 ∷ [], []))
    × (two ≡ two
        → count_from 0 (from 1 ∷ from 0 ∷ []) ≡ 1
        → (others : List (Message ℕ)) × (last : Message ℕ) × (barrier 2 0 (from 0) (from 1 ∷ [])
            ≡ some ([], others ++ last ∷ []))
          × Perm (others ++ last ∷ []) (map create_reply_message (from 1 ∷ from 0 ∷ []))
          × All (λ r. r.dst ≢ 0) others
          × (last.dst ≡ 0))
barrier-round_example = barrier-round 0 2 (from 0) (from 1 ∷ [])

abbrev node : ℕ → Node
node rank = record { rank = rank; role = 3; worker_id = none; server_id = none }

-- Rank 1 is the first to register.
abbrev both : RegisterController
both = add_node 0 (node 0) (add_node 1 (node 1) (new_register 2))

both-Registered : Registered 2 both
both-Registered =
    next 0 (node 0) (next 1 (node 1) start (omega arith) refl refl) (omega arith) refl refl

register_node-rank_example :
    ((node_at both.all_nodes 1).worker_id ≡ some 0
      → (0 < both.num_worker)
        × (get_or
              (register_node both.all_nodes both.num_worker both.num_server).worker_id_to_rank
              0
              0
            ≡ (node_at both.all_nodes 1).rank))
    × ((node_at both.all_nodes 1).server_id ≡ some 0
        → (0 < both.num_server)
          × (get_or
                (register_node both.all_nodes both.num_worker both.num_server).server_id_to_rank
                0
                0
              ≡ (node_at both.all_nodes 1).rank))
register_node-rank_example = register_node-rank 2 both both-Registered 1 0

first_worker : (node_at both.all_nodes 1).worker_id ≡ some 0
unfolding add_node number_worker number_server is_worker is_server new_register
first_worker = refl

abbrev table : WorkerTable
table = record { table_id = 3; msg_id = 1; waitings = none ∷ [] }

abbrev halves : List ℕ → Option (List (ℕ × List ℕ))
halves blobs = some ((0, blobs) ∷ (1, blobs) ∷ [])

get_async-wait_example :
    (t₂ : WorkerTable) × (t₃ : WorkerTable) × (sent : List (Message ℕ)) × (process_get 4
        (λ i. i)
        halves
        (get_async {B = ℕ} 4 7 none table).1
        (get_async {B = ℕ} 4 7 none table).0
      ≡ some (t₂, sent))
    × (length sent ≡ 2)
    × (notify_times 1 1 t₂ ≡ some t₃)
    × (1 < 2 → wait 1 t₃ ≡ some asleep)
    × (one ≡ two → (t₄ : WorkerTable) × (wait 1 t₃ ≡ some (woken t₄)) × (notify 1 t₄ ≡ none))
get_async-wait_example =
    get_async-wait 4 (λ i. i) halves 7 none table ((0, 7 ∷ []) ∷ (1, 7 ∷ []) ∷ []) refl refl
      (omega arith) 1

load_request-wait_example :
    (t₂ : WorkerTable) × (t₃ : WorkerTable) × (t₄ : WorkerTable) × (sent : List (Message ℕ))
    × (process_model 4
          (λ i. i)
          (λ file i. file + i)
          2
          (pos 29)
          (load_request {B = ℕ} 4 7 table).1
          (load_request {B = ℕ} 4 7 table).0
        ≡ some (t₂, sent))
    × (length sent ≡ 2)
    × (notify 1 t₂ ≡ some t₃)
    × (wait 1 t₃ ≡ some (woken t₄))
    × (notify 1 t₄ ≡ none)
load_request-wait_example = load_request-wait 4 (λ i. i) (λ file i. file + i) 7 table 2 refl

-- Schedulers that count the blobs they are sent.
abbrev count_blobs : Message ℕ → ℕ → Option ℕ
count_blobs m n = some (n + length m.blobs)

abbrev for_table_of : ℕ → Message ℕ
for_table_of id = record {
  src = 1;
  dst = 0;
  type = pos 1;
  table_id = id;
  msg_id = 0;
  blobs = 5 ∷ [];
}

abbrev three_messages : List (Message ℕ)
three_messages = for_table_of 0 ∷ for_table_of 1 ∷ for_table_of 0 ∷ []

three_dispatched : dispatch_all count_blobs three_messages (4 ∷ 7 ∷ []) ≡ some (6 ∷ 8 ∷ [])
unfolding dispatch_all dispatch
three_dispatched = refl

dispatch_all-for_table_example :
    (s' : ℕ) × (process_all count_blobs (for_table count_blobs 0 three_messages) 4 ≡ some s')
    × (get_elem? (6 ∷ 8 ∷ []) 0 ≡ some s')
dispatch_all-for_table_example =
    dispatch_all-for_table count_blobs three_messages (4 ∷ 7 ∷ []) (6 ∷ 8 ∷ []) 0 4 three_dispatched
      refl
