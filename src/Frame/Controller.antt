-- ===== src/Frame/Controller.antt =====
-- frame/controller.cc: the actor of rank 0 that counts the nodes in, at the start and at a barrier.
pub mod Barrier
pub mod Register
use ddls.Prelude.{
  ℕ, zero, suc, ◌+◌, List, [], ◌∷◌, ◌++◌, Option, none, some, ◌>>=◌, ◌>>◌, check, Bool, true, false,
  ◌&&◌, not, ltb, ◌==◌, if◌then◌else◌, get_or, set, length, replicate, bit_and,
}
use ddls.Message.{Message, create_reply_message, control_reply_register}

-- BarrierController: `size` nodes, the controller on `rank`. What is sent is listed in order;
-- `my_reply` is none where no task came from `rank`, and SendTo of none is a fault.
unfoldable pub replies_to_others {ℓ} : {B : Type ℓ} → ℕ → List (Message B) → List (Message B)
replies_to_others rank [] = []
replies_to_others rank (m ∷ tasks) =
    let rest = replies_to_others rank tasks in
    if not ((create_reply_message m).dst == rank) then create_reply_message m ∷ rest else rest

unfoldable pub my_reply {ℓ} :
    {B : Type ℓ} → ℕ → Option (Message B) → List (Message B) → Option (Message B)
my_reply rank mine [] = mine
my_reply rank mine (m ∷ tasks) =
    my_reply rank
      (if not ((create_reply_message m).dst == rank) then mine else some (create_reply_message m))
      tasks

-- The tasks that are kept, and what is sent.
unfoldable pub barrier {ℓ} :
    {B : Type ℓ}
    → ℕ
    → ℕ
    → Message B
    → List (Message B)
    → Option (List (Message B) × List (Message B))
barrier size rank m tasks =
    let tasks' = tasks ++ m ∷ [] in
    if length tasks' == size
    then (my_reply rank none tasks' >>= λ last.
        some ([], replies_to_others rank tasks' ++ last ∷ []))
    else some (tasks', [])

-- struct Node of frame/node.h; an id of -1 is `none`.
pub record Node : Type 0 where
  pub rank : ℕ
  pub role : ℕ
  pub worker_id : Option ℕ
  pub server_id : Option ℕ

-- enum Role, as bits.
abbrev pub worker_role : ℕ
worker_role = 1

abbrev pub server_role : ℕ
server_role = 2

unfoldable pub is_worker : ℕ → Bool
is_worker role = not (bit_and role worker_role == 0)

unfoldable pub is_server : ℕ → Bool
is_server role = not (bit_and role server_role == 0)

pub record RegisterController : Type 0 where
  pub num_registered : ℕ
  pub num_server : ℕ
  pub num_worker : ℕ
  pub all_nodes : List Node

-- Node(), as far as it is read: a node that has not registered.
abbrev pub no_node : Node
no_node = record { rank = 0; role = 0; worker_id = none; server_id = none }

unfoldable pub new_register : ℕ → RegisterController
new_register size = record {
  num_registered = 0;
  num_server = 0;
  num_worker = 0;
  all_nodes = replicate size no_node;
}

-- The blobs of the reply: all nodes, and the two counts.
pub data Info : Type 0 where
  nodes : List Node → Info
  counts : (num_worker num_server : ℕ) → Info

-- all_nodes_[src].worker_id = num_worker_++, and so for the server id.
unfoldable pub number_worker : Node → ℕ → Node × ℕ
number_worker node num_worker =
    if is_worker node.role
    then (record node { worker_id = some num_worker }, num_worker + 1)
    else (node, num_worker)

unfoldable pub number_server : Node → ℕ → Node × ℕ
number_server node num_server =
    if is_server node.role
    then (record node { server_id = some num_server }, num_server + 1)
    else (node, num_server)

unfoldable pub add_node : ℕ → Node → RegisterController → RegisterController
add_node src node c =
    let as_worker = number_worker node c.num_worker in
    let as_server = number_server as_worker.0 c.num_server in
    record {
      num_registered = c.num_registered + 1;
      num_server = as_server.1;
      num_worker = as_worker.1;
      all_nodes = set c.all_nodes src as_server.0;
    }

-- The replies to the ranks below `n`, rank 0 last.
unfoldable pub register_replies : ℕ → List Info → ℕ → List (Message Info)
register_replies rank info zero = []
register_replies rank info (suc i) =
    record {
      src = rank;
      dst = i;
      type = control_reply_register;
      table_id = 0;
      msg_id = 0;
      blobs = info;
    }
    ∷ register_replies rank info i

-- RegisterController::Control on the node that rank `src` sends.
unfoldable pub register :
    ℕ → ℕ → ℕ → Node → RegisterController → Option (RegisterController × List (Message Info))
register size rank src node c = do
  check (ltb src (length c.all_nodes))
  let c' = add_node src node c
  some (
    c',
    if c'.num_registered == size
        then register_replies rank (nodes c'.all_nodes ∷ counts c'.num_worker c'.num_server ∷ [])
            size
        else [],
  )
