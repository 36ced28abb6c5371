-- ===== src/Frame/Controller/Register.antt =====
-- The ids that the controller gives out, and the tables that every node builds of them.
use ddls.Prelude.{
  ℕ, ◌+◌, ◌<◌, ◌≡◌, ◌≢◌, ◌⊎◌, refl, sym, ap, ◌∙◌, List, Option, none, some, Bool-cases, length,
  arith, Nat-cases, inl, inr, get_or, set, replicate, get_or-set_self, get_or-set_ne, length-set,
  get_or-replicate, length-replicate,
}
use ddls.Frame.Controller.{
  Node, no_node, add_node, number_worker, number_server, is_worker, is_server, RegisterController,
  new_register,
}

abbrev pub node_at : List Node → ℕ → Node
node_at nodes i = get_or nodes i no_node

-- The ids that nodes have are below the count, and no two nodes have the same.
pub record IsNumbered (id : Node → Option ℕ) (nodes : List Node) (num : ℕ) : Type 0 where
  pub small : (i a : ℕ) → id (node_at nodes i) ≡ some a → a < num
  pub distinct : (i j a : ℕ) → id (node_at nodes i) ≡ some a → id (node_at nodes j) ≡ some a → i ≡ j

module _ (id : Node → Option ℕ) (no_id : id no_node ≡ none) where
  start-IsNumbered : (size : ℕ) → IsNumbered id (replicate size no_node) 0
  start-IsNumbered size = record {
    small = λ i a h. absurd (none_at i a h);
    distinct = λ i j a h h'. absurd (none_at i a h);
  }
    where
      none_at : (i a : ℕ) → id (node_at (replicate size no_node) i) ≢ some a
      none_at i a h = ground (arith, get_or-replicate size i no_node, no_id, h)

  -- A node that is written with the next id, or with none.
  set-IsNumbered :
      (nodes : List Node) (num num' src : ℕ) (x : Node)
      → src < length nodes
      → IsNumbered id nodes num
      → ((id x ≡ some num) × (num' ≡ num + 1)) ⊎ ((id x ≡ none) × (num' ≡ num))
      → IsNumbered id (set nodes src x) num'
  set-IsNumbered nodes num num' src x lt v step = record {
    small = λ i a h. small' i a h (Nat-cases src i);
    distinct = λ i j a h h'. distinct' i j a h h' (Nat-cases src i) (Nat-cases src j);
  }
    where
      here : (i : ℕ) → src ≡ i → id (node_at (set nodes src x) i) ≡ id x
      here i e =
          ap (λ i. id (node_at (set nodes src x) i)) (sym e)
          ∙ ap id (get_or-set_self nodes src x no_node lt)

      there : (i : ℕ) → src ≢ i → id (node_at (set nodes src x) i) ≡ id (node_at nodes i)
      there i ne = ap id (get_or-set_ne nodes src i x no_node ne)

      small' :
          (i a : ℕ) → id (node_at (set nodes src x) i) ≡ some a → (src ≡ i) ⊎ (src ≢ i) → a < num'
      small' i a h (inl e) = ground (arith, here i e)
      small' i a h (inr ne) = ground (arith, v.small i a (sym (there i ne) ∙ h))

      distinct' :
          (i j a : ℕ)
          → id (node_at (set nodes src x) i) ≡ some a
          → id (node_at (set nodes src x) j) ≡ some a
          → (src ≡ i) ⊎ (src ≢ i)
          → (src ≡ j) ⊎ (src ≢ j)
          → i ≡ j
      distinct' i j a h h' (inl e) (inl e') = sym e ∙ e'
      distinct' i j a h h' (inl e) (inr ne) =
          ground (arith, here i e, v.small j a (sym (there j ne) ∙ h'))
      distinct' i j a h h' (inr ne) (inl e) =
          ground (arith, here j e, v.small i a (sym (there i ne) ∙ h))
      distinct' i j a h h' (inr ne) (inr ne') =
          v.distinct i j a (sym (there i ne) ∙ h) (sym (there j ne') ∙ h')

number_worker-cases :
    (x : Node) (num : ℕ)
    → x.worker_id ≡ none
    → ((number_worker x num).0.server_id ≡ x.server_id)
      × ((((number_worker x num).0.worker_id ≡ some num) × ((number_worker x num).1 ≡ num + 1))
          ⊎ (((number_worker x num).0.worker_id ≡ none) × ((number_worker x num).1 ≡ num)))
unfolding number_worker
number_worker-cases x num h = elim (Bool-cases (is_worker x.role)) [
  | inl e ↦ rw e (refl, inl (refl, refl))
  | inr e ↦ rw e (refl, inr (h, refl))
]

number_server-cases :
    (x : Node) (num : ℕ)
    → x.server_id ≡ none
    → ((number_server x num).0.worker_id ≡ x.worker_id)
      × ((((number_server x num).0.server_id ≡ some num) × ((number_server x num).1 ≡ num + 1))
          ⊎ (((number_server x num).0.server_id ≡ none) × ((number_server x num).1 ≡ num)))
unfolding number_server
number_server-cases x num h = elim (Bool-cases (is_server x.role)) [
  | inl e ↦ rw e (refl, inl (refl, refl))
  | inr e ↦ rw e (refl, inr (h, refl))
]

-- What holds of the controller's record between two registrations.
pub record IsNumberedAll (size : ℕ) (c : RegisterController) : Type 0 where
  pub workers : IsNumbered Node.worker_id c.all_nodes c.num_worker
  pub servers : IsNumbered Node.server_id c.all_nodes c.num_server
  pub count : length c.all_nodes ≡ size

-- The records that some registrations lead to, of nodes that come without ids.
pub data Registered (size : ℕ) : RegisterController → Type 0 where
  start : Registered size (new_register size)
  next :
      {c : RegisterController} (src : ℕ) (x : Node)
      → Registered size c
      → src < size
      → x.worker_id ≡ none
      → x.server_id ≡ none
      → Registered size (add_node src x c)

add_node-IsNumberedAll :
    (size : ℕ) (c : RegisterController) (src : ℕ) (x : Node)
    → IsNumberedAll size c
    → src < size
    → x.worker_id ≡ none
    → x.server_id ≡ none
    → IsNumberedAll size (add_node src x c)
unfolding add_node
add_node-IsNumberedAll size c src x v lt no_worker no_server =
    let as_worker = number_worker x c.num_worker in
    let as_server = number_server as_worker.0 c.num_server in
    let (kept, w) = number_worker-cases x c.num_worker no_worker in
    let (kept', s) = number_server-cases as_worker.0 c.num_server (kept ∙ no_server) in
    let inside : src < length c.all_nodes = omega (arith, v.count, lt) in
    record {
      workers =
          set-IsNumbered Node.worker_id refl c.all_nodes c.num_worker as_worker.1 src as_server.0
            inside v.workers (ground (arith, w, kept'));
      servers =
          set-IsNumbered Node.server_id refl c.all_nodes c.num_server as_server.1 src as_server.0
            inside v.servers s;
      count = length-set c.all_nodes src as_server.0 ∙ v.count;
    }

pub Registered-IsNumberedAll :
    (size : ℕ) {c : RegisterController} → Registered size c → IsNumberedAll size c
unfolding new_register
Registered-IsNumberedAll size start = record {
  workers = start-IsNumbered Node.worker_id refl size;
  servers = start-IsNumbered Node.server_id refl size;
  count = length-replicate size no_node;
}
Registered-IsNumberedAll size (next {c = c} src x r lt no_worker no_server) =
    add_node-IsNumberedAll size c src x (Registered-IsNumberedAll size r) lt no_worker no_server
