-- ===== src/Frame/Zoo.antt =====
-- Zoo::RegisterNode of frame/zoo.cc: the tables from ids to ranks that a node builds of the reply.
use ddls.Prelude.{
  ℕ, zero, suc, ◌<◌, ◌≡◌, ◌≢◌, refl, sym, ap, ◌∙◌, List, [], ◌∷◌, Option, none, some, set, get_or,
  length, replicate, arith, get_or-set_self, get_or-set_ne, length-set, length-replicate,
  Option-cases, inl, inr, ◌⊎◌, subst,
}
use ddls.Frame.Controller.{Node, no_node, RegisterController}
use ddls.Frame.Controller.Register.{node_at, IsNumbered, Registered, Registered-IsNumberedAll}

-- The loop over the nodes, for one of the two ids; a write past the table is undefined behaviour.
unfoldable pub fill_table : (Node → Option ℕ) → List Node → List ℕ → List ℕ
fill_table id [] table = table
fill_table id (x ∷ nodes) table =
    fill_table id nodes (elim (id x) [ none ↦ table | some a ↦ set table a x.rank ])

pub record Tables : Type 0 where
  pub num_workers : ℕ
  pub num_servers : ℕ
  pub worker_id_to_rank : List ℕ
  pub server_id_to_rank : List ℕ

-- From the two blobs of the reply.
unfoldable pub register_node : List Node → ℕ → ℕ → Tables
register_node nodes num_workers num_servers = record {
  num_workers = num_workers;
  num_servers = num_servers;
  worker_id_to_rank = fill_table Node.worker_id nodes (replicate num_workers 0);
  server_id_to_rank = fill_table Node.server_id nodes (replicate num_servers 0);
}

-- The entries of no node's id stay as they are.
fill_table-other :
    (id : Node → Option ℕ) (nodes : List Node) (table : List ℕ) (a : ℕ)
    → ((i : ℕ) → id (node_at nodes i) ≢ some a)
    → get_or (fill_table id nodes table) a 0 ≡ get_or table a 0
unfolding fill_table
fill_table-other id [] table a h = refl
fill_table-other id (x ∷ nodes) table a h =
    fill_table-other id nodes _ a (λ i. h (suc i)) ∙ elim (Option-cases (id x)) [
      | inl e ↦ rw e
      | inr (b, e) ↦ rw e (get_or-set_ne table b a x.rank 0 (λ same. h 0 (e ∙ ap some same)))
    ]

fill_table-own :
    (id : Node → Option ℕ) (nodes : List Node) (table : List ℕ)
    → id no_node ≡ none
    → IsNumbered id nodes (length table)
    → (i a : ℕ) → id (node_at nodes i) ≡ some a
    → get_or (fill_table id nodes table) a 0 ≡ (node_at nodes i).rank
unfolding fill_table
fill_table-own id [] table no_id v i a h = absurd (ground (arith, no_id, h))
fill_table-own id (x ∷ nodes) table no_id v zero a h =
    fill_table-other id nodes _ a (λ i e. absurd (ground (arith, v.distinct 0 (suc i) a h e)))
    ∙ rw h (get_or-set_self table a x.rank 0 (v.small 0 a h))
fill_table-own id (x ∷ nodes) table no_id v (suc i) a h =
    fill_table-own id nodes _ no_id (rest (Option-cases (id x))) i a h
  where
    same_length :
        (o : Option ℕ)
        → length (elim o as (λ o. List ℕ) [ none ↦ table | some b ↦ set table b x.rank ])
          ≡ length table
    same_length none = refl
    same_length (some b) = length-set table b x.rank

    rest :
        (id x ≡ none) ⊎ ((b : ℕ) × (id x ≡ some b))
        → IsNumbered id nodes (length (elim (id x) [ none ↦ table | some b ↦ set table b x.rank ]))
    rest o = record {
      small = λ i a e. omega (arith, same_length (id x), v.small (suc i) a e);
      distinct = λ i j a e e'. omega (arith, v.distinct (suc i) (suc j) a e e');
    }

-- After all registrations, in the tables that each node builds, the worker id of a node leads to the
-- rank it sent, and so does its server id; ids are below the counts, so inside the tables.
pub register_node-rank :
    (size : ℕ) (c : RegisterController)
    → Registered size c
    → (i a : ℕ)
    → ((node_at c.all_nodes i).worker_id ≡ some a
        → (a < c.num_worker)
          × (get_or (register_node c.all_nodes c.num_worker c.num_server).worker_id_to_rank a 0
              ≡ (node_at c.all_nodes i).rank))
      × ((node_at c.all_nodes i).server_id ≡ some a
          → (a < c.num_server)
            × (get_or (register_node c.all_nodes c.num_worker c.num_server).server_id_to_rank a 0
                ≡ (node_at c.all_nodes i).rank))
unfolding register_node
register_node-rank size c r i a =
    let v = Registered-IsNumberedAll size r in
    (
      λ h. (
        v.workers.small i a h,
        fill_table-own Node.worker_id c.all_nodes (replicate c.num_worker 0) refl
            (subst (IsNumbered Node.worker_id c.all_nodes) (sym (length-replicate c.num_worker 0))
              v.workers)
            i a h,
      ),
      λ h. (
        v.servers.small i a h,
        fill_table-own Node.server_id c.all_nodes (replicate c.num_server 0) refl
            (subst (IsNumbered Node.server_id c.all_nodes) (sym (length-replicate c.num_server 0))
              v.servers)
            i a h,
      ),
    )
