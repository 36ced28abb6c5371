-- ===== src/Scheduler/Sync/Promise.antt =====
-- The promise of the synchronous scheduler, after any sequence of Gets and Adds of the workers.
use ddls.Prelude.{
  ℕ, ◌≤◌, ◌<◌, ◌≡◌, sym, ap, ◌∙◌, ◌⊎◌, inl, inr, List, some, true, false, ◌||◌, arith, length,
  >>=-eq-some, get_or, All, Bool-cases, subst, of_some, ltb, ◌>>=◌, ltb_false→le,
}
use ddls.Prelude.Int.{eqb_ℤ}
use ddls.Message.{Message, request_get, request_add}
use ddls.Scheduler.Clock.{local_at, int_max}
use ddls.Scheduler.Table.{ServerTable}
use ddls.Scheduler.Sync.{
  new, answer_get, apply_add, waited, cache_get, after_add, after_get, process_add, process_get,
  handle,
}
use ddls.Scheduler.Sync.Count.{cached}
use ddls.Scheduler.Sync.Inv.{IsSynced}
use ddls.Scheduler.Sync.Answers.{
  gets_to, adds_to, Answered, Applied, answer_get-Answered, apply_add-Applied,
}
use ddls.Scheduler.Sync.Drain.{IsGet, IsAdd, Waits}
use ddls.Scheduler.Sync.Step.{
  Sv, Inv, All-append_one, new-Inv, cache_add-Inv, after_add-Inv, after_get-Inv,
}
use ddls.Scheduler.Sync.Growth.{process_get_grows, process_add_grows}

or_left : (a b c : ℕ) → (ltb a b || ltb 0 c) ≡ false → b ≤ a
or_left a b c h = ground arith

module _ {ℓ} {B : Type ℓ} (table : ServerTable B) (rank_to_worker_id : ℕ → ℕ) (num_worker : ℕ) where
  -- The state that a worker's requests lead to; each is handled without a fatal check.
  pub data Reach (store : table.Store) : Sv table rank_to_worker_id num_worker → Type ℓ where
    start : Reach store (new table rank_to_worker_id num_worker store)
    next :
        {s s' : Sv table rank_to_worker_id num_worker} (m : Message B)
        → Reach store s
        → IsGet table rank_to_worker_id num_worker m ⊎ IsAdd table rank_to_worker_id num_worker m
        → handle table rank_to_worker_id m s ≡ some s'
        → Reach store s'

  cache_get-Inv :
      (m : Message B) (s : Sv table rank_to_worker_id num_worker)
      → IsGet table rank_to_worker_id num_worker m
      → Inv table rank_to_worker_id num_worker s
      → Inv table rank_to_worker_id num_worker (cache_get table rank_to_worker_id m s)
  unfolding cache_get
  cache_get-Inv m s request inv = record {
    core = record {
      get_counts = inv.core.get_counts;
      add_counts = inv.core.add_counts;
      synced = inv.core.synced;
    };
    waits = record { size = inv.waits.size; count = inv.waits.count };
    adds_cached = inv.adds_cached;
    gets_cached =
        All-append_one (IsGet table rank_to_worker_id num_worker) s.msg_get_cache m inv.gets_cached
          request;
  }

  -- Answering a message leaves the Adds that wait, and their counters.
  keep_Waits :
      (s s₁ : Sv table rank_to_worker_id num_worker)
      → s₁.num_waited_add ≡ s.num_waited_add
      → s₁.msg_add_cache ≡ s.msg_add_cache
      → Waits table rank_to_worker_id num_worker s s.msg_add_cache
      → Waits table rank_to_worker_id num_worker s₁ s₁.msg_add_cache
  keep_Waits s s₁ counters cache waits = record {
    size = ap length counters ∙ waits.size;
    count = λ v lt.
        ap (λ (l : List ℕ). get_or l v 0) counters
        ∙ waits.count v lt
        ∙ ap (cached rank_to_worker_id v) (sym cache);
  }

  module _ (m : Message B) (s s' : Sv table rank_to_worker_id num_worker) where
    handle-get :
        m.type ≡ request_get
        → handle table rank_to_worker_id m s ≡ process_get table rank_to_worker_id m s
    unfolding handle
    handle-get e = let t : eqb_ℤ m.type request_get ≡ true = ap (λ t. eqb_ℤ t request_get) e in rw t

    handle-add :
        m.type ≡ request_add
        → handle table rank_to_worker_id m s ≡ process_add table rank_to_worker_id m s
    unfolding handle
    handle-add e =
        let t : eqb_ℤ m.type request_get ≡ false = ap (λ t. eqb_ℤ t request_get) e in
        let u : eqb_ℤ m.type request_add ≡ true = ap (λ t. eqb_ℤ t request_add) e in rw (t, u)

    handle_grows :
        IsGet table rank_to_worker_id num_worker m ⊎ IsAdd table rank_to_worker_id num_worker m
        → handle table rank_to_worker_id m s ≡ some s'
        → length s.serving.sent ≤ length s'.serving.sent
    handle_grows (inl request) h =
        process_get_grows table rank_to_worker_id m s s' (sym (handle-get request.0) ∙ h)
    handle_grows (inr request) h =
        process_add_grows table rank_to_worker_id m s s' (sym (handle-add request.0) ∙ h)

  module _ (m : Message B) (s s' : Sv table rank_to_worker_id num_worker)
      (inv : Inv table rank_to_worker_id num_worker s)
      (bound : length s'.serving.sent < int_max) where
    process_add-Inv :
        IsAdd table rank_to_worker_id num_worker m
        → process_add table rank_to_worker_id m s ≡ some s'
        → Inv table rank_to_worker_id num_worker s'
    unfolding process_add
    process_add-Inv request h =
        elim (Bool-cases (
          ltb s.worker_get_clocks.global_clock
            (local_at s.worker_get_clocks (rank_to_worker_id m.src)))) [
              | inl ahead ↦
                  subst (λ t. Inv table rank_to_worker_id num_worker t) (of_some (rw ahead at h))
                    (cache_add-Inv table rank_to_worker_id num_worker m s request inv)
              | inr in_step ↦
                  let h' : (apply_add table rank_to_worker_id m s
                        >>= after_add table rank_to_worker_id)
                      ≡ some s' =
                    rw in_step at h in
                  let ((s₁, reached), run, rest) =
                    >>=-eq-some (apply_add table rank_to_worker_id m s) _ h' in
                  let one : Applied table rank_to_worker_id num_worker s s₁ reached =
                    apply_add-Applied table rank_to_worker_id num_worker m s request.1 inv.core
                      request.0
                      (λ v lt. omega (
                        arith,
                        inv.core.get_counts.behind v lt,
                        inv.core.get_counts.counted (rank_to_worker_id m.src) request.1.1,
                        ltb_false→le s.worker_get_clocks.global_clock
                            (local_at s.worker_get_clocks (rank_to_worker_id m.src)) in_step,
                      ))
                      run in
                  after_add-Inv table rank_to_worker_id num_worker s₁ s' reached one.core
                    (keep_Waits s s₁ one.waiting one.add_cache inv.waits)
                    (subst (All (IsAdd table rank_to_worker_id num_worker)) (sym one.add_cache)
                      inv.adds_cached)
                    (subst (All (IsGet table rank_to_worker_id num_worker)) (sym one.get_cache)
                      inv.gets_cached)
                    (λ r b. one.level b r) bound rest
            ]

    process_get-Inv :
        IsGet table rank_to_worker_id num_worker m
        → process_get table rank_to_worker_id m s ≡ some s'
        → Inv table rank_to_worker_id num_worker s'
    unfolding process_get
    process_get-Inv request h =
        elim (Bool-cases (
          ltb s.worker_add_clocks.global_clock
            (local_at s.worker_add_clocks (rank_to_worker_id m.src))
          || ltb 0 (waited table rank_to_worker_id s (rank_to_worker_id m.src)))) [
            | inl ahead ↦
                subst (λ t. Inv table rank_to_worker_id num_worker t) (of_some (rw ahead at h))
                  (cache_get-Inv m s request inv)
            | inr in_step ↦
                let h' : (answer_get table rank_to_worker_id m s
                      >>= after_get table rank_to_worker_id)
                    ≡ some s' =
                  rw in_step at h in
                let ((s₁, reached), run, rest) =
                  >>=-eq-some (answer_get table rank_to_worker_id m s) _ h' in
                let one : Answered table rank_to_worker_id num_worker s s₁ reached =
                  answer_get-Answered table rank_to_worker_id num_worker m s request.1 inv.core
                    request.0
                    (λ v lt. omega (
                      arith,
                      inv.core.add_counts.behind v lt,
                      inv.core.add_counts.counted (rank_to_worker_id m.src) request.1.1,
                      or_left s.worker_add_clocks.global_clock
                          (local_at s.worker_add_clocks (rank_to_worker_id m.src))
                          (waited table rank_to_worker_id s (rank_to_worker_id m.src)) in_step,
                    ))
                    run in
                after_get-Inv table rank_to_worker_id num_worker s₁ s' reached one.core
                  (keep_Waits s s₁ one.waiting one.add_cache inv.waits)
                  (subst (All (IsAdd table rank_to_worker_id num_worker)) (sym one.add_cache)
                    inv.adds_cached)
                  (subst (All (IsGet table rank_to_worker_id num_worker)) (sym one.get_cache)
                    inv.gets_cached)
                  (λ r b. one.level b r) bound rest
          ]

    handle-Inv :
        IsGet table rank_to_worker_id num_worker m ⊎ IsAdd table rank_to_worker_id num_worker m
        → handle table rank_to_worker_id m s ≡ some s'
        → Inv table rank_to_worker_id num_worker s'
    handle-Inv (inl request) h = process_get-Inv request (sym (handle-get m s s' request.0) ∙ h)
    handle-Inv (inr request) h = process_add-Inv request (sym (handle-add m s s' request.0) ∙ h)

  -- While the clocks have not reached the largest `int`: the replies of every history of Gets and
  -- Adds are in step, each clock counts the replies to its worker, and the counters of waiting Adds
  -- count the messages held back.
  pub Reach-Inv :
      {store : table.Store} {s : Sv table rank_to_worker_id num_worker}
      → Reach store s
      → length s.serving.sent < int_max
      → Inv table rank_to_worker_id num_worker s
  Reach-Inv {store = store} start bound = new-Inv table rank_to_worker_id num_worker store
  Reach-Inv (next {s = s} {s' = s'} m r request run) bound =
      handle-Inv m s s' (Reach-Inv r (omega (arith, handle_grows m s s' request run))) bound request
        run

  -- After any history of Gets and Adds of the workers that met no fatal check, in any interleaving,
  -- and while fewer than 2^31 - 1 replies were sent: each Get was answered when every worker had had
  -- at least as many Adds applied as the one that asks, and each Add was applied when every worker
  -- had had at least as many Gets answered as the one that adds.
  pub Reach-IsSynced :
      {store : table.Store} {s : Sv table rank_to_worker_id num_worker}
      → Reach store s
      → length s.serving.sent < int_max
      → IsSynced rank_to_worker_id num_worker s.serving.sent
  Reach-IsSynced r bound = (Reach-Inv r bound).core.synced

  -- Under the same conditions, for each worker: its two clocks are the numbers of its Gets and Adds
  -- that were answered, neither global clock is ahead of it, and its counter of waiting Adds is the
  -- number of its messages in the Add cache.
  pub Reach-counts :
      {store : table.Store} {s : Sv table rank_to_worker_id num_worker}
      → Reach store s
      → length s.serving.sent < int_max
      → (v : ℕ) → v < num_worker
      → (local_at s.worker_get_clocks v ≡ gets_to table rank_to_worker_id num_worker s v)
        × (local_at s.worker_add_clocks v ≡ adds_to table rank_to_worker_id num_worker s v)
        × (s.worker_get_clocks.global_clock ≤ local_at s.worker_get_clocks v)
        × (s.worker_add_clocks.global_clock ≤ local_at s.worker_add_clocks v)
        × (waited table rank_to_worker_id s v ≡ cached rank_to_worker_id v s.msg_add_cache)
  Reach-counts r bound v lt =
      let inv = Reach-Inv r bound in
      (
        inv.core.get_counts.counted v lt,
        inv.core.add_counts.counted v lt,
        omega (arith, inv.core.get_counts.counted v lt, inv.core.get_counts.behind v lt),
        omega (arith, inv.core.add_counts.counted v lt, inv.core.add_counts.behind v lt),
        inv.waits.count v lt,
      )
