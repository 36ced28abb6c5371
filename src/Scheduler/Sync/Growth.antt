-- ===== src/Scheduler/Sync/Growth.antt =====
-- The list of replies only grows.
use ddls.Prelude.{
  ℕ, ◌≤◌, ◌≡◌, List, [], ◌∷◌, some, Bool, true, false, arith, length, >>=-eq-some, check-eq-some,
  not, of_some, subst, Option-cases, inl, inr, Bool-cases, ltb, ◌||◌, ◌>>=◌,
}
use ddls.Message.{Message}
use ddls.Scheduler.Clock.{local_at}
use ddls.Scheduler.Clock.{update}
use ddls.Scheduler.Table
use ddls.Scheduler.Table.{ServerTable, Serving}
use ddls.Scheduler.Sync.{
  SyncScheduler, waited, answer_get, apply_add, drain_gets, drain_adds, unwait, after_add,
  after_get, process_add, process_get, cache_add, cache_get, is_empty,
}

module _ {ℓ} {B : Type ℓ} (table : ServerTable B) where
  get_grows :
      (m : Message B) (s s' : Serving table)
      → Table.process_get table m s ≡ some s'
      → length s.sent ≤ length s'.sent
  unfolding Table.process_get
  get_grows m s s' h = elim (Option-cases (table.process_get m.blobs s.store)) [
    | inl e ↦ ground arith
    | inr ((answer, store), e) ↦ ground arith
  ]

  add_grows :
      (m : Message B) (s s' : Serving table)
      → Table.process_add table m s ≡ some s'
      → length s.sent ≤ length s'.sent
  unfolding Table.process_add
  add_grows m s s' h = elim (Option-cases (table.process_add m.blobs s.store)) [
    | inl e ↦ ground arith
    | inr (store, e) ↦ ground arith
  ]

module _ {ℓ} {B : Type ℓ} (table : ServerTable B) (rank_to_worker_id : ℕ → ℕ) where
  abbrev pub sent : SyncScheduler table rank_to_worker_id → ℕ
  sent s = length s.serving.sent

  pub answer_get_grows :
      (m : Message B) (s : SyncScheduler table rank_to_worker_id)
      {r : SyncScheduler table rank_to_worker_id × Bool}
      → answer_get table rank_to_worker_id m s ≡ some r
      → sent s ≤ sent r.0
  unfolding answer_get
  answer_get_grows m s {r} h =
      let (serving, run, rest) = >>=-eq-some (Table.process_get table m s.serving) _ h in
      let (ticked, stepped, e) = >>=-eq-some (update s.worker_get_clocks _) _ rest in
      subst (λ (r : SyncScheduler table rank_to_worker_id × Bool). sent s ≤ sent r.0) (of_some e)
        (get_grows table m s.serving serving run)

  pub apply_add_grows :
      (m : Message B) (s : SyncScheduler table rank_to_worker_id)
      {r : SyncScheduler table rank_to_worker_id × Bool}
      → apply_add table rank_to_worker_id m s ≡ some r
      → sent s ≤ sent r.0
  unfolding apply_add
  apply_add_grows m s {r} h =
      let (serving, run, rest) = >>=-eq-some (Table.process_add table m s.serving) _ h in
      let (ticked, stepped, e) = >>=-eq-some (update s.worker_add_clocks _) _ rest in
      subst (λ (r : SyncScheduler table rank_to_worker_id × Bool). sent s ≤ sent r.0) (of_some e)
        (add_grows table m s.serving serving run)

  pub drain_gets_grows :
      (ms : List (Message B)) (s s' : SyncScheduler table rank_to_worker_id)
      → drain_gets table rank_to_worker_id ms s ≡ some s'
      → sent s ≤ sent s'
  unfolding drain_gets
  drain_gets_grows [] s s' h =
      subst (λ (t : SyncScheduler table rank_to_worker_id). sent s ≤ sent t) (of_some h)
        (omega arith)
  drain_gets_grows (m ∷ ms) s s' h =
      let ((s₁, reached), run, rest) = >>=-eq-some (answer_get table rank_to_worker_id m s) _ h in
      let (low, more) =
        check-eq-some (not reached) (drain_gets table rank_to_worker_id ms s₁) rest in
      omega (arith, answer_get_grows m s run, drain_gets_grows ms s₁ s' more)

  pub drain_adds_grows :
      (ms : List (Message B)) (s s' : SyncScheduler table rank_to_worker_id)
      → drain_adds table rank_to_worker_id ms s ≡ some s'
      → sent s ≤ sent s'
  unfolding drain_adds unwait
  drain_adds_grows [] s s' h =
      subst (λ (t : SyncScheduler table rank_to_worker_id). sent s ≤ sent t) (of_some h)
        (omega arith)
  drain_adds_grows (m ∷ ms) s s' h =
      let ((s₁, reached), run, rest) = >>=-eq-some (apply_add table rank_to_worker_id m s) _ h in
      let s₂ : SyncScheduler table rank_to_worker_id =
        unwait table rank_to_worker_id (rank_to_worker_id m.src) s₁ in
      let (low, more) =
        check-eq-some (not reached) (drain_adds table rank_to_worker_id ms s₂) rest in
      omega (arith, apply_add_grows m s run, drain_adds_grows ms s₂ s' more)

  after_add_grows :
      (r : SyncScheduler table rank_to_worker_id × Bool)
      (s' : SyncScheduler table rank_to_worker_id)
      → after_add table rank_to_worker_id r ≡ some s'
      → sent r.0 ≤ sent s'
  unfolding after_add
  after_add_grows (s, false) s' h =
      subst (λ (t : SyncScheduler table rank_to_worker_id). sent s ≤ sent t) (of_some h)
        (omega arith)
  after_add_grows (s, true) s' h =
      drain_gets_grows s.msg_get_cache s s' (check-eq-some (is_empty s.msg_add_cache) _ h).1

  after_get_grows :
      (r : SyncScheduler table rank_to_worker_id × Bool)
      (s' : SyncScheduler table rank_to_worker_id)
      → after_get table rank_to_worker_id r ≡ some s'
      → sent r.0 ≤ sent s'
  unfolding after_get
  after_get_grows (s, false) s' h =
      subst (λ (t : SyncScheduler table rank_to_worker_id). sent s ≤ sent t) (of_some h)
        (omega arith)
  after_get_grows (s, true) s' h = drain_adds_grows s.msg_add_cache s s' h

  pub process_add_grows :
      (m : Message B) (s s' : SyncScheduler table rank_to_worker_id)
      → process_add table rank_to_worker_id m s ≡ some s'
      → sent s ≤ sent s'
  unfolding process_add cache_add
  process_add_grows m s s' h =
      elim (Bool-cases (
        ltb s.worker_get_clocks.global_clock
          (local_at s.worker_get_clocks (rank_to_worker_id m.src)))) [
            | inl ahead ↦
                subst (λ (t : SyncScheduler table rank_to_worker_id). sent s ≤ sent t)
                  (of_some (rw ahead at h)) (omega arith)
            | inr in_step ↦
                let h' : (apply_add table rank_to_worker_id m s
                      >>= after_add table rank_to_worker_id)
                    ≡ some s' =
                  rw in_step at h in
                let (r, run, rest) = >>=-eq-some (apply_add table rank_to_worker_id m s) _ h' in
                omega (arith, apply_add_grows m s run, after_add_grows r s' rest)
          ]

  pub process_get_grows :
      (m : Message B) (s s' : SyncScheduler table rank_to_worker_id)
      → process_get table rank_to_worker_id m s ≡ some s'
      → sent s ≤ sent s'
  unfolding process_get cache_get
  process_get_grows m s s' h =
      elim (Bool-cases (
        ltb s.worker_add_clocks.global_clock
          (local_at s.worker_add_clocks (rank_to_worker_id m.src))
        || ltb 0 (waited table rank_to_worker_id s (rank_to_worker_id m.src)))) [
          | inl ahead ↦
              subst (λ (t : SyncScheduler table rank_to_worker_id). sent s ≤ sent t)
                (of_some (rw ahead at h)) (omega arith)
          | inr in_step ↦
              let h' : (answer_get table rank_to_worker_id m s
                    >>= after_get table rank_to_worker_id)
                  ≡ some s' =
                rw in_step at h in
              let (r, run, rest) = >>=-eq-some (answer_get table rank_to_worker_id m s) _ h' in
              omega (arith, answer_get_grows m s run, after_get_grows r s' rest)
        ]
