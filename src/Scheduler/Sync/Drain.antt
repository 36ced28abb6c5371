-- ===== src/Scheduler/Sync/Drain.antt =====
-- The loops that answer the cached messages keep the invariant.
use ddls.Prelude.{
  ℕ, ◌-◌, ◌<◌, ◌≡◌, refl, ap, ◌∙◌, inl, inr, List, [], ◌∷◌, some, arith, length, >>=-eq-some,
  check-eq-some, get_or, All, Nat-cases, not, length-set, get_or-set_self, get_or-set_ne, ==_refl,
  ==_ne, subst, of_some,
}
use ddls.Message.{Message, request_get, request_add}
use ddls.Scheduler.Table.{ServerTable}
use ddls.Scheduler.Sync.{answer_get, apply_add, waited, drain_gets, drain_adds, unwait}
use ddls.Scheduler.Sync.Count.{cached}
use ddls.Scheduler.Sync.Inv.{IsLevel}
use ddls.Scheduler.Sync.Answers.{
  State, gets_to, adds_to, Core, IsRequest, Answered, Applied, answer_get-Answered,
  apply_add-Applied,
}

module _ {ℓ} {B : Type ℓ} (table : ServerTable B) (rank_to_worker_id : ℕ → ℕ) (num_worker : ℕ) where
  abbrev pub IsGet : Message B → Type ℓ
  IsGet m = (m.type ≡ request_get) × IsRequest table rank_to_worker_id num_worker m

  abbrev pub IsAdd : Message B → Type ℓ
  IsAdd m = (m.type ≡ request_add) × IsRequest table rank_to_worker_id num_worker m

  abbrev pub Srv : Type ℓ
  Srv = State table rank_to_worker_id num_worker

  -- The counters of waiting Adds count the messages of a cache.
  pub record Waits (s : Srv) (ms : List (Message B)) : Type ℓ where
    pub size : length s.num_waited_add ≡ num_worker
    pub count :
        (v : ℕ)
        → v < num_worker
        → waited table rank_to_worker_id s v ≡ cached rank_to_worker_id v ms

  pub record DrainedGets (s s' : Srv) : Type ℓ where
    pub core : Core table rank_to_worker_id num_worker s'
    pub add_cache : s'.msg_add_cache ≡ s.msg_add_cache
    pub get_cache : s'.msg_get_cache ≡ []
    pub waiting : s'.num_waited_add ≡ s.num_waited_add

  pub drain_gets-Drained :
      (ms : List (Message B)) (s s' : Srv)
      → All IsGet ms
      → Core table rank_to_worker_id num_worker s
      → IsLevel num_worker (adds_to table rank_to_worker_id num_worker s)
      → drain_gets table rank_to_worker_id ms s ≡ some s'
      → DrainedGets s s'
  unfolding drain_gets
  drain_gets-Drained [] s s' all core level h =
      subst (λ t. DrainedGets s t) (of_some h)
        (record {
          core = record {
            get_counts = core.get_counts;
            add_counts = core.add_counts;
            synced = core.synced;
          };
          add_cache = refl;
          get_cache = refl;
          waiting = refl;
        })
  drain_gets-Drained (m ∷ ms) s s' all core level h =
      let ((s₁, reached), run, rest) = >>=-eq-some (answer_get table rank_to_worker_id m s) _ h in
      let (low, more) =
        check-eq-some (not reached) (drain_gets table rank_to_worker_id ms s₁) rest in
      let one : Answered table rank_to_worker_id num_worker s s₁ reached =
        answer_get-Answered table rank_to_worker_id num_worker m s all.0.1 core all.0.0
          (λ v lt. level _ v all.0.1.1 lt) run in
      let done : DrainedGets s₁ s' =
        drain_gets-Drained ms s₁ s' all.1 one.core
          (λ u v u_lt v_lt. rw (one.same_adds u, one.same_adds v) (level u v u_lt v_lt)) more in
      record {
        core = done.core;
        add_cache = done.add_cache ∙ one.add_cache;
        get_cache = done.get_cache;
        waiting = done.waiting ∙ one.waiting;
      }

  pub record DrainedAdds (s s' : Srv) : Type ℓ where
    pub core : Core table rank_to_worker_id num_worker s'
    pub add_cache : s'.msg_add_cache ≡ []
    pub get_cache : s'.msg_get_cache ≡ s.msg_get_cache
    pub waits : Waits s' []

  unwait-Waits :
      (m : Message B) (ms : List (Message B)) (s : Srv)
      → rank_to_worker_id m.src < num_worker
      → Waits s (m ∷ ms)
      → Waits (unwait table rank_to_worker_id (rank_to_worker_id m.src) s) ms
  unfolding unwait
  unwait-Waits m ms s lt w = record {
    size = length-set s.num_waited_add _ _ ∙ w.size;
    count = λ v v_lt. elim (Nat-cases (rank_to_worker_id m.src) v) [
      | inl e ↦ rw (← e) (
          ground (
            arith,
            get_or-set_self s.num_waited_add (rank_to_worker_id m.src)
                (waited table rank_to_worker_id s (rank_to_worker_id m.src) - 1) 0
                (omega (arith, w.size)),
            w.count (rank_to_worker_id m.src) lt,
            ==_refl (rank_to_worker_id m.src),
          ))
      | inr ne ↦ ground (
        arith,
        get_or-set_ne s.num_waited_add (rank_to_worker_id m.src) v
            (waited table rank_to_worker_id s (rank_to_worker_id m.src) - 1) 0 ne,
        w.count v v_lt,
        ==_ne (rank_to_worker_id m.src) v ne,
      )
    ];
  }

  pub drain_adds-Drained :
      (ms : List (Message B)) (s s' : Srv)
      → All IsAdd ms
      → Core table rank_to_worker_id num_worker s
      → Waits s ms
      → IsLevel num_worker (gets_to table rank_to_worker_id num_worker s)
      → drain_adds table rank_to_worker_id ms s ≡ some s'
      → DrainedAdds s s'
  unfolding drain_adds unwait
  drain_adds-Drained [] s s' all core waits level h =
      subst (λ t. DrainedAdds s t) (of_some h)
        (record {
          core = record {
            get_counts = core.get_counts;
            add_counts = core.add_counts;
            synced = core.synced;
          };
          add_cache = refl;
          get_cache = refl;
          waits = record { size = waits.size; count = waits.count };
        })
  drain_adds-Drained (m ∷ ms) s s' all core waits level h =
      let ((s₁, reached), run, rest) = >>=-eq-some (apply_add table rank_to_worker_id m s) _ h in
      let s₂ : Srv = unwait table rank_to_worker_id (rank_to_worker_id m.src) s₁ in
      let (low, more) =
        check-eq-some (not reached) (drain_adds table rank_to_worker_id ms s₂) rest in
      let one : Applied table rank_to_worker_id num_worker s s₁ reached =
        apply_add-Applied table rank_to_worker_id num_worker m s all.0.1 core all.0.0
          (λ v lt. level _ v all.0.1.1 lt) run in
      let kept : Waits s₁ (m ∷ ms) = record {
        size = ap length one.waiting ∙ waits.size;
        count = λ v lt. ap (λ (l : List ℕ). get_or l v 0) one.waiting ∙ waits.count v lt;
      } in
      let done : DrainedAdds s₂ s' =
        drain_adds-Drained ms s₂ s' all.1
          (record {
            get_counts = one.core.get_counts;
            add_counts = one.core.add_counts;
            synced = one.core.synced;
          })
          (unwait-Waits m ms s₁ all.0.1.1 kept)
          (λ u v u_lt v_lt. rw (one.same_gets u, one.same_gets v) (level u v u_lt v_lt)) more in
      record {
        core = done.core;
        add_cache = done.add_cache;
        get_cache = done.get_cache ∙ one.get_cache;
        waits = done.waits;
      }
