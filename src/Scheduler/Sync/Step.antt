-- ===== src/Scheduler/Sync/Step.antt =====
-- The whole invariant of the synchronous scheduler, kept by every branch of the handlers.
use ddls.Prelude.{
  ℕ, ◌+◌, ◌<◌, ◌≡◌, ◌≢◌, refl, sym, ap, ◌∙◌, inl, inr, List, [], ◌∷◌, ◌++◌, some, Bool, true, false,
  arith, length, check-eq-some, get_or, set, All, Nat-cases, length-set, length-replicate,
  get_or-replicate, get_or-set_self, get_or-set_ne, ==_refl, ==_ne, subst, of_some,
}
use ddls.Message.{Message}
use ddls.Scheduler.Clock.{local_at, int_max}
use ddls.Scheduler.Clock
use ddls.Scheduler.Table.{ServerTable}
use ddls.Scheduler.Sync.{new, is_empty, waited, drain_gets, cache_add, after_add, after_get}
use ddls.Scheduler.Sync.Growth.{drain_gets_grows, drain_adds_grows}
use ddls.Scheduler.Sync.Count.{cached, cached-append}
use ddls.Scheduler.Sync.Inv.{IsLevel, Counts}
use ddls.Scheduler.Sync.Answers.{gets_to, adds_to, Core}
use ddls.Scheduler.Sync.Drain.{
  IsGet, IsAdd, Srv, Waits, DrainedGets, DrainedAdds, drain_gets-Drained, drain_adds-Drained,
}

pub All-append_one {ℓ κ} :
    {A : Type ℓ} (P : A → Type κ) (xs : List A) (x : A) → All P xs → P x → All P (xs ++ x ∷ [])
All-append_one P [] x a p = (p, tt)
All-append_one P (y ∷ xs) x a p = (a.0, All-append_one P xs x a.1 p)

is_empty-eq-nil {ℓ} : {A : Type ℓ} (xs : List A) → is_empty xs ≡ true → xs ≡ []
unfolding is_empty
is_empty-eq-nil [] h = refl
is_empty-eq-nil (x ∷ xs) h = cc

module _ {ℓ} {B : Type ℓ} (table : ServerTable B) (rank_to_worker_id : ℕ → ℕ) (num_worker : ℕ) where
  abbrev pub Sv : Type ℓ
  Sv = Srv table rank_to_worker_id num_worker

  pub record Inv (s : Sv) : Type ℓ where
    pub core : Core table rank_to_worker_id num_worker s
    pub waits : Waits table rank_to_worker_id num_worker s s.msg_add_cache
    pub adds_cached : All (IsAdd table rank_to_worker_id num_worker) s.msg_add_cache
    pub gets_cached : All (IsGet table rank_to_worker_id num_worker) s.msg_get_cache

  pub new-Inv : (store : table.Store) → Inv (new table rank_to_worker_id num_worker store)
  unfolding new Clock.new
  new-Inv store = record {
    core = record { get_counts = zeros; add_counts = zeros; synced = tt };
    waits = record {
      size = length-replicate num_worker 0;
      count = λ v lt. get_or-replicate num_worker v 0;
    };
    adds_cached = tt;
    gets_cached = tt;
  }
    where
      zeros : Counts num_worker (Clock.new num_worker) (λ v. 0)
      zeros = record {
        size = length-replicate num_worker 0;
        behind = λ v lt. omega arith;
        counted = λ v lt. get_or-replicate num_worker v 0;
      }

  pub cache_add-Inv :
      (m : Message B) (s : Sv)
      → IsAdd table rank_to_worker_id num_worker m
      → Inv s
      → Inv (cache_add table rank_to_worker_id m s)
  unfolding cache_add
  cache_add-Inv m s request inv = record {
    core = record {
      get_counts = inv.core.get_counts;
      add_counts = inv.core.add_counts;
      synced = inv.core.synced;
    };
    waits = record { size = length-set s.num_waited_add _ _ ∙ inv.waits.size; count = counts };
    adds_cached =
        All-append_one (IsAdd table rank_to_worker_id num_worker) s.msg_add_cache m inv.adds_cached
          request;
    gets_cached = inv.gets_cached;
  }
    where
      w : ℕ
      w = rank_to_worker_id m.src

      one_more : cached rank_to_worker_id w (m ∷ []) ≡ 1
      one_more = rw (==_refl w)

      no_more : (v : ℕ) → w ≢ v → cached rank_to_worker_id v (m ∷ []) ≡ 0
      no_more v ne = rw (==_ne w v ne)

      counts :
          (v : ℕ)
          → v < num_worker
          → get_or (set s.num_waited_add w (waited table rank_to_worker_id s w + 1)) v 0
            ≡ cached rank_to_worker_id v (s.msg_add_cache ++ m ∷ [])
      counts v lt = elim (Nat-cases w v) [
        | inl e ↦ rw (← e) (
            omega (
              arith,
              cached-append rank_to_worker_id w s.msg_add_cache (m ∷ []),
              get_or-set_self s.num_waited_add w (waited table rank_to_worker_id s w + 1) 0
                  (omega (arith, inv.waits.size)),
              inv.waits.count w request.1.1,
              one_more,
            ))
        | inr ne ↦ omega (
          arith,
          cached-append rank_to_worker_id v s.msg_add_cache (m ∷ []),
          get_or-set_ne s.num_waited_add w v (waited table rank_to_worker_id s w + 1) 0 ne,
          inv.waits.count v lt,
          no_more v ne,
        )
      ]

  pub after_add-Inv :
      (s s' : Sv) (reached : Bool)
      → Core table rank_to_worker_id num_worker s
      → Waits table rank_to_worker_id num_worker s s.msg_add_cache
      → All (IsAdd table rank_to_worker_id num_worker) s.msg_add_cache
      → All (IsGet table rank_to_worker_id num_worker) s.msg_get_cache
      → (reached ≡ true
          → length s.serving.sent < int_max
          → IsLevel num_worker (adds_to table rank_to_worker_id num_worker s))
      → length s'.serving.sent < int_max
      → after_add table rank_to_worker_id (s, reached) ≡ some s'
      → Inv s'
  unfolding after_add
  after_add-Inv s s' false core waits adds gets level bound h =
      subst (λ t. Inv t) (of_some h)
        (record { core = core; waits = waits; adds_cached = adds; gets_cached = gets })
  after_add-Inv s s' true core waits adds gets level bound h =
      let (idle, more) =
        check-eq-some (is_empty s.msg_add_cache)
          (drain_gets table rank_to_worker_id s.msg_get_cache s) h in
      let grown = drain_gets_grows table rank_to_worker_id s.msg_get_cache s s' more in
      let done : DrainedGets table rank_to_worker_id num_worker s s' =
        drain_gets-Drained table rank_to_worker_id num_worker s.msg_get_cache s s' gets core
          (level refl (omega (arith, grown))) more in
      record {
        core = done.core;
        waits = record {
          size = ap length done.waiting ∙ waits.size;
          count = λ v lt.
              ap (λ (l : List ℕ). get_or l v 0) done.waiting
              ∙ waits.count v lt
              ∙ ap (cached rank_to_worker_id v) (sym done.add_cache);
        };
        adds_cached =
            subst (All (IsAdd table rank_to_worker_id num_worker)) (sym done.add_cache) adds;
        gets_cached =
            subst (All (IsGet table rank_to_worker_id num_worker)) (sym done.get_cache) tt;
      }

  pub after_get-Inv :
      (s s' : Sv) (reached : Bool)
      → Core table rank_to_worker_id num_worker s
      → Waits table rank_to_worker_id num_worker s s.msg_add_cache
      → All (IsAdd table rank_to_worker_id num_worker) s.msg_add_cache
      → All (IsGet table rank_to_worker_id num_worker) s.msg_get_cache
      → (reached ≡ true
          → length s.serving.sent < int_max
          → IsLevel num_worker (gets_to table rank_to_worker_id num_worker s))
      → length s'.serving.sent < int_max
      → after_get table rank_to_worker_id (s, reached) ≡ some s'
      → Inv s'
  unfolding after_get
  after_get-Inv s s' false core waits adds gets level bound h =
      subst (λ t. Inv t) (of_some h)
        (record { core = core; waits = waits; adds_cached = adds; gets_cached = gets })
  after_get-Inv s s' true core waits adds gets level bound h =
      let grown = drain_adds_grows table rank_to_worker_id s.msg_add_cache s s' h in
      let done : DrainedAdds table rank_to_worker_id num_worker s s' =
        drain_adds-Drained table rank_to_worker_id num_worker s.msg_add_cache s s' adds core waits
          (level refl (omega (arith, grown))) h in
      record {
        core = done.core;
        waits = record {
          size = done.waits.size;
          count =
              λ v lt. done.waits.count v lt ∙ ap (cached rank_to_worker_id v) (sym done.add_cache);
        };
        adds_cached =
            subst (All (IsAdd table rank_to_worker_id num_worker)) (sym done.add_cache) tt;
        gets_cached =
            subst (All (IsGet table rank_to_worker_id num_worker)) (sym done.get_cache) gets;
      }
