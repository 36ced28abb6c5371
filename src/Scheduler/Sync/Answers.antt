-- ===== src/Scheduler/Sync/Answers.antt =====
-- One answered Get and one applied Add keep the invariant.
use ddls.Prelude.{
  ℕ, ◌+◌, ◌≤◌, ◌<◌, ◌≡◌, ◌≢◌, refl, ap, inl, inr, List, [], ◌∷◌, some, Bool, true, ◌==◌, arith,
  length, Option-cases, of_some, subst, >>=-eq-some, if◌then◌else◌,
}
use ddls.Prelude.Int.{ℤ, neg}
use ddls.Message.{Message, request_get, request_add, reply_get, reply_add, create_reply_message}
use ddls.Scheduler.Clock.{tick, update, int_max}
use ddls.Scheduler.Clock.Laws.{update-tick}
use ddls.Scheduler.Table
use ddls.Scheduler.Table.{ServerTable, Serving}
use ddls.Scheduler.Sync.{SyncScheduler, answer_get, apply_add}
use ddls.Scheduler.Sync.Count.{gets, adds, replies-le-length}
use ddls.Scheduler.Sync.Inv.{IsSynced, Counts, step-Counts, tick-IsLevel, IsLevel, Counts-congr}

module _ {ℓ} {B : Type ℓ} (table : ServerTable B) where
  pub process_get_cases {κ} :
      (P : Serving table → Type κ) (m : Message B) (s : Serving table)
      → m.blobs ≢ []
      → ((answer : List B) (store : table.Store)
          → P (record {
            store = store;
            sent = record (create_reply_message m) { blobs = answer } ∷ s.sent;
          }))
      → {s' : Serving table} → Table.process_get table m s ≡ some s'
      → P s'
  unfolding Table.process_get
  process_get_cases P m s filled case {s'} h =
      elim (Option-cases (table.process_get m.blobs s.store)) [
        | inl e ↦ absurd (ground arith)
        | inr ((answer, store), e) ↦ subst P (ground arith) (case answer store)
      ]

  pub process_add_cases {κ} :
      (P : Serving table → Type κ) (m : Message B) (s : Serving table)
      → m.blobs ≢ []
      → ((store : table.Store)
          → P (record { store = store; sent = create_reply_message m ∷ s.sent }))
      → {s' : Serving table} → Table.process_add table m s ≡ some s'
      → P s'
  unfolding Table.process_add
  process_add_cases P m s filled case {s'} h =
      elim (Option-cases (table.process_add m.blobs s.store)) [
        | inl e ↦ absurd (ground arith)
        | inr (store, e) ↦ subst P (ground arith) (case store)
      ]

get_ne_add : (t : ℤ) → t ≡ request_get → neg t ≢ reply_add
get_ne_add t h e = ground (arith, ap neg h)

add_ne_get : (t : ℤ) → t ≡ request_add → neg t ≢ reply_get
add_ne_get t h e = ground (arith, ap neg h)

module _ {ℓ} {B : Type ℓ} (table : ServerTable B) (rank_to_worker_id : ℕ → ℕ) (num_worker : ℕ) where
  abbrev pub State : Type ℓ
  State = SyncScheduler table rank_to_worker_id

  abbrev pub gets_to : State → ℕ → ℕ
  gets_to s w = gets rank_to_worker_id w s.serving.sent

  abbrev pub adds_to : State → ℕ → ℕ
  adds_to s w = adds rank_to_worker_id w s.serving.sent

  pub record Core (s : State) : Type ℓ where
    pub get_counts : Counts num_worker s.worker_get_clocks (gets_to s)
    pub add_counts : Counts num_worker s.worker_add_clocks (adds_to s)
    pub synced : IsSynced rank_to_worker_id num_worker s.serving.sent

  -- A request that a worker sends: it names keys, and its sender is a worker.
  abbrev pub IsRequest : Message B → Type ℓ
  IsRequest m = (m.blobs ≢ []) × (rank_to_worker_id m.src < num_worker)

  -- What one answered Get (or applied Add) does: the invariant is kept, only the one count moves,
  -- the caches and the waiting counters stay, and the flag is true only at level counts.
  pub record Answered (s s' : State) (reached : Bool) : Type ℓ where
    pub core : Core s'
    pub same_adds : (v : ℕ) → adds_to s' v ≡ adds_to s v
    pub add_cache : s'.msg_add_cache ≡ s.msg_add_cache
    pub get_cache : s'.msg_get_cache ≡ s.msg_get_cache
    pub waiting : s'.num_waited_add ≡ s.num_waited_add
    pub level : length s'.serving.sent < int_max → reached ≡ true → IsLevel num_worker (gets_to s')

  pub record Applied (s s' : State) (reached : Bool) : Type ℓ where
    pub core : Core s'
    pub same_gets : (v : ℕ) → gets_to s' v ≡ gets_to s v
    pub add_cache : s'.msg_add_cache ≡ s.msg_add_cache
    pub get_cache : s'.msg_get_cache ≡ s.msg_get_cache
    pub waiting : s'.num_waited_add ≡ s.num_waited_add
    pub level : length s'.serving.sent < int_max → reached ≡ true → IsLevel num_worker (adds_to s')

  module _ (m : Message B) (s : State) (request : IsRequest m) (core : Core s) where
    w : ℕ
    w = rank_to_worker_id m.src

    after_answer : List B → table.Store → State
    after_answer answer store = record s {
      serving = record {
        store = store;
        sent = record (create_reply_message m) { blobs = answer } ∷ s.serving.sent;
      };
      worker_get_clocks = (tick s.worker_get_clocks (rank_to_worker_id m.src)).0;
    }

    after_apply : table.Store → State
    after_apply store = record s {
      serving = record { store = store; sent = create_reply_message m ∷ s.serving.sent };
      worker_add_clocks = (tick s.worker_add_clocks (rank_to_worker_id m.src)).0;
    }

    module _ (is_get : m.type ≡ request_get) (answer : List B) (store : table.Store) where
      gets_to-after :
          (v : ℕ) → gets_to (after_answer answer store) v ≡ (if w == v then 1 else 0) + gets_to s v
      unfolding after_answer w create_reply_message
      gets_to-after v = rw is_get

      adds_to-after : (v : ℕ) → adds_to (after_answer answer store) v ≡ adds_to s v
      unfolding after_answer w create_reply_message
      adds_to-after v = rw is_get (omega arith)

      after_answer-Answered :
          ((v : ℕ) → v < num_worker → adds_to s (rank_to_worker_id m.src) ≤ adds_to s v)
          → Answered s
              (after_answer answer store)
              (tick s.worker_get_clocks (rank_to_worker_id m.src)).1
      unfolding after_answer w create_reply_message
      after_answer-Answered fair = record {
        core = record {
          get_counts =
              step-Counts num_worker w request.1 s.worker_get_clocks (gets_to s) core.get_counts _
                gets_to-after;
          add_counts = Counts-congr (adds_to s) _ adds_to-after core.add_counts;
          synced = ((λ _. fair, λ e. absurd (get_ne_add m.type is_get e)), core.synced);
        };
        same_adds = adds_to-after;
        add_cache = refl;
        get_cache = refl;
        waiting = refl;
        level = λ bound.
            tick-IsLevel num_worker w request.1 s.worker_get_clocks (gets_to s) core.get_counts _
              gets_to-after
              (λ v lt. omega (
                arith,
                replies-le-length rank_to_worker_id reply_get v
                    (after_answer answer store).serving.sent,
              ));
      }

    module _ (is_add : m.type ≡ request_add) (store : table.Store) where
      gets_to-apply : (v : ℕ) → gets_to (after_apply store) v ≡ gets_to s v
      unfolding after_apply w create_reply_message
      gets_to-apply v = rw is_add (omega arith)

      adds_to-apply :
          (v : ℕ) → adds_to (after_apply store) v ≡ (if w == v then 1 else 0) + adds_to s v
      unfolding after_apply w create_reply_message
      adds_to-apply v = rw is_add

      after_apply-Applied :
          ((v : ℕ) → v < num_worker → gets_to s (rank_to_worker_id m.src) ≤ gets_to s v)
          → Applied s (after_apply store) (tick s.worker_add_clocks (rank_to_worker_id m.src)).1
      unfolding after_apply w create_reply_message
      after_apply-Applied fair = record {
        core = record {
          get_counts = Counts-congr (gets_to s) _ gets_to-apply core.get_counts;
          add_counts =
              step-Counts num_worker w request.1 s.worker_add_clocks (adds_to s) core.add_counts _
                adds_to-apply;
          synced = ((λ e. absurd (add_ne_get m.type is_add e), λ _. fair), core.synced);
        };
        same_gets = gets_to-apply;
        add_cache = refl;
        get_cache = refl;
        waiting = refl;
        level = λ bound.
            tick-IsLevel num_worker w request.1 s.worker_add_clocks (adds_to s) core.add_counts _
              adds_to-apply
              (λ v lt. omega (
                arith,
                replies-le-length rank_to_worker_id reply_add v (after_apply store).serving.sent,
              ));
      }

    pub answer_get-Answered :
        m.type ≡ request_get
        → ((v : ℕ) → v < num_worker → adds_to s (rank_to_worker_id m.src) ≤ adds_to s v)
        → {r : State × Bool} → answer_get table rank_to_worker_id m s ≡ some r
        → Answered s r.0 r.1
    unfolding answer_get after_answer
    answer_get-Answered is_get fair {r} h =
        let (serving, run, rest) = >>=-eq-some (Table.process_get table m s.serving) _ h in
        let (ticked, stepped, _) = >>=-eq-some (update s.worker_get_clocks _) _ rest in
        let e = rw (update-tick s.worker_get_clocks (rank_to_worker_id m.src) stepped) at rest in
        subst (λ (r : State × Bool). Answered s r.0 r.1) (of_some e)
          (process_get_cases table
            (λ sv.
              Answered s
                (record s {
                  serving = sv;
                  worker_get_clocks = (tick s.worker_get_clocks (rank_to_worker_id m.src)).0;
                })
                (tick s.worker_get_clocks (rank_to_worker_id m.src)).1)
            m s.serving request.0 (λ answer store. after_answer-Answered is_get answer store fair)
            run)

    pub apply_add-Applied :
        m.type ≡ request_add
        → ((v : ℕ) → v < num_worker → gets_to s (rank_to_worker_id m.src) ≤ gets_to s v)
        → {r : State × Bool} → apply_add table rank_to_worker_id m s ≡ some r
        → Applied s r.0 r.1
    unfolding apply_add after_apply
    apply_add-Applied is_add fair {r} h =
        let (serving, run, rest) = >>=-eq-some (Table.process_add table m s.serving) _ h in
        let (ticked, stepped, _) = >>=-eq-some (update s.worker_add_clocks _) _ rest in
        let e = rw (update-tick s.worker_add_clocks (rank_to_worker_id m.src) stepped) at rest in
        subst (λ (r : State × Bool). Applied s r.0 r.1) (of_some e)
          (process_add_cases table
            (λ sv.
              Applied s
                (record s {
                  serving = sv;
                  worker_add_clocks = (tick s.worker_add_clocks (rank_to_worker_id m.src)).0;
                })
                (tick s.worker_add_clocks (rank_to_worker_id m.src)).1)
            m s.serving request.0 (λ store. after_apply-Applied is_add store fair) run)
