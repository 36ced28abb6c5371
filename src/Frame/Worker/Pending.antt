-- ===== src/Frame/Worker/Pending.antt =====
-- A request waits for exactly the replies that it was cut into.
use ddls.Prelude.{
  ℕ, zero, suc, ◌-◌, ◌<◌, ◌≡◌, refl, ap, ◌∙◌, List, [], ◌∷◌, ◌++◌, Option, none, some, ◌>>=◌, set,
  get_or, length, arith, get_or-set_self, length-set, length-append, lt→ltb,
}
use ddls.Prelude.Int.{ℤ}
use ddls.Message.{Message, request_get, load_model}
use ddls.Frame.Worker.{
  WorkerTable, waiter, new_request, get_async, with_option, wait, asleep, woken, reset, notify,
  to_servers, process_get, process_model, load_request, model_parts,
}

-- The replies to one request, one after the other.
unfoldable pub notify_times : ℕ → ℕ → WorkerTable → Option WorkerTable
notify_times zero id t = some t
notify_times (suc n) id t = do t' ← notify id t; notify_times n id t'

-- A table whose requests are those with an id below `msg_id_`.
abbrev pub IsTable : WorkerTable → Type 0
IsTable t = length t.waitings ≡ t.msg_id

abbrev set_waiter : WorkerTable → ℕ → Option ℕ → WorkerTable
set_waiter t id x = record t { waitings = set t.waitings id x }

notify_once :
    (t : WorkerTable) (id n : ℕ)
    → waiter t id ≡ some n
    → notify id t ≡ some (set_waiter t id (some (n - 1)))
unfolding notify
notify_once t id n h = rw h

set-set {ℓ} : {A : Type ℓ} (xs : List A) (i : ℕ) (a b : A) → set (set xs i a) i b ≡ set xs i b
set-set [] i a b = refl
set-set (x ∷ xs) zero a b = refl
set-set (x ∷ xs) (suc i) a b = ap (◌∷◌ x) (set-set xs i a b)

notify_times-set :
    (k : ℕ) (t : WorkerTable) (id n : ℕ)
    → id < length t.waitings
    → waiter t id ≡ some n
    → notify_times (suc k) id t ≡ some (set_waiter t id (some (n - suc k)))
unfolding notify_times
notify_times-set zero t id n lt h = rw (notify_once t id n h) refl
notify_times-set (suc k) t id n lt h = rw (notify_once t id n h) (
    notify_times-set k (set_waiter t id (some (n - 1))) id (n - 1)
      (omega (arith, lt, length-set t.waitings id (some (n - 1))))
      (get_or-set_self t.waitings id (some (n - 1)) none lt)
    ∙ ap (λ ws. some (record t { waitings = ws }))
        (set-set t.waitings id _ _ ∙ ap (λ c. set t.waitings id (some c)) fewer))
  where
    fewer : n - 1 - suc k ≡ n - suc (suc k)
    fewer = omega arith

-- Where `n` replies are waited for.
waits_for :
    (k : ℕ) (t : WorkerTable) (id n : ℕ)
    → id < length t.waitings
    → waiter t id ≡ some n
    → (t' : WorkerTable) × (notify_times k id t ≡ some t')
      × (waiter t' id ≡ some (n - k))
      × (length t'.waitings ≡ length t.waitings)
unfolding notify_times
waits_for zero t id n lt h = (t, refl, h ∙ ap some (omega arith), refl)
waits_for (suc k) t id n lt h = (
  set_waiter t id (some (n - suc k)),
  notify_times-set k t id n lt h,
  get_or-set_self t.waitings id (some (n - suc k)) none lt,
  length-set t.waitings id (some (n - suc k)),
)

asleep_before :
    (t : WorkerTable) (id n : ℕ) → waiter t id ≡ some n → 0 < n → wait id t ≡ some asleep
unfolding wait
asleep_before t id n h pos = rw (h, lt→ltb 0 n pos)

woken_at :
    (t : WorkerTable) (id : ℕ)
    → id < length t.waitings
    → waiter t id ≡ some 0
    → (t' : WorkerTable) × (wait id t ≡ some (woken t')) × (notify id t' ≡ none)
unfolding wait notify
woken_at t id lt h =
    (set_waiter t id none, rw h refl, rw (get_or-set_self t.waitings id none none lt))

new_waiter :
    (ws : List (Option ℕ)) (n : ℕ) (x : Option ℕ)
    → length ws ≡ n
    → (get_or (ws ++ x ∷ []) n none ≡ x) × (n < length (ws ++ x ∷ []))
new_waiter ws n x h = (at_end ws n h, omega (arith, h, length-append ws (x ∷ [])))
  where
    at_end : (ws : List (Option ℕ)) (n : ℕ) → length ws ≡ n → get_or (ws ++ x ∷ []) n none ≡ x
    at_end [] zero h = refl
    at_end [] (suc n) h = absurd (omega arith)
    at_end (w ∷ ws) zero h = absurd (omega arith)
    at_end (w ∷ ws) (suc n) h = at_end ws n (omega arith)

module _ {ℓ} {B : Type ℓ} (rank : ℕ) (server_id_to_rank : ℕ → ℕ) where
  length-to_servers :
      (type : ℤ) (m : Message B) (parts : List (ℕ × List B))
      → length (to_servers rank server_id_to_rank type m parts) ≡ length parts
  unfolding to_servers
  length-to_servers type m [] = refl
  length-to_servers type m ((server, blobs) ∷ parts) = ap suc (length-to_servers type m parts)

  length-model_parts :
      (with_id : B → ℕ → B) (file : B) (i n : ℕ)
      → length (model_parts rank server_id_to_rank with_id file i n) ≡ n
  unfolding model_parts
  length-model_parts with_id file i zero = refl
  length-model_parts with_id file i (suc n) = ap suc (length-model_parts with_id file (suc i) n)

  -- A Get that the table cuts into `n` parts, at least one, is sent as `n` messages. While fewer than `n` replies
  -- have come, the caller of Wait sleeps; at the n-th it wakes; and after that one more reply for
  -- the id would be a fatal error.
  pub get_async-wait :
      (partition : List B → Option (List (ℕ × List B))) (keys : B) (option : Option B)
      (t : WorkerTable) (parts : List (ℕ × List B))
      → IsTable t
      → partition (keys ∷ with_option option) ≡ some parts
      → 0 < length parts
      → (k : ℕ)
      → (t₂ : WorkerTable) × (t₃ : WorkerTable) × (sent : List (Message B)) × (process_get rank
            server_id_to_rank partition
            (get_async rank keys option t).1
            (get_async rank keys option t).0
          ≡ some (t₂, sent))
        × (length sent ≡ length parts)
        × (notify_times k t.msg_id t₂ ≡ some t₃)
        × (k < length parts → wait t.msg_id t₃ ≡ some asleep)
        × (k ≡ length parts
            → (t₄ : WorkerTable) × (wait t.msg_id t₃ ≡ some (woken t₄))
              × (notify t.msg_id t₄ ≡ none))
  unfolding process_get get_async new_request reset
  get_async-wait partition keys option t parts ok cut some_part k =
      let t₁ = (get_async rank keys option t).0 in
      let (fresh, inside) = new_waiter t.waitings t.msg_id (some 1) ok in
      let t₂ = set_waiter t₁ t.msg_id (some (length parts)) in
      let inside₂ : t.msg_id < length t₂.waitings =
        omega (arith, inside, length-set t₁.waitings t.msg_id (some (length parts))) in
      let (t₃, counted, left, size) =
        waits_for k t₂ t.msg_id (length parts) inside₂
          (get_or-set_self t₁.waitings t.msg_id (some (length parts)) none inside) in
      (
        t₂,
        t₃,
        to_servers rank server_id_to_rank request_get (get_async rank keys option t).1 parts,
        rw (cut, fresh) refl,
        length-to_servers request_get (get_async rank keys option t).1 parts,
        counted,
        λ before. asleep_before t₃ t.msg_id (length parts - k) left (omega (arith, before)),
        λ all.
            woken_at t₃ t.msg_id (omega (arith, size, inside₂))
              (left ∙ ap some (omega (arith, all))),
      )

  -- A Load or Store of a model leaves the count at 1, however many servers there are: the first
  -- reply wakes the caller, and the reply of a second server is then a fatal error.
  pub load_request-wait :
      (with_id : B → ℕ → B) (uri : B) (t : WorkerTable) (num_servers : ℕ)
      → IsTable t
      → (t₂ : WorkerTable) × (t₃ : WorkerTable) × (t₄ : WorkerTable) × (sent : List (Message B))
        × (process_model rank server_id_to_rank with_id num_servers load_model
              (load_request rank uri t).1
              (load_request rank uri t).0
            ≡ some (t₂, sent))
        × (length sent ≡ num_servers)
        × (notify t.msg_id t₂ ≡ some t₃)
        × (wait t.msg_id t₃ ≡ some (woken t₄))
        × (notify t.msg_id t₄ ≡ none)
  unfolding process_model load_request new_request notify_times
  load_request-wait with_id uri t num_servers ok =
      let t₂ = (load_request rank uri t).0 in
      let (fresh, inside) = new_waiter t.waitings t.msg_id (some 1) ok in
      let t₃ = set_waiter t₂ t.msg_id (some (1 - 1)) in
      let inside₃ : t.msg_id < length t₃.waitings =
        omega (arith, inside, length-set t₂.waitings t.msg_id (some (1 - 1))) in
      let (t₄, woke, gone) =
        woken_at t₃ t.msg_id inside₃
          (get_or-set_self t₂.waitings t.msg_id (some (1 - 1)) none inside) in
      (
        t₂,
        t₃,
        t₄,
        to_servers rank server_id_to_rank load_model (load_request rank uri t).1
            (model_parts rank server_id_to_rank with_id uri 0 num_servers),
        refl,
        length-to_servers load_model _ _ ∙ length-model_parts with_id uri 0 num_servers,
        notify_once t₂ t.msg_id 1 fresh,
        woke,
        gone,
      )
