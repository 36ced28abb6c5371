-- ===== src/Common/Queue.antt =====
-- common/queue.h: each operation holds the lock, so it is one step. A thread whose Pop or Front finds
-- the queue empty and not exited is asleep; waking is not modelled beyond that.
use ddls.Prelude.{
  ℕ, zero, suc, ◌≡◌, refl, List, [], ◌∷◌, ◌++◌, Bool, true, false, length, append_assoc, append-nil,
  map, ap, sym, ◌∙◌,
}

pub record Queue {ℓ} (A : Type ℓ) : Type ℓ where
  pub buffer : List A
  pub exit : Bool

-- What a call that may block does: it sleeps, gives up, or has an item.
pub data Popped {ℓ} (A : Type ℓ) : Type ℓ where
  asleep : Popped A
  failed : Popped A
  item : A → Popped A

module _ {ℓ} {A : Type ℓ} where
  unfoldable pub new : Queue A
  new = record { buffer = []; exit = false }

  unfoldable pub push : A → Queue A → Queue A
  push x q = record q { buffer = q.buffer ++ x ∷ [] }

  unfoldable pub push_front : A → Queue A → Queue A
  push_front x q = record q { buffer = x ∷ q.buffer }

  unfoldable pub pop : Queue A → Popped A × Queue A
  pop q = elim q.buffer [
    | [] ↦ (elim q.exit [ true ↦ failed | false ↦ asleep ], q)
    | x ∷ xs ↦ (item x, record q { buffer = xs })
  ]

  unfoldable pub try_pop : Queue A → Popped A × Queue A
  try_pop q = elim q.buffer [ [] ↦ (failed, q) | x ∷ xs ↦ (item x, record q { buffer = xs }) ]

  unfoldable pub front : Queue A → Popped A
  front q = elim q.buffer [ [] ↦ elim q.exit [ true ↦ failed | false ↦ asleep ] | x ∷ xs ↦ item x ]

  unfoldable pub size : Queue A → ℕ
  size q = length q.buffer

  unfoldable pub exit_queue : Queue A → Queue A
  exit_queue q = record q { exit = true }

  pub push_all : List A → Queue A → Queue A
  push_all [] q = q
  push_all (x ∷ xs) q = push_all xs (push x q)

  -- As many pops as there are items asked for.
  pub pop_all : ℕ → Queue A → List (Popped A)
  pop_all zero q = []
  pop_all (suc n) q = (pop q).0 ∷ pop_all n (pop q).1

  pub drained : Bool → Popped A
  drained true = failed
  drained false = asleep

  push_all-buffer :
      (xs : List A) (q : Queue A) → push_all xs q ≡ record q { buffer = q.buffer ++ xs }
  unfolding push_all push
  push_all-buffer [] q = ap (λ b. record q { buffer = b }) (sym (append-nil q.buffer))
  push_all-buffer (x ∷ xs) q =
      push_all-buffer xs (record q { buffer = q.buffer ++ x ∷ [] })
      ∙ ap (λ b. record q { buffer = b }) (append_assoc q.buffer (x ∷ []) xs)

  pop_all-buffer :
      (xs : List A) (exit : Bool)
      → pop_all (suc (length xs)) (record { buffer = xs; exit = exit })
        ≡ map item xs ++ drained exit ∷ []
  unfolding pop_all pop drained
  pop_all-buffer [] true = refl
  pop_all-buffer [] false = refl
  pop_all-buffer (x ∷ xs) exit = ap (◌∷◌ (item x)) (pop_all-buffer xs exit)

  -- What was pushed is popped in the order of the pushes, behind what was there, also after an Exit;
  -- the pop after that gives up where the queue has exited, and sleeps where it has not.
  pub pop_all-push_all :
      (xs : List A) (q : Queue A)
      → (pop_all (suc (length (q.buffer ++ xs))) (push_all xs q)
          ≡ map item (q.buffer ++ xs) ++ drained q.exit ∷ [])
        × (pop_all (suc (length (q.buffer ++ xs))) (exit_queue (push_all xs q))
            ≡ map item (q.buffer ++ xs) ++ failed ∷ [])
  unfolding exit_queue drained
  pop_all-push_all xs q = (
    ap (pop_all (suc (length (q.buffer ++ xs)))) (push_all-buffer xs q)
        ∙ pop_all-buffer (q.buffer ++ xs) q.exit,
    ap (λ r. pop_all (suc (length (q.buffer ++ xs))) (exit_queue r)) (push_all-buffer xs q)
        ∙ pop_all-buffer (q.buffer ++ xs) true,
  )
