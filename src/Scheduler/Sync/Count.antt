-- ===== src/Scheduler/Sync/Count.antt =====
-- Counting the replies that the scheduler has sent to a worker, and the messages that it holds back.
use ddls.Prelude.{ℕ, ◌+◌, ◌≤◌, ◌≡◌, List, [], ◌∷◌, ◌++◌, ◌&&◌, ◌==◌, arith, if◌then◌else◌, length}
use ddls.Prelude.Int.{ℤ, eqb_ℤ}
use ddls.Message.{Message, reply_get, reply_add}

module _ {ℓ} {B : Type ℓ} (rank_to_worker_id : ℕ → ℕ) where
  -- How many replies of a type the list holds for a worker.
  abbrev pub replies : ℤ → ℕ → List (Message B) → ℕ
  replies t w [] = 0
  replies t w (r ∷ rs) =
      (if eqb_ℤ r.type t && (rank_to_worker_id r.dst == w) then 1 else 0) + replies t w rs

  abbrev pub gets : ℕ → List (Message B) → ℕ
  gets = replies reply_get

  abbrev pub adds : ℕ → List (Message B) → ℕ
  adds = replies reply_add

  -- How many of the cached messages come from a worker.
  abbrev pub cached : ℕ → List (Message B) → ℕ
  cached w [] = 0
  cached w (m ∷ ms) = (if rank_to_worker_id m.src == w then 1 else 0) + cached w ms

  pub replies-le-length : (t : ℤ) (w : ℕ) (rs : List (Message B)) → replies t w rs ≤ length rs
  replies-le-length t w [] = omega arith
  replies-le-length t w (r ∷ rs) = ground (arith, replies-le-length t w rs)

  pub cached-append :
      (w : ℕ) (ms ns : List (Message B)) → cached w (ms ++ ns) ≡ cached w ms + cached w ns
  cached-append w [] ns = omega arith
  cached-append w (m ∷ ms) ns = ground (arith, cached-append w ms ns)
