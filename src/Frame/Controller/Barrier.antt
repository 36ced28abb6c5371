-- ===== src/Frame/Controller/Barrier.antt =====
-- One round of the barrier.
use ddls.Prelude.{
  ℕ, ◌+◌, ◌≡◌, ◌≢◌, refl, ap, List, [], ◌∷◌, ◌++◌, Option, none, some, true, ◌==◌, map,
  if◌then◌else◌, length, All, arith, ==_refl, ==_ne, Nat-cases, inl, inr,
}
use mathlib.Core.List.{Perm, perm_append_singleton}
use mathlib.Core.List.Perm
use ddls.Message.{Message, create_reply_message}
use ddls.Frame.Controller.{replies_to_others, my_reply, barrier}

module _ {ℓ} {B : Type ℓ} (rank : ℕ) where
  -- How many of the tasks came from the rank.
  pub count_from : List (Message B) → ℕ
  count_from [] = 0
  count_from (m ∷ tasks) = (if m.src == rank then 1 else 0) + count_from tasks

  replies_to_others-All :
      (tasks : List (Message B)) → All (λ m. m.dst ≢ rank) (replies_to_others rank tasks)
  unfolding replies_to_others create_reply_message
  replies_to_others-All [] = tt
  replies_to_others-All (m ∷ tasks) =
      ground (arith, replies_to_others-All tasks, Nat-cases m.src rank)

  -- Tasks none of which is the rank's.
  foreign :
      (mine : Option (Message B)) (tasks : List (Message B))
      → count_from tasks ≡ 0
      → (my_reply rank mine tasks ≡ mine)
        × (replies_to_others rank tasks ≡ map create_reply_message tasks)
  unfolding my_reply replies_to_others count_from create_reply_message
  foreign mine [] h = (refl, refl)
  foreign mine (m ∷ tasks) h = elim (Nat-cases m.src rank) [
    | inl same ↦ absurd (ground (arith, h, same))
    | inr other ↦
        let differs = ==_ne m.src rank other in
        let (kept, all) = foreign mine tasks (ground (arith, h, other)) in
        (rw differs kept, rw differs (ap (◌∷◌ (create_reply_message m)) all))
  ]

  -- Tasks exactly one of which is the rank's.
  answered :
      (mine : Option (Message B)) (tasks : List (Message B))
      → count_from tasks ≡ 1
      → (last : Message B) × (my_reply rank mine tasks ≡ some last)
        × (last.dst ≡ rank)
        × Perm (replies_to_others rank tasks ++ last ∷ []) (map create_reply_message tasks)
  unfolding my_reply replies_to_others count_from create_reply_message
  answered mine [] h = absurd (omega arith)
  answered mine (m ∷ tasks) h = elim (Nat-cases m.src rank) [
    | inl same ↦
        let equal : (m.src == rank) ≡ true = ground (arith, same) in
        let (kept, all) = foreign (some (create_reply_message m)) tasks (ground (arith, h, same)) in
        (
          create_reply_message m,
          rw equal kept,
          same,
          rw (equal, all)
              (perm_append_singleton (create_reply_message m) (map create_reply_message tasks)),
        )
    | inr other ↦
        let differs = ==_ne m.src rank other in
        let (last, found, own, all) = answered mine tasks (ground (arith, h, other)) in
        (last, rw differs found, own, rw differs (Perm.cons (create_reply_message m) all))
  ]

  -- The message that makes the tasks `size` ends the round, if exactly one of them came from the
  -- controller's own rank: no task is kept, what is sent is the reply to each task, in some order, in
  -- which all but the last go to other ranks, and the last to the own rank. Before that message the
  -- tasks are kept and nothing is sent.
  pub barrier-round :
      (size : ℕ) (m : Message B) (tasks : List (Message B))
      → (length (tasks ++ m ∷ []) ≢ size → barrier size rank m tasks ≡ some (tasks ++ m ∷ [], []))
        × (length (tasks ++ m ∷ []) ≡ size
            → count_from (tasks ++ m ∷ []) ≡ 1
            → (others : List (Message B)) × (last : Message B) × (barrier size rank m tasks
                ≡ some ([], others ++ last ∷ []))
              × Perm (others ++ last ∷ []) (map create_reply_message (tasks ++ m ∷ []))
              × All (λ r. r.dst ≢ rank) others
              × (last.dst ≡ rank))
  unfolding barrier
  barrier-round size m tasks =
      let all = tasks ++ m ∷ [] in
      (
        λ ne. rw (==_ne (length all) size ne),
        λ full one.
            let (last, found, own, each) = answered none all one in
            (
              replies_to_others rank all,
              last,
              rw (full, ==_refl size, found),
              each,
              replies_to_others-All all,
              own,
            ),
      )
