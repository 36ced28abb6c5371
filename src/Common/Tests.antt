-- ===== src/Common/Tests.antt =====
-- A queue of two numbers, and the string of a key and a value with `=` between.
use ddls.Prelude.{ℕ, ◌≡◌, ◌≢◌, refl, [], ◌∷◌, false, All}
use ddls.Common.Queue.{
  Queue, push_all, pop_all, exit_queue, item, failed, pop_all-push_all, drained,
}
use ddls.Common.Strings.{join, str_split, join-str_split, split_from}

abbrev open_queue : Queue ℕ
open_queue = record { buffer = 3 ∷ []; exit = false }

pop_all-push_all_example :
    (pop_all 4 (push_all (5 ∷ 8 ∷ []) open_queue) ≡ item 3 ∷ item 5 ∷ item 8 ∷ drained false ∷ [])
    × (pop_all 4 (exit_queue (push_all (5 ∷ 8 ∷ []) open_queue))
        ≡ item 3 ∷ item 5 ∷ item 8 ∷ failed ∷ [])
pop_all-push_all_example = pop_all-push_all (5 ∷ 8 ∷ []) open_queue

join-str_split_example :
    (join 61 (str_split (97 ∷ 61 ∷ 98 ∷ []) 61) ≡ 97 ∷ 61 ∷ 98 ∷ [])
    × All (λ p. All (λ c. c ≢ 61) p) (str_split (97 ∷ 61 ∷ 98 ∷ []) 61)
join-str_split_example = join-str_split (97 ∷ 61 ∷ 98 ∷ []) 61

key_value : str_split (97 ∷ 61 ∷ 98 ∷ []) 61 ≡ (97 ∷ []) ∷ (98 ∷ []) ∷ []
unfolding str_split split_from
key_value = refl
