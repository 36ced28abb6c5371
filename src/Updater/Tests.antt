-- ===== src/Updater/Tests.antt =====
-- Two workers, and whole numbers.
use ddls.Prelude.{ℕ, ◌∷◌, arith, ◌+◌, ◌-◌, ◌*◌, ◌/◌, ◌≡◌, refl, [], map, List, some, take, ◌++◌}
use ddls.Updater.{Arithmetic, AvgUpdater, new_avg, zeros}
use ddls.Updater.Options.{
  AddOption, Defaults, new_option, set_eps, set_beta1, set_beta2, set_lambda, set_rho, set_momentum,
  set_learning_rate,
}
use ddls.Updater.Average.{avg_all, avg_all-round, sum_from}

abbrev whole : Arithmetic ℕ
whole = record {
  zero_value = 0;
  one_value = 1;
  add = ◌+◌;
  subtract = ◌-◌;
  multiply = ◌*◌;
  divide = ◌/◌;
  of_count = λ n. n;
}

abbrev four : List ℕ
four = 1 ∷ 8 ∷ 8 ∷ 9 ∷ []

avg_all-round_example :
    (avg_all whole 2 1 ((2 ∷ 5 ∷ []) ∷ (4 ∷ 7 ∷ []) ∷ []) (new_avg whole 3) four
      ≡ some (
        1
            ∷ (map
                  (λ x. x / 2)
                  (take 2 (sum_from whole (zeros whole 3) ((2 ∷ 5 ∷ []) ∷ (4 ∷ 7 ∷ []) ∷ [])))
                ++ 9 ∷ []),
        new_avg whole 3,
      ))
    × ((u : AvgUpdater whole) × (avg_all whole 2 1 ((2 ∷ 5 ∷ []) ∷ []) (new_avg whole 3) four
          ≡ some (four, u)))
avg_all-round_example =
    avg_all-round whole 2 3 1 2 ((2 ∷ 5 ∷ []) ∷ []) (4 ∷ 7 ∷ []) four refl (refl, tt) refl
      (omega arith) (omega arith)

abbrev option : AddOption ℕ
option = record { worker_id = 0; learning_rate = 1; momentum = 2; rho = 3; lambda = 4 }

abbrev defaults : Defaults ℕ
defaults = record { lr = 1; momentum = 0; rho = 10; lambda = 11; beta1 = 90; beta2 = 99; eps = 8 }

-- The constructor leaves momentum, rho and lambda at the numbers of beta1, beta2 and eps.
momentum_of_new :
    new_option 7 defaults option
    ≡ record { worker_id = 7; learning_rate = 1; momentum = 90; rho = 99; lambda = 8 }
unfolding new_option set_eps set_beta1 set_beta2 set_lambda set_rho set_momentum set_learning_rate
momentum_of_new = refl
