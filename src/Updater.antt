-- ===== src/Updater.antt =====
-- updater/: how a server changes its parameters. Elements are of any type; floating point arithmetic
-- is a parameter, so that a theorem asks of it only what it names.
pub mod Average
pub mod Options
pub mod Adaptive
mod Tests
use ddls.Prelude.{
  ℕ, zero, suc, ◌+◌, List, [], ◌∷◌, Bool, true, false, ◌==◌, if◌then◌else◌, map, length, Option,
  some, check, ◌>>◌, leb, take, drop, ◌++◌,
}

-- A loop over the elements of data and delta.
unfoldable pub each {ℓ} : {T : Type ℓ} → (T → T → T) → List T → List T → List T
each op [] delta = []
each op (x ∷ xs) [] = x ∷ xs
each op (x ∷ xs) (d ∷ delta) = op x d ∷ each op xs delta

pub record Arithmetic {ℓ} (T : Type ℓ) : Type ℓ where
  pub zero_value : T
  pub one_value : T
  pub add : T → T → T
  pub subtract : T → T → T
  pub multiply : T → T → T
  pub divide : T → T → T
  -- The cast of a count.
  pub of_count : ℕ → T

module _ {ℓ} {T : Type ℓ} (num : Arithmetic T) where
  -- Updater::Update, with offset 0.
  unfoldable pub update : List T → List T → List T
  update data_ delta = each num.add data_ delta

  -- SGDUpdater::Update.
  unfoldable pub sgd_update : T → List T → List T → List T
  sgd_update learning_rate data_ delta =
      each (λ x d. num.subtract x (num.multiply d learning_rate)) data_ delta

  -- MomentumUpdater::Update: the new smooth gradient, and the data it moves.
  unfoldable pub smooth : T → List T → List T → List T
  smooth momentum smooth_gradient delta =
      each
        (λ g d.
          num.add (num.multiply momentum g) (num.multiply (num.subtract num.one_value momentum) d))
        smooth_gradient delta

  unfoldable pub momentum_update : T → T → List T → List T → List T → List T × List T
  momentum_update momentum learning_rate smooth_gradient data_ delta =
      let gradient = smooth momentum smooth_gradient delta in
      (gradient, each (λ x g. num.subtract x (num.multiply g learning_rate)) data_ gradient)

  pub record AvgUpdater : Type ℓ where
    pub accu_num : ℕ
    pub sum : List T

  unfoldable pub zeros : ℕ → List T
  zeros zero = []
  zeros (suc n) = num.zero_value ∷ zeros n

  unfoldable pub new_avg : ℕ → AvgUpdater
  new_avg size = record { accu_num = 0; sum = zeros size }

  -- AvgUpdater::Update for `num_workers` workers. `num_element` is the length of delta; elements
  -- behind the sums or the data are a fault, `none`.
  unfoldable pub avg_update : ℕ → ℕ → List T → AvgUpdater → List T → Option (List T × AvgUpdater)
  avg_update num_workers offset delta u data_ =
      let num_element = length delta in
      let sum = each num.add u.sum delta in
      let accu_num = u.accu_num + 1 in
      let average = map (λ x. num.divide x (num.of_count accu_num)) (take num_element sum) in
      check (leb num_element (length u.sum))
      >> (if accu_num == num_workers
          then (check (leb (offset + num_element) (length data_))
              >> some (
                take offset data_ ++ (average ++ drop (offset + num_element) data_),
                record { accu_num = 0; sum = map (λ x. num.zero_value) sum },
              ))
          else some (data_, record { accu_num = accu_num; sum = sum }))
