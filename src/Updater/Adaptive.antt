-- ===== src/Updater/Adaptive.antt =====
-- The updaters with state per element: updater/adam_updater.h, updater/adagrad_updater.h and
-- updater/dcasgd/. `root` is the square root; the elements of a loop are those from an offset on.
use ddls.Prelude.{ℕ, List, [], ◌∷◌, ◌++◌, take, drop}
use ddls.Updater.{Arithmetic}
use ddls.Updater.Options.{AddOption, beta1, beta2, eps}

-- A loop over cells from an offset on, and delta.
unfoldable pub each_from {ℓ κ} : {C : Type ℓ} {T : Type κ} → (C → T → C) → List C → List T → List C
each_from op [] delta = []
each_from op (c ∷ cs) [] = c ∷ cs
each_from op (c ∷ cs) (d ∷ delta) = op c d ∷ each_from op cs delta

unfoldable pub each_at {ℓ κ} :
    {C : Type ℓ} {T : Type κ} → (C → T → C) → ℕ → List C → List T → List C
each_at op offset cells delta = take offset cells ++ each_from op (drop offset cells) delta

-- An element of data with its two moments.
pub record AdamCell {ℓ} (T : Type ℓ) : Type ℓ where
  pub value : T
  pub mom1 : T
  pub mom2 : T

-- An element of data with the shadow copy of the worker, and its mean square.
pub record ShadowCell {ℓ} (T : Type ℓ) : Type ℓ where
  pub value : T
  pub shadow_copy : T
  pub mean_square : T

module _ {ℓ} {T : Type ℓ} (num : Arithmetic T) (root : T → T) (option : AddOption T) where
  -- The body of AdamUpdater::Update up to the moments: Adam.
  unfoldable pub adam_moments : AdamCell T → T → AdamCell T
  adam_moments c d =
      let mom1 =
        num.add (num.multiply (beta1 option) c.mom1)
          (num.multiply (num.subtract num.one_value (beta1 option)) d) in
      let mom2 =
        num.add (num.multiply (beta2 option) c.mom2)
          (num.multiply (num.multiply (num.subtract num.one_value (beta2 option)) d) d) in
      record {
        value = num.subtract c.value (
            num.divide (num.multiply option.learning_rate mom1) (num.add (root mom2) (eps option)));
        mom1 = mom1;
        mom2 = mom2;
      }

  -- The last line of the body.
  unfoldable pub sgd_cell : AdamCell T → T → AdamCell T
  sgd_cell c d = record c { value = num.subtract c.value (num.multiply d option.learning_rate) }

  unfoldable pub adam_update : ℕ → List (AdamCell T) → List T → List (AdamCell T)
  adam_update = each_at (λ c d. sgd_cell (adam_moments c d) d)

  -- AdaGradUpdater::Update, on an element and its historic square, of which the loop changes a copy.
  unfoldable pub adagrad_element : T → T × T → T → T × T
  adagrad_element e (x, historic) d =
      let g =
        num.subtract historic
          (num.divide (num.divide (num.multiply d d) option.learning_rate) option.learning_rate) in
      (
        num.subtract x (
            num.divide (num.multiply (num.divide option.rho (root (num.add g e))) d)
              option.learning_rate),
        historic,
      )

  unfoldable pub adagrad_update : T → ℕ → List (T × T) → List T → List (T × T)
  adagrad_update e = each_at (adagrad_element e)

  -- DCASGDUpdater::Update.
  unfoldable pub dcasgd_element : ShadowCell T → T → ShadowCell T
  dcasgd_element c d =
      let g = num.divide d option.learning_rate in
      let drift = num.subtract c.value c.shadow_copy in
      let value = num.subtract c.value (
        num.multiply option.learning_rate
          (num.add g (num.multiply (num.multiply (num.multiply option.lambda g) g) drift))) in
      record c { value = value; shadow_copy = value }

  unfoldable pub dcasgd_update : ℕ → List (ShadowCell T) → List T → List (ShadowCell T)
  dcasgd_update = each_at dcasgd_element

  -- DCASGDAUpdater::Update.
  unfoldable pub dcasgda_element : T → ShadowCell T → T → ShadowCell T
  dcasgda_element e c d =
      let g = num.divide d option.learning_rate in
      let mean_square =
        num.add (num.multiply c.mean_square option.momentum)
          (num.multiply (num.multiply (num.subtract num.one_value option.momentum) g) g) in
      let drift = num.subtract c.value c.shadow_copy in
      let rate = num.divide option.lambda (root (num.add mean_square e)) in
      let value = num.subtract c.value (
        num.multiply option.learning_rate
          (num.add g (num.multiply (num.multiply (num.multiply rate g) g) drift))) in
      record { value = value; shadow_copy = value; mean_square = mean_square }

  unfoldable pub dcasgda_update : T → ℕ → List (ShadowCell T) → List T → List (ShadowCell T)
  dcasgda_update e = each_at (dcasgda_element e)
