-- ===== src/Updater/Options.antt =====
-- AddOption and GetUpdater of updater/updater.{h,cc}. The slots of an option are a union of int and
-- float; slot 0 is the int. Two names may stand for one slot.
use ddls.Prelude.{ℕ, [], ◌∷◌, none, some}
use ddls.Common.Configure.{Text, Register, get_value}

pub record AddOption {ℓ} (T : Type ℓ) : Type ℓ where
  pub worker_id : ℕ
  pub learning_rate : T
  pub momentum : T
  pub rho : T
  pub lambda : T

-- The numbers that the constructor sets, in its order.
pub record Defaults {ℓ} (T : Type ℓ) : Type ℓ where
  pub lr : T
  pub momentum : T
  pub rho : T
  pub lambda : T
  pub beta1 : T
  pub beta2 : T
  pub eps : T

module _ {ℓ} {T : Type ℓ} where
  unfoldable pub set_learning_rate : T → AddOption T → AddOption T
  set_learning_rate lr o = record o { learning_rate = lr }

  unfoldable pub set_momentum : T → AddOption T → AddOption T
  set_momentum momentum o = record o { momentum = momentum }

  unfoldable pub set_rho : T → AddOption T → AddOption T
  set_rho rho o = record o { rho = rho }

  unfoldable pub set_lambda : T → AddOption T → AddOption T
  set_lambda lambda o = record o { lambda = lambda }

  unfoldable pub beta1 : AddOption T → T
  beta1 o = o.momentum

  unfoldable pub set_beta1 : T → AddOption T → AddOption T
  set_beta1 = set_momentum

  unfoldable pub beta2 : AddOption T → T
  beta2 o = o.rho

  unfoldable pub set_beta2 : T → AddOption T → AddOption T
  set_beta2 = set_rho

  unfoldable pub eps : AddOption T → T
  eps o = o.lambda

  unfoldable pub set_eps : T → AddOption T → AddOption T
  set_eps = set_lambda

  -- The constructor, on memory that may hold anything.
  unfoldable pub new_option : ℕ → Defaults T → AddOption T → AddOption T
  new_option worker_rank d memory = set_eps d.eps (
      set_beta2 d.beta2 (
        set_beta1 d.beta1 (
          set_lambda d.lambda (
            set_rho d.rho (
              set_momentum d.momentum
                (set_learning_rate d.lr (record memory { worker_id = worker_rank })))))))

pub data UpdaterType : Type 0 where
  adam avg sgd adagrad momentum_sgd dcasgd dcasgda simple : UpdaterType

abbrev pub updater_names : Register UpdaterType
updater_names =
    (97 ∷ 100 ∷ 97 ∷ 109 ∷ [], adam)
    ∷ (97 ∷ 118 ∷ 103 ∷ [], avg)
    ∷ (115 ∷ 103 ∷ 100 ∷ [], sgd)
    ∷ (97 ∷ 100 ∷ 97 ∷ 103 ∷ 114 ∷ 97 ∷ 100 ∷ [], adagrad)
    ∷ (109 ∷ 111 ∷ 109 ∷ 101 ∷ 110 ∷ 116 ∷ 117 ∷ 109 ∷ 95 ∷ 115 ∷ 103 ∷ 100 ∷ [], momentum_sgd)
    ∷ (100 ∷ 99 ∷ 97 ∷ 115 ∷ 103 ∷ 100 ∷ [], dcasgd)
    ∷ (100 ∷ 99 ∷ 97 ∷ 115 ∷ 103 ∷ 100 ∷ 97 ∷ [], dcasgda)
    ∷ []

-- GetUpdater, built with ENABLE_DCASGD, for the flag updater_type and the solver of the table.
unfoldable pub get_updater : Text → Text → UpdaterType
get_updater updater_type solver =
    let type : Text = elim solver [ [] ↦ updater_type | c ∷ cs ↦ c ∷ cs ] in
    elim (get_value type updater_names) [ none ↦ simple | some u ↦ u ]
