-- ===== src/Common/Random.antt =====
-- common/random.{h,cc}: the options and the buffered generator. The engine and the distributions are
-- the standard library's: what so many draws of a new distribution give, and the engine after them.
pub mod Calls
mod Tests
use ddls.Prelude.{
  ℕ, zero, suc, ◌+◌, ◌-◌, ◌≡◌, min, List, [], ◌∷◌, ◌++◌, Option, none, some, ◌==◌, if◌then◌else◌,
  ◌>>=◌, take, drop, length, replicate,
}
use ddls.Prelude.Int.{ℤ}
use ddls.Common.Configure.{Text, Register, get_value, same_text}

pub data RandomAlgoType : Type 0 where
  gaussian uniform assign : RandomAlgoType

pub record RandomOption (F : Type 0) : Type 0 where
  pub algorithm : RandomAlgoType
  pub mu : F
  pub sigma : F
  pub assigned_value : F
  pub seed : ℤ
  pub min_value : F
  pub max_value : F

-- The strings of random.cc.
abbrev pub algo_text : Text
algo_text = 97 ∷ 108 ∷ 103 ∷ 111 ∷ []

abbrev pub mu_text : Text
mu_text = 109 ∷ 117 ∷ []

abbrev pub sigma_text : Text
sigma_text = 115 ∷ 105 ∷ 103 ∷ 109 ∷ 97 ∷ []

abbrev pub seed_text : Text
seed_text = 115 ∷ 101 ∷ 101 ∷ 100 ∷ []

abbrev pub assigned_value_text : Text
assigned_value_text =
    97 ∷ 115 ∷ 115 ∷ 105 ∷ 103 ∷ 110 ∷ 101 ∷ 100 ∷ 95 ∷ 118 ∷ 97 ∷ 108 ∷ 117 ∷ 101 ∷ []

abbrev pub algorithms : Register RandomAlgoType
algorithms =
    (103 ∷ 97 ∷ 117 ∷ 115 ∷ 115 ∷ 105 ∷ 97 ∷ 110 ∷ [], gaussian)
    ∷ (117 ∷ 110 ∷ 105 ∷ 102 ∷ 111 ∷ 114 ∷ 109 ∷ [], uniform)
    ∷ (97 ∷ 115 ∷ 115 ∷ 105 ∷ 103 ∷ 110 ∷ [], assign)
    ∷ []

-- CreateRandomOption, on the defaults of RandomOption and the C library's atof and cast to int.
unfoldable pub create_random_option :
    {F : Type 0} → RandomOption F → (Text → F) → (F → ℤ) → Register Text → RandomOption F
create_random_option defaults atof cast kwargs = record {
  algorithm = elim (get_value algo_text kwargs) [
    | none ↦ defaults.algorithm
    | some name ↦ elim (get_value name algorithms) [ none ↦ defaults.algorithm | some a ↦ a ]
  ];
  mu = elim (get_value mu_text kwargs) [ none ↦ defaults.mu | some t ↦ atof t ];
  sigma = elim (get_value sigma_text kwargs) [ none ↦ defaults.sigma | some t ↦ atof t ];
  assigned_value = elim (get_value assigned_value_text kwargs) [
    | none ↦ defaults.assigned_value
    | some t ↦ atof t
  ];
  seed = elim (get_value seed_text kwargs) [ none ↦ defaults.seed | some t ↦ cast (atof t) ];
  min_value = defaults.min_value;
  max_value = defaults.max_value;
}

-- kRandomBufferSize
abbrev pub buffer_size : ℕ
buffer_size = 1024

-- The distributions on an engine.
pub record Library (F E : Type 0) : Type 0 where
  pub seeded : ℤ → E
  pub draw_uniform : F → F → ℕ → E → List F × E
  pub draw_gaussian : F → F → ℕ → E → List F × E

pub record Random (F E : Type 0) : Type 0 where
  pub option : RandomOption F
  pub engine : E
  pub buffer : List F
  pub buffer_remaining : ℕ

module _ {F E : Type 0} (lib : Library F E) where
  -- Random::Random on an option; the buffer holds any values.
  unfoldable pub new_random : F → RandomOption F → Random F E
  new_random blank option = record {
    option = option;
    engine = lib.seeded option.seed;
    buffer = replicate buffer_size blank;
    buffer_remaining = 0;
  }

  -- What one of the three generators writes, and the engine after it.
  unfoldable pub fresh : ℕ → RandomOption F → E → List F × E
  fresh count o engine = elim o.algorithm [
    | assign ↦ (replicate count o.assigned_value, engine)
    | uniform ↦ lib.draw_uniform o.min_value o.max_value count engine
    | gaussian ↦ lib.draw_gaussian o.mu o.sigma count engine
  ]

  unfoldable pub gen_buffer : Random F E → Random F E
  gen_buffer r =
      let made = fresh (buffer_size - r.buffer_remaining) r.option r.engine in
      record r {
        engine = made.1;
        buffer = take r.buffer_remaining r.buffer ++ made.0;
        buffer_remaining = buffer_size;
      }

  unfoldable pub refill : Random F E → Random F E
  refill r = if r.buffer_remaining == 0 then gen_buffer r else r

  -- The copy of one round of the loop, of `copy_size` numbers.
  unfoldable pub copied : ℕ → Random F E → List F
  copied copy_size r = take copy_size (drop (buffer_size - r.buffer_remaining) r.buffer)

  unfoldable pub used : ℕ → Random F E → Random F E
  used copy_size r = record r { buffer_remaining = r.buffer_remaining - copy_size }

  -- The loop of Gen, on fuel: the numbers it writes.
  unfoldable pub gen_loop : ℕ → ℕ → Random F E → Option (List F × Random F E)
  gen_loop zero size r = if size == 0 then some ([], r) else none
  gen_loop (suc fuel) size r =
      let full = refill r in
      let copy_size = min full.buffer_remaining size in
      let more = gen_loop fuel (size - copy_size) (used copy_size full) in
      if size == 0
      then some ([], r)
      else (do (rest, r') ← more; some (copied copy_size full ++ rest, r'))

  unfoldable pub gen : ℕ → Random F E → Option (List F × Random F E)
  gen size r = gen_loop size size r
