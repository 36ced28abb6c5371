-- ===== src/Common/Random/Tests.antt =====
-- A generator of the value 5, with two values left in its buffer. Its engine is a counter.
use ddls.Prelude.{ℕ, ◌+◌, ◌≡◌, List, some, replicate, arith}
use ddls.Prelude.Int.{pos}
use ddls.Common.Random.{assign, Library, Random, buffer_size, gen}
use ddls.Common.Random.Calls.{single_calls, gen-single_calls}

abbrev counter : Library ℕ ℕ
counter = record {
  seeded = λ seed. 0;
  draw_uniform = λ low high n e. (replicate n low, e + n);
  draw_gaussian = λ mu sigma n e. (replicate n mu, e + n);
}

abbrev fives : Random ℕ ℕ
fives = record {
  option = record {
    algorithm = assign;
    mu = 0;
    sigma = 1;
    assigned_value = 5;
    seed = pos 0;
    min_value = 0;
    max_value = 1;
  };
  engine = 0;
  buffer = replicate buffer_size 5;
  buffer_remaining = 2;
}

gen-single_calls_example :
    (gen counter 3 fives ≡ single_calls counter 3 fives)
    × (xs : List ℕ) × (r' : Random ℕ ℕ) × (gen counter 3 fives ≡ some (xs, r'))
gen-single_calls_example = gen-single_calls counter 3 fives (omega arith)
