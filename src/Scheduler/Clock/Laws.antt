-- ===== src/Scheduler/Clock/Laws.antt =====
-- What a vector clock guarantees: `update` and `finish_train` against minimum and maximum.
use ddls.Prelude.{
  ℕ, zero, suc, ◌+◌, ◌≤◌, ◌<◌, ◌≡◌, ◌≢◌, refl, ◌⊎◌, inl, inr, List, [], ◌∷◌, true, ◌==◌, ltb, not,
  ◌&&◌, if◌then◌else◌, arith, get_or, set, length, sym, Bool-cases, length-set, get_or-set_self,
  get_or-set_ne, Nat-cases, some, Bool, lt→ltb, check-eq-some,
}
use ddls.Scheduler.Clock.{
  VectorClock, int_max, min_from, min_element, max_from, max_element, local_at, tick, update,
}

-- No local clock is behind the global one.
abbrev pub IsBehind : VectorClock → Type 0
IsBehind c = (i : ℕ) → i < length c.local_clock → c.global_clock ≤ local_at c i

min_from-le : (m : ℕ) (vs : List ℕ) → min_from m vs ≤ m
unfolding min_from
min_from-le m [] = omega arith
min_from-le m (v ∷ vs) = ground (arith, min_from-le v vs, min_from-le m vs)

min_from-le_elem : (m : ℕ) (vs : List ℕ) (i : ℕ) → i < length vs → min_from m vs ≤ get_or vs i 0
unfolding min_from
min_from-le_elem m [] i h = elim h [ ]
min_from-le_elem m (v ∷ vs) zero h = ground (arith, min_from-le v vs, min_from-le m vs)
min_from-le_elem m (v ∷ vs) (suc i) h =
    ground (arith, min_from-le_elem v vs i, min_from-le_elem m vs i)

pub min_element-le : (vs : List ℕ) (i : ℕ) → i < length vs → min_element vs ≤ get_or vs i 0
unfolding min_element
min_element-le [] i h = elim h [ ]
min_element-le (v ∷ vs) zero h = min_from-le v vs
min_element-le (v ∷ vs) (suc i) h = min_from-le_elem v vs i (omega arith)

max_from-le : (m : ℕ) (vs : List ℕ) → m ≤ max_from m vs
unfolding max_from
max_from-le m [] = omega arith
max_from-le m (v ∷ vs) = ground (arith, max_from-le v vs, max_from-le m vs)

max_from-le_elem :
    (m : ℕ) (vs : List ℕ) (i : ℕ)
    → i < length vs
    → get_or vs i 0 ≢ int_max
    → get_or vs i 0 ≤ max_from m vs
unfolding max_from
max_from-le_elem m [] i h n = elim h [ ]
max_from-le_elem m (v ∷ vs) zero h n = ground (arith, max_from-le v vs, max_from-le m vs)
max_from-le_elem m (v ∷ vs) (suc i) h n =
    ground (arith, max_from-le_elem v vs i, max_from-le_elem m vs i)

max_from_bound :
    (vs : List ℕ) (m b : ℕ)
    → m ≤ b
    → ((i : ℕ) → i < length vs → (get_or vs i 0 ≤ b) ⊎ (get_or vs i 0 ≡ int_max))
    → max_from m vs ≤ b
unfolding max_from
max_from_bound [] m b h all = h
max_from_bound (v ∷ vs) m b h all =
    max_from_bound vs (if not (v == int_max) && ltb m v then v else m) b
      (head (all 0 (omega arith))) (λ i lt. all (suc i) (omega arith))
  where
    head : (v ≤ b) ⊎ (v ≡ int_max) → (if not (v == int_max) && ltb m v then v else m) ≤ b
    head t = ground arith

min_from_attained :
    (m : ℕ) (vs : List ℕ)
    → (min_from m vs ≡ m) ⊎ ((i : ℕ) × (i < length vs) × (get_or vs i 0 ≡ min_from m vs))
unfolding min_from
min_from_attained m [] = inl refl
min_from_attained m (v ∷ vs) = elim (Bool-cases (ltb v m)) [
  | inl lt ↦ rw lt (attained (min_from_attained v vs))
  | inr ge ↦ rw ge (elim (min_from_attained m vs) [
    | inl e ↦ inl e
    | inr (i, lt, e) ↦ inr (suc i, omega arith, e)
  ])
]
  where
    attained :
        (min_from v vs ≡ v) ⊎ ((i : ℕ) × (i < length vs) × (get_or vs i 0 ≡ min_from v vs))
        → (min_from v vs ≡ m)
          ⊎ ((i : ℕ) × (i < suc (length vs)) × (get_or (v ∷ vs) i 0 ≡ min_from v vs))
    attained (inl e) = inr (0, omega arith, sym e)
    attained (inr (i, lt, e)) = inr (suc i, omega arith, e)

min_element_attained :
    (vs : List ℕ) → 0 < length vs → (i : ℕ) × (i < length vs) × (get_or vs i 0 ≡ min_element vs)
unfolding min_element
min_element_attained [] h = elim h [ ]
min_element_attained (v ∷ vs) h = elim (min_from_attained v vs) [
  | inl e ↦ (0, omega arith, sym e)
  | inr (i, lt, e) ↦ (suc i, omega arith, e)
]

pub length-tick : (c : VectorClock) (i : ℕ) → length (tick c i).0.local_clock ≡ length c.local_clock
unfolding tick
length-tick c i = ground (arith, length-set c.local_clock i (local_at c i + 1))

-- Where `update` returns, its result is that of `tick`.
pub update-tick :
    (c : VectorClock) (i : ℕ) {r : VectorClock × Bool}
    → update c i ≡ some r
    → update c i ≡ some (tick c i)
unfolding update
update-tick c i h =
    let room = (check-eq-some (ltb (local_at c i) int_max) (some (tick c i)) h).0 in rw room refl

module _ (c : VectorClock) (i : ℕ) (member : i < length c.local_clock) where
  locals : List ℕ
  locals = set c.local_clock i (local_at c i + 1)

  pub local_at-update_self : local_at (tick c i).0 i ≡ local_at c i + 1
  unfolding tick
  local_at-update_self = ground (arith, get_or-set_self c.local_clock i (local_at c i + 1) 0)

  pub local_at-update_ne : (j : ℕ) → i ≢ j → local_at (tick c i).0 j ≡ local_at c j
  unfolding tick
  local_at-update_ne j n = ground (arith, get_or-set_ne c.local_clock i j (local_at c i + 1) 0 n)

  local_at-le_update : (j : ℕ) → local_at c j ≤ get_or (set c.local_clock i (local_at c i + 1)) j 0
  local_at-le_update j = elim (Nat-cases i j) [
    | inl e ↦ rw (← e) (omega (arith, get_or-set_self c.local_clock i (local_at c i + 1) 0 member))
    | inr n ↦ omega (arith, get_or-set_ne c.local_clock i j (local_at c i + 1) 0 n)
  ]

  pub tick-IsBehind : IsBehind c → IsBehind (tick c i).0
  unfolding tick
  tick-IsBehind b j lt = ground (
    arith,
    b j,
    length-set c.local_clock i (local_at c i + 1),
    local_at-le_update j,
    min_element-le (set c.local_clock i (local_at c i + 1)) j,
  )

  pub tick-true :
      IsBehind c
      → (tick c i).1 ≡ true
      → (j : ℕ) → j < length c.local_clock
      → (local_at (tick c i).0 j ≡ (tick c i).0.global_clock) ⊎ (local_at (tick c i).0 j ≡ int_max)
  unfolding tick max_element
  tick-true b h j lt = ground (
    arith,
    length-set c.local_clock i (local_at c i + 1),
    min_element-le (set c.local_clock i (local_at c i + 1)) j,
    max_from-le_elem (c.global_clock + 1) (set c.local_clock i (local_at c i + 1)) j,
  )

  -- Where the slowest worker `k` stood at the global clock, some worker does so afterwards.
  update_attained :
      (k : ℕ)
      → k < length c.local_clock
      → IsBehind c
      → local_at c k ≡ c.global_clock
      → (m : ℕ) × (m < length c.local_clock) × (local_at (tick c i).0 m ≡ (tick c i).0.global_clock)
  unfolding tick
  update_attained k lt b e =
      let new = set c.local_clock i (local_at c i + 1) in
      let size : length new ≡ length c.local_clock =
        length-set c.local_clock i (local_at c i + 1) in
      elim (Bool-cases (ltb c.global_clock (min_element new))) [
        | inl advanced ↦ (
          k,
          lt,
          ground (
            arith,
            min_element-le new k,
            get_or-set_ne c.local_clock i k (local_at c i + 1) 0,
            get_or-set_self c.local_clock i (local_at c i + 1) 0,
          ),
        )
        | inr same ↦
            let (m, m_lt, at_m) = min_element_attained new (omega arith) in
            (m, omega arith, ground (arith, b m, local_at-le_update m))
      ]

  -- Stepping a clock that is below the largest int returns, counts one for its worker and for no
  -- other, never lets the global clock get ahead of a worker, and leaves it at the count of some
  -- worker, so at the minimum.
  pub update-IsMin :
      (k : ℕ)
      → local_at c i < int_max
      → k < length c.local_clock
      → IsBehind c
      → local_at c k ≡ c.global_clock
      → (c' : VectorClock) × (reached : Bool) × (update c i ≡ some (c', reached))
        × IsBehind c'
        × (local_at c' i ≡ local_at c i + 1)
        × ((j : ℕ) → i ≢ j → local_at c' j ≡ local_at c j)
        × ((m : ℕ) × (m < length c.local_clock) × (local_at c' m ≡ c'.global_clock))
  unfolding update
  update-IsMin k room lt b e = (
    (tick c i).0,
    (tick c i).1,
    rw (lt→ltb (local_at c i) int_max room) refl,
    tick-IsBehind b,
    local_at-update_self,
    local_at-update_ne,
    update_attained k lt b e,
  )
