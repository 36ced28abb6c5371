-- ===== src/Frame/Server.antt =====
-- frame/server.cc and the loop of frame/actor.cc: a message goes to the scheduler of its table. The
-- schedulers of a server keep one state each; what a scheduler does is a parameter.
use ddls.Prelude.{
  ℕ, zero, suc, ◌≡◌, ◌≢◌, refl, sym, ap, ◌∙◌, List, [], ◌∷◌, ◌++◌, Option, some, ◌>>=◌, true, false,
  get_elem?, set, length, arith, of_some, >>=-eq-some, ◌==◌, ==_ne, if◌then◌else◌, Nat-cases, inl,
  inr,
}
use ddls.Message.{Message}

module _ {ℓ κ} {B : Type ℓ} {S : Type κ} (process : Message B → S → Option S) where
  -- RegisterTable: the id is the index.
  unfoldable pub register_table : S → List S → ℕ × List S
  register_table scheduler store = (length store, store ++ scheduler ∷ [])

  -- The CHECK on the table id, and the scheduler's handler.
  unfoldable pub dispatch : Message B → List S → Option (List S)
  dispatch m store = do
    scheduler ← get_elem? store m.table_id
    scheduler' ← process m scheduler
    some (set store m.table_id scheduler')

at-set_self {κ} :
    {S : Type κ} (xs : List S) (i : ℕ) (a b : S)
    → get_elem? xs i ≡ some a
    → get_elem? (set xs i b) i ≡ some b
at-set_self [] i a b h = absurd (ground (arith, h))
at-set_self (x ∷ xs) zero a b h = refl
at-set_self (x ∷ xs) (suc i) a b h = at-set_self xs i a b h

at-set_other {κ} :
    {S : Type κ} (xs : List S) (i j : ℕ) (b : S) → i ≢ j → get_elem? (set xs i b) j ≡ get_elem? xs j
at-set_other [] i j b ne = refl
at-set_other (x ∷ xs) zero zero b ne = absurd (ne refl)
at-set_other (x ∷ xs) zero (suc j) b ne = refl
at-set_other (x ∷ xs) (suc i) zero b ne = refl
at-set_other (x ∷ xs) (suc i) (suc j) b ne = at-set_other xs i j b (λ e. ne (ap suc e))

module _ {ℓ κ} {B : Type ℓ} {S : Type κ} (process : Message B → S → Option S) where
  -- The messages that the server's mailbox gives its loop, one after the other.
  unfoldable pub dispatch_all : List (Message B) → List S → Option (List S)
  dispatch_all [] store = some store
  dispatch_all (m ∷ ms) store = do store' ← dispatch process m store; dispatch_all ms store'

  -- One scheduler on its own.
  unfoldable pub process_all : List (Message B) → S → Option S
  process_all [] s = some s
  process_all (m ∷ ms) s = do s' ← process m s; process_all ms s'

  -- The messages for one table.
  unfoldable pub for_table : ℕ → List (Message B) → List (Message B)
  for_table j [] = []
  for_table j (m ∷ ms) = if m.table_id == j then m ∷ for_table j ms else for_table j ms

  dispatch-table :
      (m : Message B) (store store' : List S)
      → dispatch process m store ≡ some store'
      → (s : S) × (s' : S) × (get_elem? store m.table_id ≡ some s)
        × (process m s ≡ some s')
        × (store' ≡ set store m.table_id s')
  unfolding dispatch
  dispatch-table m store store' h =
      let (s, at, rest) =
        >>=-eq-some (get_elem? store m.table_id)
          (λ s. process m s >>= λ s'. some (set store m.table_id s')) h in
      let (s', done, wrote) =
        >>=-eq-some (process m s) (λ s'. some (set store m.table_id s')) rest in
      (s, s', at, done, sym (of_some wrote))

  -- After any run of messages that meets no fatal check, the scheduler of each table is in the state
  -- in which it would be had it handled the messages for its table alone, in their order; so no
  -- message for one table changes what another table does.
  pub dispatch_all-for_table :
      (ms : List (Message B)) (store store' : List S) (j : ℕ) (s : S)
      → dispatch_all ms store ≡ some store'
      → get_elem? store j ≡ some s
      → (s' : S) × (process_all (for_table j ms) s ≡ some s') × (get_elem? store' j ≡ some s')
  unfolding dispatch_all process_all for_table
  dispatch_all-for_table [] store store' j s h at =
      (s, refl, ap (λ xs. get_elem? xs j) (sym (of_some h)) ∙ at)
  dispatch_all-for_table (m ∷ ms) store store' j s h at =
      let (next, one, rest) = >>=-eq-some (dispatch process m store) (dispatch_all ms) h in
      let (old, new, found, done, wrote) = dispatch-table m store next one in
      elim (Nat-cases m.table_id j) [
        | inl same ↦
            let equal : (m.table_id == j) ≡ true = ground (arith, same) in
            let own : s ≡ old = of_some (sym at ∙ ap (get_elem? store) (sym same) ∙ found) in
            let at' : get_elem? next j ≡ some new =
              ap (λ xs. get_elem? xs j) wrote
              ∙ ap (get_elem? (set store m.table_id new)) (sym same)
              ∙ at-set_self store m.table_id old new found in
            rw (equal, own, done) (dispatch_all-for_table ms next store' j new rest at')
        | inr other ↦
            let differs : (m.table_id == j) ≡ false = ==_ne m.table_id j other in
            let at' : get_elem? next j ≡ some s =
              ap (λ xs. get_elem? xs j) wrote ∙ at-set_other store m.table_id j new other ∙ at in
            rw differs (dispatch_all-for_table ms next store' j s rest at')
      ]
