-- ===== src/Feeder/Ids.antt =====
-- Id2UniqId of feeder/utils.h: the different ids of a tensor, and each id as an index of them.
use ddls.Prelude.{
  ℕ, zero, suc, ◌≡◌, ◌≢◌, refl, sym, ap, ap₂, ◌∙◌, List, [], ◌∷◌, ◌++◌, Option, none, some, ◌==◌,
  if◌then◌else◌, length, get_elem?, map, arith, Nat-cases, ==_refl, ==_ne, inl, inr, Option-cases,
  ◌⊎◌, subst, append-nil, append_assoc, of_some,
}

-- uniqid_2_localid, latest first.
unfoldable pub find_id : ℕ → List (ℕ × ℕ) → Option ℕ
find_id id [] = none
find_id id ((key, local) ∷ rest) =
    let later = find_id id rest in if key == id then some local else later

pub record UniqIds : Type 0 where
  pub uniqid_2_localid : List (ℕ × ℕ)
  pub uniq_id : List ℕ
  pub local_ids : List ℕ

-- The body of the loop of step 2.
unfoldable pub add_id : ℕ → UniqIds → UniqIds
add_id id s = elim (find_id id s.uniqid_2_localid) [
  | none ↦ record {
    uniqid_2_localid = (id, length s.uniq_id) ∷ s.uniqid_2_localid;
    uniq_id = s.uniq_id ++ id ∷ [];
    local_ids = s.local_ids ++ length s.uniq_id ∷ [];
  }
  | some local ↦ record s { local_ids = s.local_ids ++ local ∷ [] }
]

unfoldable pub add_ids : List ℕ → UniqIds → UniqIds
add_ids [] s = s
add_ids (id ∷ ids) s = add_ids ids (add_id id s)

-- The tensors of the different ids and of the local ids.
unfoldable pub id2uniq_id : List ℕ → List ℕ × List ℕ
id2uniq_id ids =
    let s = add_ids ids (record { uniqid_2_localid = []; uniq_id = []; local_ids = [] }) in
    (s.uniq_id, s.local_ids)

at-append_left {ℓ} :
    {A : Type ℓ} (xs ys : List A) (i : ℕ) (a : A)
    → get_elem? xs i ≡ some a
    → get_elem? (xs ++ ys) i ≡ some a
at-append_left [] ys i a h = absurd (ground (arith, h))
at-append_left (x ∷ xs) ys zero a h = h
at-append_left (x ∷ xs) ys (suc i) a h = at-append_left xs ys i a h

at-append_end {ℓ} :
    {A : Type ℓ} (xs : List A) (a : A) → get_elem? (xs ++ a ∷ []) (length xs) ≡ some a
at-append_end [] a = refl
at-append_end (x ∷ xs) a = at-append_end xs a

at-append_cases {ℓ} :
    {A : Type ℓ} (xs : List A) (a b : A) (i : ℕ)
    → get_elem? (xs ++ a ∷ []) i ≡ some b
    → (get_elem? xs i ≡ some b) ⊎ ((i ≡ length xs) × (a ≡ b))
at-append_cases [] a b zero h = inr (refl, cc)
at-append_cases [] a b (suc i) h = absurd (ground (arith, h))
at-append_cases (x ∷ xs) a b zero h = inl h
at-append_cases (x ∷ xs) a b (suc i) h = elim (at-append_cases xs a b i h) [
  | inl e ↦ inl e
  | inr (e, e') ↦ inr (ap suc e, e')
]

-- The table and the list agree, and the local ids name the ids seen so far.
record IsIndexed (seen : List ℕ) (s : UniqIds) : Type 0 where
  listed :
      (id local : ℕ)
      → find_id id s.uniqid_2_localid ≡ some local
      → get_elem? s.uniq_id local ≡ some id
  known :
      (local id : ℕ)
      → get_elem? s.uniq_id local ≡ some id
      → find_id id s.uniqid_2_localid ≡ some local
  named : map (get_elem? s.uniq_id) s.local_ids ≡ map some seen

find_id-new :
    (id id' local : ℕ) (rest : List (ℕ × ℕ))
    → id ≢ id'
    → find_id id' ((id, local) ∷ rest) ≡ find_id id' rest
unfolding find_id
find_id-new id id' local rest ne = rw (==_ne id id' ne)

find_id-own :
    (id id' local : ℕ) (rest : List (ℕ × ℕ))
    → id ≡ id'
    → find_id id' ((id, local) ∷ rest) ≡ some local
unfolding find_id
find_id-own id id' local rest e = rw (e, ==_refl id')

map-append {ℓ κ} :
    {A : Type ℓ} {B : Type κ} (f : A → B) (xs ys : List A) → map f (xs ++ ys) ≡ map f xs ++ map f ys
map-append f [] ys = refl
map-append f (x ∷ xs) ys = ap (◌∷◌ (f x)) (map-append f xs ys)

-- Ids that are found stay found in a longer list.
map-longer :
    (uniq locals seen : List ℕ) (id : ℕ)
    → map (get_elem? uniq) locals ≡ map some seen
    → map (get_elem? (uniq ++ id ∷ [])) locals ≡ map some seen
map-longer uniq [] [] id h = refl
map-longer uniq [] (x ∷ seen) id h = absurd (ground (arith, h))
map-longer uniq (l ∷ locals) [] id h = absurd (ground (arith, h))
map-longer uniq (l ∷ locals) (x ∷ seen) id h =
    ap₂ ◌∷◌ (at-append_left uniq (id ∷ []) l x cc) (map-longer uniq locals seen id cc)

add_id-IsIndexed :
    (id : ℕ) (seen : List ℕ) (s : UniqIds)
    → IsIndexed seen s
    → IsIndexed (seen ++ id ∷ []) (add_id id s)
unfolding add_id
add_id-IsIndexed id seen s v = elim (Option-cases (find_id id s.uniqid_2_localid)) [
  | inl fresh ↦
      rw (fresh, add_id)
        (record {
          listed = λ id' local h. elim (Nat-cases id id') [
            | inl same ↦ ground (
              arith,
              same,
              h,
              find_id-own id id' (length s.uniq_id) s.uniqid_2_localid same,
              at-append_end s.uniq_id id,
            )
            | inr ne ↦
                at-append_left s.uniq_id (id ∷ []) local id'
                  (v.listed id' local (sym (find_id-new id id' _ s.uniqid_2_localid ne) ∙ h))
          ];
          known = λ local id' h. elim (at-append_cases s.uniq_id id id' local h) [
            | inl old ↦ elim (Nat-cases id id') [
              | inl same ↦ absurd (
                  ground (
                    arith,
                    fresh,
                    ap (λ k. find_id k s.uniqid_2_localid) same,
                    v.known local id' old,
                  ))
              | inr ne ↦ find_id-new id id' _ s.uniqid_2_localid ne ∙ v.known local id' old
            ]
            | inr (e, e') ↦
                find_id-own id id' (length s.uniq_id) s.uniqid_2_localid e' ∙ ap some (sym e)
          ];
          named =
              map-append (get_elem? (s.uniq_id ++ id ∷ [])) s.local_ids (length s.uniq_id ∷ [])
              ∙ ap₂ ◌++◌ (map-longer s.uniq_id s.local_ids seen id v.named)
                  (ap (λ o. o ∷ []) (at-append_end s.uniq_id id))
              ∙ sym (map-append some seen (id ∷ []));
        })
  | inr (local, known_id) ↦
      rw (known_id, add_id)
        (record {
          listed = v.listed;
          known = v.known;
          named =
              map-append (get_elem? s.uniq_id) s.local_ids (local ∷ [])
              ∙ ap₂ ◌++◌ v.named (ap (λ o. o ∷ []) (v.listed id local known_id))
              ∙ sym (map-append some seen (id ∷ []));
        })
]

add_ids-IsIndexed :
    (ids seen : List ℕ) (s : UniqIds) → IsIndexed seen s → IsIndexed (seen ++ ids) (add_ids ids s)
unfolding add_ids
add_ids-IsIndexed [] seen s v = subst (λ xs. IsIndexed xs s) (sym (append-nil seen)) v
add_ids-IsIndexed (id ∷ ids) seen s v =
    subst (λ xs. IsIndexed xs (add_ids ids (add_id id s))) (append_assoc seen (id ∷ []) ids)
      (add_ids-IsIndexed ids (seen ++ id ∷ []) (add_id id s) (add_id-IsIndexed id seen s v))

-- Every local id is the index of the id at its place in the tensor, and no id is listed twice.
pub id2uniq_id-named :
    (ids : List ℕ)
    → (map (get_elem? (id2uniq_id ids).0) (id2uniq_id ids).1 ≡ map some ids)
      × ((i j id : ℕ)
          → get_elem? (id2uniq_id ids).0 i ≡ some id
          → get_elem? (id2uniq_id ids).0 j ≡ some id
          → i ≡ j)
unfolding id2uniq_id find_id
id2uniq_id-named ids =
    let v = add_ids-IsIndexed ids [] _ start in
    (v.named, λ i j id h h'. of_some (sym (v.known i id h) ∙ v.known j id h'))
  where
    start : IsIndexed [] (record { uniqid_2_localid = []; uniq_id = []; local_ids = [] })
    start = record {
      listed = λ id local h. absurd (ground (arith, h));
      known = λ local id h. absurd (ground (arith, h));
      named = refl;
    }
