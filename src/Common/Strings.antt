-- ===== src/Common/Strings.antt =====
-- StrSplit of common/string_util.h, on strings as lists of characters.
use ddls.Prelude.{
  ℕ, ◌≡◌, ◌≢◌, refl, sym, ap, ◌∙◌, List, [], ◌∷◌, ◌++◌, ◌==◌, ==_iff, if◌then◌else◌, append_assoc,
  append-nil, All, Bool-cases, inl, inr, arith,
}

-- `piece` is the part from `i` to `j`, and the list what is left from `j` on.
unfoldable pub split_from : ℕ → List ℕ → List ℕ → List (List ℕ)
split_from delim piece [] = piece ∷ []
split_from delim piece (c ∷ cs) =
    let at_delim = split_from delim [] cs in
    let inside = split_from delim (piece ++ c ∷ []) cs in
    if c == delim then piece ∷ at_delim else inside

unfoldable pub str_split : List ℕ → ℕ → List (List ℕ)
str_split raw_str delim = split_from delim [] raw_str

-- The pieces with the delimiter between them.
pub join : ℕ → List (List ℕ) → List ℕ
join delim [] = []
join delim (p ∷ []) = p
join delim (p ∷ q ∷ ps) = p ++ (delim ∷ join delim (q ∷ ps))

abbrev IsFree : ℕ → List ℕ → Type 0
IsFree delim p = All (λ c. c ≢ delim) p

join-cons :
    (delim : ℕ) (p q : List ℕ) (cs : List ℕ)
    → join delim (p ∷ split_from delim q cs) ≡ p ++ (delim ∷ join delim (split_from delim q cs))
unfolding join split_from
join-cons delim p q [] = refl
join-cons delim p q (c ∷ cs) = elim (Bool-cases (c == delim)) [
  | inl e ↦ rw e refl
  | inr e ↦ rw e (join-cons delim p (q ++ c ∷ []) cs)
]

join-split_from :
    (delim : ℕ) (piece cs : List ℕ) → join delim (split_from delim piece cs) ≡ piece ++ cs
unfolding join split_from
join-split_from delim piece [] = sym (append-nil piece)
join-split_from delim piece (c ∷ cs) = elim (Bool-cases (c == delim)) [
  | inl e ↦
      let same = (==_iff c delim).0 e in
      rw e (
        join-cons delim piece [] cs
        ∙ ap (λ ds. piece ++ ds)
            (ap (λ d. d ∷ join delim (split_from delim [] cs)) (sym same)
              ∙ ap (◌∷◌ c) (join-split_from delim [] cs)))
  | inr e ↦ rw e (join-split_from delim (piece ++ c ∷ []) cs ∙ append_assoc piece (c ∷ []) cs)
]

IsFree-append :
    (delim c : ℕ) (piece : List ℕ) → IsFree delim piece → c ≢ delim → IsFree delim (piece ++ c ∷ [])
IsFree-append delim c [] h ne = (ne, tt)
IsFree-append delim c (d ∷ piece) h ne = (h.0, IsFree-append delim c piece h.1 ne)

split_from-All :
    (delim : ℕ) (piece cs : List ℕ)
    → IsFree delim piece
    → All (IsFree delim) (split_from delim piece cs)
unfolding split_from
split_from-All delim piece [] h = (h, tt)
split_from-All delim piece (c ∷ cs) h = elim (Bool-cases (c == delim)) [
  | inl e ↦ rw e (h, split_from-All delim [] cs tt)
  | inr e ↦ rw e (
      split_from-All delim (piece ++ c ∷ []) cs
        (IsFree-append delim c piece h (λ same. ground (arith, e, same))))
]

-- The pieces of a string hold no delimiter, and with delimiters between them they are the string.
pub join-str_split :
    (raw_str : List ℕ) (delim : ℕ)
    → (join delim (str_split raw_str delim) ≡ raw_str)
      × All (λ p. All (λ c. c ≢ delim) p) (str_split raw_str delim)
unfolding str_split
join-str_split raw_str delim =
    (join-split_from delim [] raw_str, split_from-All delim [] raw_str tt)
