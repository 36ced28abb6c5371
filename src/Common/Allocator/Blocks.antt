-- ===== src/Common/Allocator/Blocks.antt =====
-- The free lists of the smart allocator hold the blocks that are in no use, each once.
use ddls.Prelude.{
  ltb, ℕ, zero, suc, ◌+◌, ◌<◌, ◌≤◌, ◌≡◌, ◌≢◌, refl, sym, ap, subst, ◌∙◌, List, [], ◌∷◌, Option,
  none, some, false, ◌==◌, ==_refl, ==_ne, All, arith, Bool-cases, Nat-cases, inl, inr,
}
use ddls.Prelude.Int.{ℤ, pos}
use ddls.Common.Allocator.{
  Block, SmartAllocator, inc, dec, put, no_block, new_allocator, new_block, take_free, push, free,
  refer,
}

-- A block of a free list.
pub record IsFree (s : SmartAllocator) (size a : ℕ) : Type 0 where
  pub made : a < s.block_count
  pub sized : (s.blocks a).size ≡ size
  pub unused : (s.blocks a).ref ≡ pos 0

-- From p on, the list of free blocks of a size is as.
pub Chain : SmartAllocator → ℕ → Option ℕ → List ℕ → Type 0
Chain s size none [] = Unit
Chain s size none (b ∷ bs) = ⊥
Chain s size (some a) [] = ⊥
Chain s size (some a) (b ∷ bs) =
    (a ≡ b) × IsFree s size b × All (λ c. c ≢ b) bs × Chain s size (s.blocks b).next bs

pub IsPool : SmartAllocator → ℕ → Option (Option ℕ) → Type 0
IsPool s size none = Unit
IsPool s size (some p) = (bs : List ℕ) × Chain s size p bs

pub record Inv (s : SmartAllocator) : Type 0 where
  pub listed : (size : ℕ) → IsPool s size (s.pools size)
  pub fresh : (a : ℕ) → s.block_count ≤ a → (s.blocks a).ref ≡ pos 0
  pub owned : (a : ℕ) → a < s.block_count → (p : Option ℕ) × (s.pools (s.blocks a).size ≡ some p)

pub put_self {ℓ} : {A : Type ℓ} (f : ℕ → A) (a : ℕ) (v : A) → put f a v a ≡ v
unfolding put
put_self f a v = rw (==_refl a)

pub put_ne {ℓ} : {A : Type ℓ} (f : ℕ → A) (a : ℕ) (v : A) (x : ℕ) → x ≢ a → put f a v x ≡ f x
unfolding put
put_ne f a v x ne = rw (==_ne x a ne)

-- To prove something of every value of a changed function.
put-elim {ℓ κ} :
    {A : Type ℓ} (P : ℕ → A → Type κ) (f : ℕ → A) (a : ℕ) (v : A)
    → P a v
    → ((n : ℕ) → n ≢ a → P n (f n))
    → (n : ℕ) → P n (put f a v n)
put-elim P f a v here there n = elim (Nat-cases n a) [
  | inl e ↦ subst (λ m. P m (put f a v m)) (sym e) (subst (P a) (sym (put_self f a v)) here)
  | inr ne ↦ subst (P n) (sym (put_ne f a v n ne)) (there n ne)
]

-- Two states agree on a block.
abbrev Keeps : SmartAllocator → SmartAllocator → ℕ → Type 0
Keeps s t b = ((t.blocks b) ≡ s.blocks b) × (b < s.block_count → b < t.block_count)

IsFree-keep : (s t : SmartAllocator) (size b : ℕ) → Keeps s t b → IsFree s size b → IsFree t size b
IsFree-keep s t size b k h = record {
  made = k.1 h.made;
  sized = ap Block.size k.0 ∙ h.sized;
  unused = ap Block.ref k.0 ∙ h.unused;
}

All-map {ℓ κ} :
    {A : Type ℓ} {P Q : A → Type κ} (xs : List A) → ((x : A) → P x → Q x) → All P xs → All Q xs
All-map [] f h = tt
All-map (x ∷ xs) f h = (f x h.0, All-map xs f h.1)

Chain-All :
    (s : SmartAllocator) (size : ℕ) (p : Option ℕ) (bs : List ℕ)
    → Chain s size p bs
    → All (IsFree s size) bs
unfolding Chain
Chain-All s size none [] h = tt
Chain-All s size none (b ∷ bs) h = elim h [ ]
Chain-All s size (some a) [] h = elim h [ ]
Chain-All s size (some a) (b ∷ bs) (same, is, out, rest) =
    (is, Chain-All s size (s.blocks b).next bs rest)

-- A change outside a chain leaves it.
Chain-keep :
    (s t : SmartAllocator) (size : ℕ) (p : Option ℕ) (bs : List ℕ)
    → All (Keeps s t) bs
    → Chain s size p bs
    → Chain t size p bs
unfolding Chain
Chain-keep s t size none [] k h = tt
Chain-keep s t size none (b ∷ bs) k h = elim h [ ]
Chain-keep s t size (some a) [] k h = elim h [ ]
Chain-keep s t size (some a) (b ∷ bs) k (same, is, out, rest) = (
  same,
  IsFree-keep s t size b k.0 is,
  out,
  subst (λ q. Chain t size q bs) (sym (ap Block.next k.0.0))
      (Chain-keep s t size (s.blocks b).next bs k.1 rest),
)

IsPool-keep :
    (s t : SmartAllocator) (size : ℕ) (o : Option (Option ℕ))
    → ((b : ℕ) → IsFree s size b → Keeps s t b)
    → IsPool s size o
    → IsPool t size o
unfolding IsPool
IsPool-keep s t size none k h = tt
IsPool-keep s t size (some p) k (bs, chain) =
    (bs, Chain-keep s t size p bs (All-map bs k (Chain-All s size p bs chain)) chain)

pub new_allocator-Inv : Inv new_allocator
unfolding new_allocator no_block IsPool
new_allocator-Inv = record {
  listed = λ size. tt;
  fresh = λ a h. refl;
  owned = λ a h. absurd (omega arith);
}

-- A state in which the pool of one size has another list, and all others keep their blocks.
IsPool-put :
    (s t : SmartAllocator) (size : ℕ) (p : Option ℕ)
    → ((n b : ℕ) → n ≢ size → IsFree s n b → Keeps s t b)
    → ((n : ℕ) → IsPool s n (s.pools n))
    → IsPool t size (some p)
    → (n : ℕ) → IsPool t n (put s.pools size (some p) n)
IsPool-put s t size p keeps listed here =
    put-elim (IsPool t) s.pools size (some p) here
      λ n ne. IsPool-keep s t n (s.pools n) (λ b. keeps n b ne) (listed n)

owned-put :
    (pools : ℕ → Option (Option ℕ)) (size : ℕ) (q : Option ℕ) (n : ℕ)
    → (p : Option ℕ) × (pools n ≡ some p)
    → (p : Option ℕ) × (put pools size (some q) n ≡ some p)
owned-put pools size q n old =
    put-elim (λ m o. (pools m ≡ pools n) → (p : Option ℕ) × (o ≡ some p)) pools size (some q)
      (λ e. (q, refl)) (λ m ne e. (old.0, e ∙ old.1)) n refl

pub new_block-Inv : (size : ℕ) (s : SmartAllocator) → Inv s → Inv (new_block size s)
unfolding new_block IsPool Chain
new_block-Inv size s v =
    let t = new_block size s in
    let made : Block = record { size = size; next = none; ref = pos 0 } in
    let self = put_self s.blocks s.block_count made in
    let other = put_ne s.blocks s.block_count made in
    let front : IsPool t size (some (some s.block_count)) = (
      s.block_count ∷ [],
      (
        refl,
        record { made = omega arith; sized = ap Block.size self; unused = ap Block.ref self },
        tt,
        subst (λ q. Chain t size q []) (sym (ap Block.next self)) tt,
      ),
    ) in
    record {
      listed =
          IsPool-put s t size (some s.block_count)
            (λ n b ne is. (other b (let lt = is.made in omega arith), λ lt. omega arith)) v.listed
            front;
      fresh = λ a h. ap Block.ref (other a (omega arith)) ∙ v.fresh a (omega arith);
      owned =
          put-elim (λ a b. a < s.block_count + 1 → (p : Option ℕ) × (t.pools b.size ≡ some p))
            s.blocks s.block_count made
            (λ h. (some s.block_count, put_self s.pools size (some (some s.block_count))))
            (λ a ne h.
              owned-put s.pools size (some s.block_count) (s.blocks a).size
                (v.owned a (omega arith)));
    }

in_use : {m : ℕ} {r : ℤ} → r ≡ pos (suc m) → r ≡ pos 0 → ⊥
in_use h k = cc

used-lt :
    (s : SmartAllocator) (a m : ℕ) → (s.blocks a).ref ≡ pos (suc m) → Inv s → a < s.block_count
used-lt s a m used v = elim (Bool-cases (ltb a s.block_count)) [
  | inl e ↦ ground (arith, e)
  | inr e ↦ absurd (in_use used (v.fresh a (ground (arith, e))))
]

-- A change of the count of a block that is in use, to one at which it stays in use.
count-Inv :
    (s : SmartAllocator) (a : ℕ) (m n : ℕ)
    → (s.blocks a).ref ≡ pos (suc m)
    → Inv s
    → Inv (record s { blocks = put s.blocks a (record (s.blocks a) { ref = pos (suc n) }) })
count-Inv s a m n used v =
    let changed : Block = record (s.blocks a) { ref = pos (suc n) } in
    let t : SmartAllocator = record s { blocks = put s.blocks a changed } in
    let made = used-lt s a m used v in
    record {
      listed = λ size.
          IsPool-keep s t size (s.pools size)
            (λ b is. (
              put_ne s.blocks a changed b
                  (λ e. in_use used (ap (λ c. (s.blocks c).ref) (sym e) ∙ is.unused)),
              λ lt. lt,
            ))
            (v.listed size);
      fresh =
          put-elim (λ b k. s.block_count ≤ b → k.ref ≡ pos 0) s.blocks a changed
            (λ h. absurd (omega arith)) (λ b ne h. v.fresh b h);
      owned =
          put-elim (λ b k. b < s.block_count → (p : Option ℕ) × (s.pools k.size ≡ some p)) s.blocks
            a changed (v.owned a) (λ b ne. v.owned b);
    }

Chain-head :
    (s : SmartAllocator) (size a : ℕ) (bs : List ℕ)
    → Chain s size (some a) bs
    → (cs : List ℕ) × IsFree s size a × All (λ c. c ≢ a) cs × Chain s size (s.blocks a).next cs
unfolding Chain
Chain-head s size a [] h = elim h [ ]
Chain-head s size a (b ∷ cs) (same, is, out, rest) =
    subst
      (λ c.
        (cs : List ℕ) × IsFree s size c × All (λ d. d ≢ c) cs × Chain s size (s.blocks c).next cs)
      (sym same) (cs, is, out, rest)

All-both {ℓ κ} :
    {A : Type ℓ} {P Q R : A → Type κ} (xs : List A)
    → ((x : A) → P x → Q x → R x)
    → All P xs
    → All Q xs
    → All R xs
All-both [] f h k = tt
All-both (x ∷ xs) f h k = (f x h.0 k.0, All-both xs f h.1 k.1)

-- FreeList::Pop on a list that begins with a.
pub take_free-Inv :
    (s : SmartAllocator) (size a : ℕ)
    → s.pools size ≡ some (some a)
    → Inv s
    → ((s.blocks a).ref ≡ pos 0) × ((s.blocks a).size ≡ size) × Inv (take_free size a s)
unfolding take_free IsPool
take_free-Inv s size a at v =
    let t = take_free size a s in
    let (bs, chain) = subst (IsPool s size) at (v.listed size) in
    let (cs, is, out, rest) = Chain-head s size a bs chain in
    let changed : Block = record (s.blocks a) { ref = inc (s.blocks a).ref } in
    let other : (b : ℕ) → b ≢ a → Keeps s t b =
      λ b ne. (put_ne s.blocks a changed b ne, λ lt. lt) in
    let front : IsPool t size (some (s.blocks a).next) =
      (cs, Chain-keep s t size (s.blocks a).next cs (All-map cs other out) rest) in
    (
      is.unused,
      is.sized,
      record {
        listed =
            IsPool-put s t size (s.blocks a).next
              (λ n b ne free_b.
                other b (λ e. ne (sym free_b.sized ∙ ap (λ c. (s.blocks c).size) e ∙ is.sized)))
              v.listed front;
        fresh =
            put-elim (λ b k. s.block_count ≤ b → k.ref ≡ pos 0) s.blocks a changed
              (λ h. absurd (let lt = is.made in omega arith)) (λ b ne h. v.fresh b h);
        owned =
            put-elim (λ b k. b < s.block_count → (p : Option ℕ) × (t.pools k.size ≡ some p))
              s.blocks a changed
              (λ h. owned-put s.pools size (s.blocks a).next (s.blocks a).size (v.owned a h))
              (λ b ne h. owned-put s.pools size (s.blocks a).next (s.blocks b).size (v.owned b h));
      },
    )

-- A block in use that becomes the first of its list.
freed-Inv :
    (s : SmartAllocator) (a : ℕ) (p : Option ℕ) (old : Block)
    → (s.blocks a).ref ≡ pos 1
    → s.pools (s.blocks a).size ≡ some p
    → Inv s
    → Inv (record {
      blocks =
          put (put s.blocks a old) a (record { size = (s.blocks a).size; next = p; ref = pos 0 });
      block_count = s.block_count;
      pools = put s.pools (s.blocks a).size (some (some a));
    })
unfolding IsPool Chain
freed-Inv s a p old used at v =
    let size = (s.blocks a).size in
    let listed : Block = record { size = size; next = p; ref = pos 0 } in
    let t : SmartAllocator = record {
      blocks = put (put s.blocks a old) a listed;
      block_count = s.block_count;
      pools = put s.pools size (some (some a));
    } in
    let made = used-lt s a 0 used v in
    let self = put_self (put s.blocks a old) a listed in
    let other : (b : ℕ) → b ≢ a → Keeps s t b =
      λ b ne. (put_ne (put s.blocks a old) a listed b ne ∙ put_ne s.blocks a old b ne, λ lt. lt) in
    let apart : (n b : ℕ) → IsFree s n b → b ≢ a =
      λ n b is e. in_use used (ap (λ c. (s.blocks c).ref) (sym e) ∙ is.unused) in
    let (bs, chain) = subst (IsPool s size) at (v.listed size) in
    let all = Chain-All s size p bs chain in
    let rest : Chain t size p bs =
      Chain-keep s t size p bs (All-map bs (λ b is. other b (apart size b is)) all) chain in
    let front : IsPool t size (some (some a)) = (
      a ∷ bs,
      (
        refl,
        record { made = made; sized = ap Block.size self; unused = ap Block.ref self },
        All-map bs (apart size) all,
        subst (λ q. Chain t size q bs) (sym (ap Block.next self)) rest,
      ),
    ) in
    record {
      listed = IsPool-put s t size (some a) (λ n b ne is. other b (apart n b is)) v.listed front;
      fresh =
          put-elim (λ b k. s.block_count ≤ b → k.ref ≡ pos 0) (put s.blocks a old) a listed
            (λ h. refl) (λ b ne h. ap Block.ref (put_ne s.blocks a old b ne) ∙ v.fresh b h);
      owned =
          put-elim (λ b k. b < s.block_count → (q : Option ℕ) × (t.pools k.size ≡ some q))
            (put s.blocks a old) a listed (λ h. owned-put s.pools size (some a) size (p, at))
            (λ b ne h.
              subst (λ n. (q : Option ℕ) × (t.pools n ≡ some q))
                (sym (ap Block.size (put_ne s.blocks a old b ne)))
                (owned-put s.pools size (some a) (s.blocks b).size (v.owned b h)));
    }

-- Another reference to a block in use.
pub refer-Inv :
    (s : SmartAllocator) (a m : ℕ) → (s.blocks a).ref ≡ pos (suc m) → Inv s → Inv (refer a s)
unfolding refer inc
refer-Inv s a m used v = rw used (count-Inv s a m (suc m) used v)

-- A reference to a block in use is given back.
pub free-Inv :
    (s : SmartAllocator) (a m : ℕ) → (s.blocks a).ref ≡ pos (suc m) → Inv s → Inv (free a s)
unfolding free push dec
free-Inv s a zero used v =
    let (p, at) = v.owned a (used-lt s a 0 used v) in
    let old : Block = record (s.blocks a) { ref = pos 0 } in
    rw (used, put_self s.blocks a old, at) (freed-Inv s a p old used at v)
free-Inv s a (suc m) used v =
    let old : Block = record (s.blocks a) { ref = pos (suc m) } in
    let more : (suc m == 0) ≡ false = ground arith in
    rw (used, put_self s.blocks a old, more) (count-Inv s a (suc m) m used v)
