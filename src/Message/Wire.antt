-- ===== src/Message/Wire.antt =====
-- net/mpi_net.h: a message as one buffer of bytes. A `size_t` is eight bytes, lowest first, and
-- `kover_`, the largest one, ends the message. MPI itself only moves the buffer.
use ddls.Prelude.{
  ℕ, zero, suc, ◌+◌, ◌-◌, ◌*◌, ◌/◌, ◌%◌, ◌^◌, ◌<◌, ◌≤◌, ◌≡◌, refl, sym, ap, ◌∙◌, true, false,
  lt→ltb, check, ◌>>◌, ◌==◌, ==_ne, ltb, if◌then◌else◌, arith, Option, some, none, ◌>>=◌, List, [],
  ◌∷◌, ◌++◌, length, take, drop, All, length-append, take-append, drop-append,
}
use native.Mathlib.Nat.{pow-suc}

abbrev pub Byte : Type 0
Byte = ℕ

-- The eight int of `header_` as bytes, and the blobs.
pub record RawMessage : Type 0 where
  pub header : List Byte
  pub blobs : List (List Byte)

abbrev pub header_size : ℕ
header_size = 32

abbrev pub kover : ℕ
kover = 2 ^ 64 - 1

-- memcpy of an unsigned of `w` bytes, to and from memory.
unfoldable pub to_bytes : ℕ → ℕ → List Byte
to_bytes zero n = []
to_bytes (suc w) n = n % 256 ∷ to_bytes w (n / 256)

unfoldable pub of_bytes : List Byte → ℕ
of_bytes [] = 0
of_bytes (b ∷ bs) = b + 256 * of_bytes bs

pub length-to_bytes : (w n : ℕ) → length (to_bytes w n) ≡ w
unfolding to_bytes
length-to_bytes zero n = refl
length-to_bytes (suc w) n = ap suc (length-to_bytes w (n / 256))

pub of_bytes-to_bytes : (w n : ℕ) → n < 256 ^ w → of_bytes (to_bytes w n) ≡ n
unfolding to_bytes of_bytes
of_bytes-to_bytes zero n h = omega arith
of_bytes-to_bytes (suc w) n h =
    let e : 256 ^ suc w ≡ 256 ^ w * 256 = pow-suc 256 w in
    omega (arith, of_bytes-to_bytes w (n / 256) (omega (arith, e)))

-- `SerializeAndSend`: the buffer that is handed to MPI_Isend.
unfoldable pub serialize_blobs : List (List Byte) → List Byte
serialize_blobs [] = to_bytes 8 kover
serialize_blobs (b ∷ bs) = to_bytes 8 (length b) ++ (b ++ serialize_blobs bs)

unfoldable pub serialize : RawMessage → List Byte
unfolding serialize_blobs
serialize m = m.header ++ serialize_blobs m.blobs

-- The `size` that `SerializeAndSend` computes before it fills the buffer: an int, to which each blob
-- is cast. Where an int does not hold the sum the buffer is too small for what is copied into it:
-- `none`.
blobs_size : ℕ → List (List Byte) → Option ℕ
blobs_size size [] = some size
blobs_size size (b ∷ bs) =
    check (ltb (size + (8 + length b)) (2 ^ 31)) >> blobs_size (size + (8 + length b)) bs

pub serialized_size : RawMessage → Option ℕ
unfolding blobs_size
serialized_size m = blobs_size (8 + header_size) m.blobs

-- The loop of `RecvAndDeserialize` from the pointer `p`. A read past the buffer is a fault, and so
-- is a blob of size 0, which the constructor of Blob refuses.
pub deserialize_blobs : ℕ → List Byte → Option (List (List Byte))
deserialize_blobs zero p = none
deserialize_blobs (suc fuel) p =
    let s = of_bytes (take 8 p) in
    let q = drop 8 p in
    let rest = deserialize_blobs fuel (drop s q) in
    if ltb (length p) 8
    then none
    else if s == kover
    then some []
    else if s == 0
    then none
    else if ltb (length q) s
    then none
    else (rest >>= λ bs. some (take s q ∷ bs))

pub deserialize : List Byte → Option RawMessage
unfolding deserialize_blobs
deserialize buffer =
    if ltb (length buffer) header_size
    then none
    else (deserialize_blobs (length buffer) (drop header_size buffer) >>= λ bs.
        some (record { header = take header_size buffer; blobs = bs }))

-- A blob that the code can send: not empty, and of a size that is not `kover_`.
abbrev pub IsBlob : List Byte → Type 0
IsBlob b = (0 < length b) × (length b < kover)

-- The end mark is there.
length-serialize_blobs-ge : (bs : List (List Byte)) → 8 ≤ length (serialize_blobs bs)
unfolding serialize_blobs
length-serialize_blobs-ge [] = omega (arith, length-to_bytes 8 kover)
length-serialize_blobs-ge (b ∷ bs) = omega (
  arith,
  length-to_bytes 8 (length b),
  length-append {0} (to_bytes 8 (length b)) (b ++ serialize_blobs bs),
)

length-serialize_blobs :
    (bs : List (List Byte)) (size : ℕ)
    → size + length (serialize_blobs bs) < 2 ^ 31
    → blobs_size (8 + size) bs ≡ some (size + length (serialize_blobs bs))
unfolding serialize_blobs blobs_size
length-serialize_blobs [] size small = ap some (omega (arith, length-to_bytes 8 kover))
length-serialize_blobs (b ∷ bs) size small =
    let e : 8 + size + (8 + length b) ≡ 8 + (size + (8 + length b)) = omega arith in
    let long : length (to_bytes 8 (length b) ++ (b ++ serialize_blobs bs))
        ≡ 8 + (length b + length (serialize_blobs bs)) =
      omega (
        arith,
        length-to_bytes 8 (length b),
        length-append {0} (to_bytes 8 (length b)) (b ++ serialize_blobs bs),
        length-append {0} b (serialize_blobs bs),
      ) in
    let last : 8 ≤ length (serialize_blobs bs) = length-serialize_blobs-ge bs in
    let room : ltb (8 + (size + (8 + length b))) (2 ^ 31) ≡ true =
      lt→ltb (8 + (size + (8 + length b))) (2 ^ 31) (omega (arith, long, last, small)) in
    rw (e, room)
      (length-serialize_blobs bs (size + (8 + length b)) (omega (arith, long, small))
        ∙ ap some (omega (arith, long)))

serialize_blobs_long : (bs : List (List Byte)) → length bs < length (serialize_blobs bs)
unfolding serialize_blobs
serialize_blobs_long [] = omega (arith, length-to_bytes 8 kover)
serialize_blobs_long (b ∷ bs) = omega (
  arith,
  serialize_blobs_long bs,
  length-to_bytes 8 (length b),
  length-append {0} (to_bytes 8 (length b)) (b ++ serialize_blobs bs),
  length-append {0} b (serialize_blobs bs),
)

-- A number of eight bytes at the front is read back, and the rest is left.
module _ (n : ℕ) (small : n < 2 ^ 64) (rest : List Byte) where
  take_number : of_bytes (take 8 (to_bytes 8 n ++ rest)) ≡ n
  take_number =
      ap (λ k. of_bytes (take k (to_bytes 8 n ++ rest))) (sym (length-to_bytes 8 n))
      ∙ ap of_bytes (take-append (to_bytes 8 n) rest)
      ∙ of_bytes-to_bytes 8 n small

  drop_number : drop 8 (to_bytes 8 n ++ rest) ≡ rest
  drop_number =
      ap (λ k. drop k (to_bytes 8 n ++ rest)) (sym (length-to_bytes 8 n))
      ∙ drop-append (to_bytes 8 n) rest

  number_fits : ltb (length (to_bytes 8 n ++ rest)) 8 ≡ false
  number_fits = ground (arith, length-append (to_bytes 8 n) rest, length-to_bytes 8 n)

deserialize_end : (fuel : ℕ) → deserialize_blobs (suc fuel) (serialize_blobs []) ≡ some []
unfolding deserialize_blobs serialize_blobs to_bytes of_bytes
deserialize_end fuel = refl

deserialize-serialize_blobs :
    (bs : List (List Byte)) (fuel : ℕ)
    → length bs < fuel
    → All IsBlob bs
    → deserialize_blobs fuel (serialize_blobs bs) ≡ some bs
unfolding deserialize_blobs serialize_blobs
deserialize-serialize_blobs bs zero h all = absurd (omega arith)
deserialize-serialize_blobs [] (suc fuel) h all = deserialize_end fuel
deserialize-serialize_blobs (b ∷ bs) (suc fuel) h all =
    let rest = serialize_blobs bs in
    let small : length b < 2 ^ 64 = omega arith in
    let not_over : (length b == kover) ≡ false = ==_ne (length b) kover (omega arith) in
    let not_empty : (length b == 0) ≡ false = ==_ne (length b) 0 (omega arith) in
    let fits : ltb (length (b ++ rest)) (length b) ≡ false = ground (arith, length-append b rest) in
    let later = deserialize-serialize_blobs bs fuel (omega arith) all.1 in
    rw (
      number_fits (length b) small (b ++ rest),
      take_number (length b) small (b ++ rest),
      drop_number (length b) small (b ++ rest),
      not_over,
      not_empty,
      fits,
      drop-append b rest,
      take-append b rest,
      later,
    )

-- Where the header has its size, every blob has a byte, and the message takes fewer than 2^31 bytes,
-- what is received is what was sent, and the buffer has exactly the size that was allocated for it.
pub deserialize-serialize :
    (m : RawMessage)
    → length m.header ≡ header_size
    → All IsBlob m.blobs
    → length (serialize m) < 2 ^ 31
    → (deserialize (serialize m) ≡ some m) × (serialized_size m ≡ some (length (serialize m)))
unfolding deserialize serialize serialized_size
deserialize-serialize m h all small =
    let rest = serialize_blobs m.blobs in
    let size = length-append m.header rest in
    let enough = serialize_blobs_long m.blobs in
    let front : ltb (length (m.header ++ rest)) 32 ≡ false = ground (arith, size) in
    let dropped : drop 32 (m.header ++ rest) ≡ rest =
      ap (λ k. drop k (m.header ++ rest)) (sym h) ∙ drop-append m.header rest in
    let taken : take 32 (m.header ++ rest) ≡ m.header =
      ap (λ k. take k (m.header ++ rest)) (sym h) ∙ take-append m.header rest in
    let body =
      deserialize-serialize_blobs m.blobs (length (m.header ++ rest)) (omega (arith, size)) all in
    (
      rw (front, dropped, taken, body),
      length-serialize_blobs m.blobs header_size (omega (arith, size, h, small))
          ∙ ap some (omega (arith, size, h)),
    )
