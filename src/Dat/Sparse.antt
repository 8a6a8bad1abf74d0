-- ===== src/Dat/Sparse.antt =====
-- The sparse layout of an inner node, described from its sixteen slots.
use xrpl_ledger_archive.Prelude.Bytes.{be_bytes, length-be_bytes, from_be, from_be-be_bytes}
use xrpl_ledger_archive.Node.{Hash256, zero_hash, type_byte, inner}
use xrpl_ledger_archive.Prelude.{
  List, ℕ, ◌<◌, ◌∷◌, ◌^◌, if◌then◌else◌, ◌*◌, length, list_eq, ◌++◌, ◌+◌, arith, ◌/◌, [], ◌%◌, ◌≡◌,
  suc, Bool-cases, All, some, refl, inl, list_eq→eq, inr, ap, ◌∙◌, sym, take-append, drop-append,
  length-append, take, subst, ltb, false, le→ltb, ◌==◌, true, ==_iff,
}
use native.Mathlib.Nat.{mul-add-div, pow-suc, div-eq_of_lt}
use xrpl_ledger_archive.Dat.{decode_sparse_inner, expand, count_ones}
use xrpl_ledger_archive.TxTree.{concat}

-- Slot 0 is the highest bit.
unfoldable pub mask_of : List Hash256 → ℕ
mask_of [] = 0
mask_of (slot ∷ slots) =
    (if list_eq slot zero_hash then 0 else 1) * 2 ^ length slots + mask_of slots

unfoldable pub present : List Hash256 → List Hash256
present [] = []
present (slot ∷ slots) = if list_eq slot zero_hash then present slots else slot ∷ present slots

-- The mask, then the hashes that are there, in their order.
unfoldable pub sparse_value : List Hash256 → List ℕ
sparse_value slots = 2 ∷ (be_bytes 2 (mask_of slots) ++ concat (present slots))

bit_at : (n hi b r : ℕ) → b < 2 → r < 2 ^ n → ((2 * hi + b) * 2 ^ n + r) / 2 ^ n % 2 ≡ b
bit_at n hi b r h k =
    let positive : 0 < 2 ^ n = omega (arith, k) in
    let shape : (2 * hi + b) * 2 ^ n + r ≡ 2 ^ n * (2 * hi + b) + r = grind arith in
    let small : r / 2 ^ n ≡ 0 = div-eq_of_lt k in
    let quotient : ((2 * hi + b) * 2 ^ n + r) / 2 ^ n ≡ 2 * hi + b =
      rw (shape, mul-add-div positive (2 * hi + b) r, small) (omega arith) in
    rw quotient (omega arith)

mask_of_bound : (slots : List Hash256) → mask_of slots < 2 ^ length slots
unfolding mask_of
mask_of_bound [] = omega arith
mask_of_bound (slot ∷ slots) = ground (arith, mask_of_bound slots, pow-suc 2 (length slots))

abbrev pub IsSlot : Hash256 → Type 0
IsSlot slot = length slot ≡ 32

-- One bit off the mask.
step :
    (slots : List Hash256) (hi b mask : ℕ)
    → b < 2
    → mask ≡ hi * 2 ^ suc (length slots) + (b * 2 ^ length slots + mask_of slots)
    → (mask / 2 ^ length slots % 2 ≡ b) × (mask ≡ (2 * hi + b) * 2 ^ length slots + mask_of slots)
step slots hi b mask h e =
    let shape : mask ≡ (2 * hi + b) * 2 ^ length slots + mask_of slots =
      grind (arith, e, pow-suc 2 (length slots)) in
    (rw shape (bit_at (length slots) hi b (mask_of slots) h (mask_of_bound slots)), shape)

-- What the mask says of the slots from one on.
count_ones-mask_of :
    (slots : List Hash256) (hi mask : ℕ)
    → mask ≡ hi * 2 ^ length slots + mask_of slots
    → count_ones (length slots) mask ≡ length (present slots)
unfolding count_ones mask_of present
count_ones-mask_of [] hi mask e = refl
count_ones-mask_of (slot ∷ slots) hi mask e = elim (Bool-cases (list_eq slot zero_hash)) [
  | inl q ↦
      let (bit, rest) = step slots hi 0 mask (omega arith) (rw q at e) in
      rw (q, bit) (omega (arith, count_ones-mask_of slots (2 * hi + 0) mask rest))
  | inr q ↦
      let (bit, rest) = step slots hi 1 mask (omega arith) (rw q at e) in
      rw (q, bit) (omega (arith, count_ones-mask_of slots (2 * hi + 1) mask rest))
]

expand-mask_of :
    (slots : List Hash256) (hi mask : ℕ)
    → mask ≡ hi * 2 ^ length slots + mask_of slots
    → All IsSlot slots
    → expand (length slots) mask (concat (present slots)) ≡ concat slots
unfolding expand mask_of present
expand-mask_of [] hi mask e h = refl
expand-mask_of (slot ∷ slots) hi mask e h = elim (Bool-cases (list_eq slot zero_hash)) [
  | inl q ↦
      let (bit, rest) = step slots hi 0 mask (omega arith) (rw q at e) in
      let zeros = list_eq→eq slot zero_hash q in
      rw (q, bit)
        (ap (λ xs. zero_hash ++ xs) (expand-mask_of slots (2 * hi + 0) mask rest h.1)
          ∙ ap (λ xs. xs ++ concat slots) (sym zeros))
  | inr q ↦
      let (bit, rest) = step slots hi 1 mask (omega arith) (rw q at e) in
      rw
        (
          q,
          bit,
          take-append 32 slot (concat (present slots)) h.0,
          drop-append 32 slot (concat (present slots)) h.0,
        )
        (ap (λ xs. slot ++ xs) (expand-mask_of slots (2 * hi + 1) mask rest h.1))
]

length-present :
    (slots : List Hash256)
    → All IsSlot slots
    → length (concat (present slots)) ≡ length (present slots) * 32
unfolding present
length-present [] h = refl
length-present (slot ∷ slots) h = elim (Bool-cases (list_eq slot zero_hash)) [
  | inl q ↦ rw q (length-present slots h.1)
  | inr q ↦
      rw q
        (omega (arith, length-append slot (concat (present slots)), length-present slots h.1, h.0))
]

-- The sparse value of sixteen hashes of 32 bytes is decoded to the full layout: each hash in its
-- own slot, zeros where it is the zero hash.
pub decode_sparse_inner-sparse_value :
    (slots : List Hash256)
    → length slots ≡ 16
    → All IsSlot slots
    → decode_sparse_inner (sparse_value slots) ≡ some (concat slots ++ (type_byte inner ∷ []))
unfolding decode_sparse_inner sparse_value
decode_sparse_inner-sparse_value slots n h =
    let mask = mask_of slots in
    let hashes = concat (present slots) in
    let two = length-be_bytes 2 mask in
    let bound : mask < 256 ^ 2 =
      omega (arith, mask_of_bound slots, rw n at (mask_of_bound slots)) in
    let mask_read : from_be (take 2 (be_bytes 2 mask ++ hashes)) ≡ mask =
      ap from_be (take-append 2 (be_bytes 2 mask) hashes two) ∙ from_be-be_bytes 2 mask bound in
    let shape : mask ≡ 0 * 2 ^ length slots + mask_of slots = omega arith in
    let ones : count_ones 16 mask ≡ length (present slots) =
      subst (λ k. count_ones k mask ≡ length (present slots)) n
        (count_ones-mask_of slots 0 mask shape) in
    let full : expand 16 mask hashes ≡ concat slots =
      subst (λ k. expand k mask hashes ≡ concat slots) n (expand-mask_of slots 0 mask shape h) in
    let size : length (sparse_value slots) ≡ 3 + count_ones 16 mask * 32 =
      omega (arith, length-append (be_bytes 2 mask) hashes, two, length-present slots h, ones) in
    let long : ltb (suc (length (be_bytes 2 mask ++ hashes))) 3 ≡ false =
      le→ltb (suc (length (be_bytes 2 mask ++ hashes))) 3 (omega (arith, size)) in
    let fits : (suc (length (be_bytes 2 mask ++ hashes)) == 3 + count_ones 16 mask * 32) ≡ true =
      (==_iff (suc (length (be_bytes 2 mask ++ hashes))) (3 + count_ones 16 mask * 32)).1 size in
    rw (mask_read, drop-append 2 (be_bytes 2 mask) hashes two, full, long, fits)
