-- ===== src/Keyfile/Buckets.antt =====
-- The range of `bucket_index`.
use native.Mathlib.Nat.{pow-le-pow_right, pow-suc}
use xrpl_ledger_archive.Prelude.{
  ℕ, ◌≡◌, ◌<◌, ◌^◌, ◌≤◌, ◌/◌, some, ◌+◌, suc, zero, arith, le→ltb, refl, Bool-cases, ltb, inl, ◌*◌,
  ◌%◌, inr, ap, ◌∙◌,
}
use xrpl_ledger_archive.Keyfile.{grow_modulus, bucket_index}

-- A power of two that is at least the number of buckets, with half of it below that number.
pub record IsModulus (num_buckets modulus : ℕ) : Type 0 where
  pub exponent : ℕ
  pub power : modulus ≡ 2 ^ exponent
  pub enough : num_buckets ≤ modulus
  pub half_below : modulus / 2 < num_buckets

grow_modulus-IsModulus :
    (fuel k num_buckets : ℕ)
    → 0 < num_buckets
    → 2 ^ k / 2 < num_buckets
    → fuel + k ≡ 63
    → num_buckets ≤ 2 ^ 63
    → (modulus : ℕ) × (grow_modulus fuel num_buckets (2 ^ k) ≡ some modulus)
      × IsModulus num_buckets modulus
unfolding grow_modulus
grow_modulus-IsModulus zero k num_buckets pos half e bound =
    let same : k ≡ 63 = omega arith in
    let big : num_buckets ≤ 2 ^ k = rw same bound in
    (
      2 ^ k,
      rw (le→ltb (2 ^ k) num_buckets big),
      record { exponent = k; power = refl; enough = big; half_below = half },
    )
grow_modulus-IsModulus (suc fuel) k num_buckets pos half e bound =
    elim (Bool-cases (ltb (2 ^ k) num_buckets)) [
      | inl q ↦
          let small : 2 ^ k < num_buckets = ground (arith, q) in
          let room : 2 ^ suc k ≤ 2 ^ 63 =
            pow-le-pow_right (omega arith) {i = suc k} {j = 63} (omega (arith, e)) in
          let next : (2 ^ k * 2) % 2 ^ 64 ≡ 2 ^ suc k = omega (arith, room, pow-suc 2 k) in
          let (m, e', im) =
            grow_modulus-IsModulus fuel (suc k) num_buckets pos (omega (arith, small, pow-suc 2 k))
              (omega arith) bound in
          (m, rw q (ap (grow_modulus fuel num_buckets) next ∙ e'), im)
      | inr q ↦ (
        2 ^ k,
        rw q,
        record { exponent = k; power = refl; enough = ground (arith, q); half_below = half },
      )
    ]

-- For a table of at least one bucket and at most 2 ^ 63, the loop ends within 63 rounds at the
-- power of two that covers the buckets and whose half does not, and then every hash falls into
-- one of the buckets.
pub bucket_index_bound :
    (num_buckets nhash : ℕ)
    → 0 < num_buckets
    → num_buckets ≤ 2 ^ 63
    → (modulus : ℕ) × (grow_modulus 63 num_buckets 1 ≡ some modulus)
      × IsModulus num_buckets modulus
      × (bucket_index num_buckets modulus nhash < num_buckets)
unfolding bucket_index
bucket_index_bound num_buckets nhash pos bound =
    let (m, e, im) = grow_modulus-IsModulus 63 0 num_buckets pos (omega arith) refl bound in
    (m, e, im, ground (arith, im.half_below, im.enough))
