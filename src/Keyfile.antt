-- ===== src/Keyfile.antt =====
-- Buckets of a NuDB key file: `bucket_index` and the modulus of `Shard::open`,
-- crates/xrla-nudb/src/keyfile.rs, and the same computation in `NuDbSink::finish`,
-- crates/xrla-nudb/src/writer.rs.
pub mod Buckets
pub mod Shard
pub mod Lookup
pub mod Search
pub mod Fetch
pub mod Chain
pub mod Primary
mod Examples
use xrpl_ledger_archive.Prelude.{
  ℕ, Option, ◌%◌, if◌then◌else◌, ltb, leb, none, ◌-◌, some, ◌/◌, suc, ◌*◌, ◌^◌, zero,
}

-- `while modulus < num_buckets { modulus <<= 1; }`, in at most `fuel` rounds; none if they do not
-- do.
unfoldable pub grow_modulus : ℕ → ℕ → ℕ → Option ℕ
grow_modulus zero num_buckets modulus = if ltb modulus num_buckets then none else some modulus
grow_modulus (suc fuel) num_buckets modulus =
    let grown = grow_modulus fuel num_buckets ((modulus * 2) % 2 ^ 64) in
    if ltb modulus num_buckets then grown else some modulus

unfoldable pub bucket_index : ℕ → ℕ → ℕ → ℕ
bucket_index num_buckets modulus nhash =
    let n = nhash % modulus in if leb num_buckets n then n - modulus / 2 else n
