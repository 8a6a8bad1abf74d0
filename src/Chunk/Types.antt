-- ===== src/Chunk/Types.antt =====
-- crates/xrla-common/src/chunk.rs: what a chunk holds, and its errors.
use xrpl_ledger_archive.Prelude.{ℕ, ◌+◌, ◌-◌, ◌%◌, ◌^◌, List, [], ◌∷◌}
use xrpl_ledger_archive.Node.{Hash256, ShaMapNode, ShaMapDiff}

-- b"XRLA"
abbrev pub magic_header : List ℕ
magic_header = b'X' ∷ b'R' ∷ b'L' ∷ b'A' ∷ []

-- b"ENDX"
abbrev pub magic_footer : List ℕ
magic_footer = b'E' ∷ b'N' ∷ b'D' ∷ b'X' ∷ []

abbrev pub format_version : ℕ
format_version = 2

abbrev pub format_version_streamed : ℕ
format_version_streamed = 3

abbrev pub network_mainnet : ℕ
network_mainnet = 1

pub record TxRecord : Type 0 where
  pub tx_hash : Hash256
  pub tx_blob : List ℕ
  pub meta_blob : List ℕ

pub record TxMap : Type 0 where
  pub ledger_seq : ℕ
  pub ledger_hash : Hash256
  pub account_hash : Hash256
  pub drops : ℕ
  pub parent_close_time : ℕ
  pub close_time : ℕ
  pub close_time_resolution : ℕ
  pub close_flags : ℕ
  pub txns : List TxRecord

pub record LedgerDelta : Type 0 where
  pub ledger_seq : ℕ
  pub diff : ShaMapDiff

pub record Chunk : Type 0 where
  pub network_id : ℕ
  pub start_ledger : ℕ
  pub end_ledger : ℕ
  pub checkpoint_hash : Hash256
  pub chunk_hash : Hash256
  pub checkpoint : List ShaMapNode
  pub deltas : List LedgerDelta
  pub tx_maps : List TxMap

-- The two messages of a failed `HashMismatch` are the hex of these hashes; `io` stands for any error
-- of the input.
pub data ChunkError : Type 0 where
  invalid_magic unexpected_eof io : ChunkError
  ledger_hash_mismatch : ℕ → ChunkError
  unsupported_version : ℕ → ChunkError
  hash_mismatch : Hash256 → Hash256 → ChunkError

-- `a - b` of two `u32`: it wraps in a release build, which has no overflow checks.
abbrev pub sub_u32 : ℕ → ℕ → ℕ
sub_u32 a b = (a + 2 ^ 32 - b) % 2 ^ 32

unfoldable pub ledger_count : Chunk → ℕ
ledger_count c = (sub_u32 c.end_ledger c.start_ledger + 1) % 2 ^ 32
