-- ===== src/Reader.antt =====
-- crates/xrla-nudb/src/reader.rs: `NuDBReader`. A shard enters by what its `fetch` returns for a hash,
-- the list of the shards is the reader, and the decompression of lz4 is the crate `lz4_flex`.
-- The children model the walks over the tree (`Walk`) and the differences of two trees (`Diff`); `Store`
-- puts `get_node` into both.
pub mod Walk
pub mod Diff
pub mod Store
mod Examples
use xrpl_ledger_archive.Node.Wire.{hash-from_wire_bytes}
use xrpl_ledger_archive.Dat.{decode_value_to_wire}
use xrpl_ledger_archive.TxTree.ReadLeaf.{LeafError}
use xrpl_ledger_archive.Keyfile.Shard.{FetchError}
use xrpl_ledger_archive.Prelude.{Option, none, some, List, [], ◌∷◌, ℕ, ◌≡◌, subst, refl}
use xrpl_ledger_archive.Prelude.Parser.{Result, ok, err}
use xrpl_ledger_archive.Prelude.Fallible.{◌>>=◌, ok-then}
use xrpl_ledger_archive.Node.{Hash256, ShaMapNode, ShaMapError, NodeType, from_wire_bytes}

-- `out_of_fuel` is the model's own.
pub data ReadError : Type 0 where
  node_not_found out_of_fuel : ReadError
  fetch_error : FetchError → ReadError
  invalid_node : ShaMapError → ReadError
  invalid_leaf : LeafError → ReadError

-- `Shard`, by its `fetch`.
abbrev pub Shard : Type 0
Shard = Hash256 → Result FetchError (Option (List ℕ))

module _ (decompress : List ℕ → ℕ → Option (List ℕ)) where
  -- What the first shard that has a value for the hash makes of it; a value that does not decode is
  -- passed over.
  abbrev pub or_next :
      Result FetchError (Option (List ℕ))
      → Result ReadError (Option (List ℕ))
      → Result ReadError (Option (List ℕ))
  or_next (err e) later = err (fetch_error e)
  or_next (ok none) later = later
  or_next (ok (some value)) later = elim (decode_value_to_wire decompress value) [
    | none ↦ later
    | some wire ↦ ok (some wire)
  ]

  unfoldable pub get_wire : List Shard → Hash256 → Result ReadError (Option (List ℕ))
  get_wire [] hash = ok none
  get_wire (shard ∷ shards) hash = or_next (shard hash) (get_wire shards hash)

  abbrev pub node_of_wire : Hash256 → Option (List ℕ) → Result ReadError ShaMapNode
  node_of_wire hash none = err node_not_found
  node_of_wire hash (some wire) = elim (from_wire_bytes hash wire) [
    | ok node ↦ ok node
    | err e ↦ err (invalid_node e)
  ]

  unfoldable pub get_node : List Shard → Hash256 → Result ReadError ShaMapNode
  get_node shards hash = get_wire shards hash >>= λ wire. node_of_wire hash wire

  -- What the walks rely on: a node carries the hash it was asked for.
  pub hash_get_node :
      (shards : List Shard) (h : Hash256) (node : ShaMapNode)
      → get_node shards h ≡ ok node
      → node.hash ≡ h
  unfolding get_node
  hash_get_node shards h node e =
      ok-then (get_wire shards h) (λ wire. node_of_wire h wire) e λ wire e' e''. of_wire wire e''
    where
      of_read :
          (r : Result ShaMapError ShaMapNode)
          → ((n : ShaMapNode) → r ≡ ok n → n.hash ≡ h)
          → ◌≡◌ {A = Result ReadError ShaMapNode}
              (elim r [ ok n ↦ ok n | err x ↦ err (invalid_node x) ])
              (ok node)
          → node.hash ≡ h
      of_read (ok n) k q = let same : n ≡ node = cc q in subst (λ m. m.hash ≡ h) same (k n refl)
      of_read (err x) k q = cc q

      of_wire : (wire : Option (List ℕ)) → node_of_wire h wire ≡ ok node → node.hash ≡ h
      of_wire none q = cc q
      of_wire (some wire) q = of_read (from_wire_bytes h wire) (hash-from_wire_bytes h wire) q
