-- ===== src/Reader/Store.antt =====
-- The walks and the diff of crates/xrla-nudb/src/reader.rs over its shards, read by `get_node`.
use xrpl_ledger_archive.Reader.Walk.Rounds.{collect_reachable_concurrent_total}
use xrpl_ledger_archive.Reader.Walk.Correct.{IsTree}
use xrpl_ledger_archive.Reader.Walk.{collect_reachable, collect_reachable_concurrent}
use xrpl_ledger_archive.Reader.Diff.Correct.{IsDiff}
use xrpl_ledger_archive.Prelude.Parser.{ok}
use xrpl_ledger_archive.Reader.Diff.{diff}
use xrpl_ledger_archive.Reader.Diff.Readable.{IsReadable}
use xrpl_ledger_archive.Reader.Diff.Total.{diff_total}
use xrpl_ledger_archive.Reader.Walk.Total.{IsStored, weight, collect_reachable_total}
use xrpl_ledger_archive.Node.{Hash256, ShaMapDiff, ShaMapNode}
use xrpl_ledger_archive.Reader.{Shard, get_node, hash_get_node}
use xrpl_ledger_archive.Prelude.{List, ℕ, Option, [], suc, ◌+◌, ◌≡◌, ◌<◌}

module _ (decompress : List ℕ → ℕ → Option (List ℕ)) (shards : List Shard) where
  -- With a round for each key that the shards hold and for each of its children, `collect_reachable`
  -- over the shards ends and returns just the nodes of the tree below the root, each once, as the
  -- shards have them: if the nodes of that tree can be read.
  pub collect_reachable_shards :
      (root : Hash256) (keys : List Hash256)
      → IsStored (get_node decompress shards) (hash_get_node decompress shards) root keys
      → (fuel : ℕ) → weight (get_node decompress shards) keys [] + 1 < fuel
      → (out : List ShaMapNode) × (collect_reachable (get_node decompress shards) fuel root
          ≡ ok out)
        × IsTree (get_node decompress shards) (hash_get_node decompress shards) root out
  collect_reachable_shards root keys stored fuel l =
      collect_reachable_total _ (hash_get_node decompress shards) root keys stored fuel l

  -- With a round for each key that the shards hold and for each of its children, and with any number of
  -- workers, `collect_reachable_concurrent` over the shards ends and returns just the nodes of the tree
  -- below the root, each once, as the shards have them: if the nodes of that tree can be read.
  pub collect_reachable_concurrent_shards :
      (root : Hash256) (keys : List Hash256)
      → IsStored (get_node decompress shards) (hash_get_node decompress shards) root keys
      → (fuel concurrency : ℕ) → weight (get_node decompress shards) keys [] + 1 < fuel
      → (out : List ShaMapNode) × (collect_reachable_concurrent
            (get_node decompress shards)
            fuel
            root
            concurrency
          ≡ ok out)
        × IsTree (get_node decompress shards) (hash_get_node decompress shards) root out
  collect_reachable_concurrent_shards root keys stored fuel concurrency l =
      collect_reachable_concurrent_total _ (hash_get_node decompress shards) root keys stored fuel
        concurrency l

  -- With fuel for one level more than the two trees have, `diff` over the shards returns; the added
  -- nodes are in the new tree and the deleted hashes in the old one; what is in the new tree and not
  -- in the old one was added, and what is in the old tree and not in the new one was deleted: if both
  -- trees can be read.
  pub diff_shards :
      (levels : ℕ) (old_root new_root : Hash256)
      → IsReadable (get_node decompress shards) levels old_root
      → IsReadable (get_node decompress shards) levels new_root
      → (d : ShaMapDiff) × (diff (get_node decompress shards) (suc levels) old_root new_root ≡ ok d)
        × IsDiff (get_node decompress shards) (hash_get_node decompress shards) old_root new_root d
  diff_shards levels old_root new_root h k =
      diff_total _ (hash_get_node decompress shards) levels old_root new_root h k
