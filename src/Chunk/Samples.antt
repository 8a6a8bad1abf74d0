-- ===== src/Chunk/Samples.antt =====
-- A small archive of two ledgers.
use xrpl_ledger_archive.Chunk.RoundTrip.Whole.{IsChunk}
use xrpl_ledger_archive.Chunk.RoundTrip.Records.{IsTx, IsDelta, IsNode, IsTxMap}
use xrpl_ledger_archive.Chunk.Types.{TxRecord, LedgerDelta, Chunk, TxMap}
use xrpl_ledger_archive.Node.{Hash256, ShaMapNode, account_state, zero_hash}
use xrpl_ledger_archive.Prelude.{
  List, ℕ, length, replicate, ◌∷◌, ◌<◌, arith, ◌≡◌, ◌%◌, [], ◌^◌, All, refl,
}

-- A stand-in for SHA-512 that has its size.
abbrev pub digest : List ℕ → List ℕ
digest bytes = length bytes % 256 ∷ replicate 63 0

pub digest_size : (bytes : List ℕ) → length (digest bytes) ≡ 64
digest_size bytes = refl

abbrev pub hash_a : Hash256
hash_a = replicate 32 10

abbrev pub hash_b : Hash256
hash_b = replicate 32 20

abbrev pub leaf : Hash256 → ShaMapNode
leaf hash = record { hash = hash; node_type = account_state; content = 1 ∷ 2 ∷ 3 ∷ [] }

abbrev pub tx_map : ℕ → List TxRecord → TxMap
tx_map seq txns = record {
  ledger_seq = seq;
  ledger_hash = hash_a;
  account_hash = hash_b;
  drops = 1000;
  parent_close_time = 5;
  close_time = 6;
  close_time_resolution = 10;
  close_flags = 0;
  txns = txns;
}

abbrev pub payment : TxRecord
payment = record { tx_hash = hash_b; tx_blob = 7 ∷ 8 ∷ []; meta_blob = 9 ∷ [] }

abbrev pub delta : LedgerDelta
delta = record {
  ledger_seq = 101;
  diff = record { added = leaf hash_a ∷ []; deleted = hash_b ∷ [] };
}

-- The nodes of the checkpoint in one order and in the other.
abbrev pub archive : List ShaMapNode → Chunk
archive nodes = record {
  network_id = 1;
  start_ledger = 100;
  end_ledger = 101;
  checkpoint_hash = hash_a;
  chunk_hash = zero_hash;
  checkpoint = nodes;
  deltas = delta ∷ [];
  tx_maps = tx_map 100 [] ∷ tx_map 101 (payment ∷ []) ∷ [];
}

abbrev pub backward : Chunk
backward = archive (leaf hash_b ∷ leaf hash_a ∷ [])

abbrev pub forward : Chunk
forward = archive (leaf hash_a ∷ leaf hash_b ∷ [])

leaf-IsNode : (hash : Hash256) → length hash ≡ 32 → IsNode (leaf hash)
leaf-IsNode hash h = record { hash = h; content = omega arith }

tx_map-IsTxMap :
    (seq : ℕ) (txns : List TxRecord)
    → seq < 2 ^ 32
    → length txns < 2 ^ 16
    → All IsTx txns
    → IsTxMap (tx_map seq txns)
tx_map-IsTxMap seq txns h few valid = record {
  ledger_seq = h;
  ledger_hash = refl;
  account_hash = refl;
  drops = omega arith;
  parent_close_time = omega arith;
  close_time = omega arith;
  txns_few = few;
  txns = valid;
}

payment-IsTx : IsTx payment
payment-IsTx = record { tx_hash = refl; tx_blob = omega arith; meta_blob = omega arith }

delta-IsDelta : IsDelta delta
delta-IsDelta = record {
  ledger_seq = omega arith;
  added_few = omega arith;
  added = (leaf-IsNode hash_a refl, tt);
  deleted_few = omega arith;
  deleted = (refl, tt);
}

pub backward-IsChunk : IsChunk backward
backward-IsChunk = record {
  network_id = omega arith;
  start_le_end = omega arith;
  end_ledger = omega arith;
  checkpoint_hash = refl;
  checkpoint_few = omega arith;
  checkpoint = (leaf-IsNode hash_b refl, (leaf-IsNode hash_a refl, tt));
  delta_count = refl;
  deltas = (delta-IsDelta, tt);
  tx_map_count = refl;
  tx_maps = (
    tx_map-IsTxMap 100 [] (omega arith) (omega arith) tt,
    (tx_map-IsTxMap 101 (payment ∷ []) (omega arith) (omega arith) (payment-IsTx, tt), tt),
  );
}
