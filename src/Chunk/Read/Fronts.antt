-- ===== src/Chunk/Read/Fronts.antt =====
-- What each read helper takes from the front.
use xrpl_ledger_archive.Node.{try_from, ShaMapError, NodeType}
use xrpl_ledger_archive.Chunk.Read.{
  read_exact, read_u8, read_u16be, read_u32be, read_u64be, read_hash, read_node, read_delta,
  read_tx, read_tx_map, or_unsupported,
}
use xrpl_ledger_archive.Prelude.{ℕ, List}
use xrpl_ledger_archive.Prelude.Consume.{
  TakesFront, TakesFront-bind, TakesFront-pure, TakesFront-fail, TakesFront-take_exact,
  TakesFront-repeat,
}
use xrpl_ledger_archive.Prelude.Parser.{◌>>=◌, pure, ok, err, Result}
use xrpl_ledger_archive.Chunk.Types.{unexpected_eof, ChunkError, unsupported_version}

pub TakesFront-read_exact : (n : ℕ) → TakesFront (read_exact n)
unfolding read_exact
TakesFront-read_exact n = TakesFront-take_exact unexpected_eof n

TakesFront-read_be :
    {A : Type 0} (n : ℕ) (f : List ℕ → A)
    → TakesFront (read_exact n >>= λ b. pure {E = ChunkError} (f b))
TakesFront-read_be n f = TakesFront-bind _ _ (TakesFront-read_exact n) λ b. TakesFront-pure (f b)

TakesFront-read_u8 : TakesFront read_u8
unfolding read_u8
TakesFront-read_u8 = TakesFront-read_be 1 _

TakesFront-read_u16be : TakesFront read_u16be
unfolding read_u16be
TakesFront-read_u16be = TakesFront-read_be 2 _

pub TakesFront-read_u32be : TakesFront read_u32be
unfolding read_u32be
TakesFront-read_u32be = TakesFront-read_be 4 _

TakesFront-read_u64be : TakesFront read_u64be
unfolding read_u64be
TakesFront-read_u64be = TakesFront-read_be 8 _

TakesFront-read_hash : TakesFront read_hash
unfolding read_hash
TakesFront-read_hash = TakesFront-read_exact 32

TakesFront-or_unsupported :
    (b : ℕ) (r : Result ShaMapError NodeType) → TakesFront (or_unsupported b r)
TakesFront-or_unsupported b (ok t) = TakesFront-pure t
TakesFront-or_unsupported b (err e) = TakesFront-fail (unsupported_version b)

pub TakesFront-read_node : TakesFront read_node
unfolding read_node
TakesFront-read_node = TakesFront-bind _ _ TakesFront-read_hash λ hash.
    TakesFront-bind _ _ TakesFront-read_u8 λ byte.
      TakesFront-bind _ _ (TakesFront-or_unsupported byte (try_from byte)) λ t.
        TakesFront-bind _ _ TakesFront-read_u16be
          λ len. TakesFront-bind _ _ (TakesFront-read_exact len) λ content. TakesFront-pure _

pub TakesFront-read_delta : TakesFront read_delta
unfolding read_delta
TakesFront-read_delta = TakesFront-bind _ _ TakesFront-read_u32be λ seq.
    TakesFront-bind _ _ TakesFront-read_u32be λ n.
      TakesFront-bind _ _ (TakesFront-repeat n _ TakesFront-read_node) λ added.
        TakesFront-bind _ _ TakesFront-read_u32be λ m.
          TakesFront-bind _ _ (TakesFront-repeat m _ TakesFront-read_hash) λ gone. TakesFront-pure _

TakesFront-read_tx : TakesFront read_tx
unfolding read_tx
TakesFront-read_tx = TakesFront-bind _ _ TakesFront-read_hash λ hash.
    TakesFront-bind _ _ TakesFront-read_u32be λ n.
      TakesFront-bind _ _ (TakesFront-read_exact n) λ blob.
        TakesFront-bind _ _ TakesFront-read_u32be
          λ m. TakesFront-bind _ _ (TakesFront-read_exact m) λ meta. TakesFront-pure _

pub TakesFront-read_tx_map : TakesFront read_tx_map
unfolding read_tx_map
TakesFront-read_tx_map = TakesFront-bind _ _ TakesFront-read_u32be λ seq.
    TakesFront-bind _ _ TakesFront-read_hash λ ledger.
      TakesFront-bind _ _ TakesFront-read_hash λ account.
        TakesFront-bind _ _ TakesFront-read_u64be λ drops.
          TakesFront-bind _ _ TakesFront-read_u32be λ parent.
            TakesFront-bind _ _ TakesFront-read_u32be λ close.
              TakesFront-bind _ _ TakesFront-read_u8 λ resolution.
                TakesFront-bind _ _ TakesFront-read_u8 λ flags.
                  TakesFront-bind _ _ TakesFront-read_u16be λ n.
                    TakesFront-bind _ _ (TakesFront-repeat n _ TakesFront-read_tx)
                      λ txns. TakesFront-pure _
