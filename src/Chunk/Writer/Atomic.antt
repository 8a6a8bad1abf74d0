-- ===== src/Chunk/Writer/Atomic.antt =====
-- `finish` of the writer under faults of the file system.
use xrpl_ledger_archive.Disk.{Files, FilePath, rename, write_file, remove_file}
use xrpl_ledger_archive.Node.{Hash256}
use xrpl_ledger_archive.Prelude.Parser.{err, ok}
use xrpl_ledger_archive.Chunk.Write.{sha512half}
use xrpl_ledger_archive.Prelude.{
  List, ℕ, ◌≢◌, ◌≡◌, arith, list_eq→eq, false, some, list_eq_refl, none, sym,
}
use xrpl_ledger_archive.Chunk.Writer.{
  finish, drop_writer, overwrite, ChunkWriter, Faults, body, IoError,
}
use xrpl_ledger_archive.Chunk.Types.{magic_footer}
use xrpl_ledger_archive.Node.{Hash256}

-- The file that `finish` means to leave at the final name.
abbrev pub complete : (List ℕ → List ℕ) → ChunkWriter → List ℕ
complete sha512 w =
    let w' = body magic_footer w in
    overwrite w.chunk_hash_offset (sha512half sha512 w'.hashed) w'.inner

module _ (sha512 : List ℕ → List ℕ) (faults : Faults) (w : ChunkWriter) (fs : Files) where
  -- A `finish` that fails leaves every path but the temporary one as it was; one that succeeds
  -- leaves the whole chunk at the final name, nothing at the temporary one, and returns the hash
  -- of all that it hashed.
  pub record IsAtomic : Type 0 where
    pub failed :
        (e : IoError) (q : FilePath)
        → (finish sha512 faults w fs).0 ≡ err e
        → w.tmp ≢ q
        → (finish sha512 faults w fs).1 q ≡ fs q
    pub finished :
        (hash : Hash256)
        → (finish sha512 faults w fs).0 ≡ ok hash
        → (hash ≡ sha512half sha512 (body magic_footer w).hashed)
          × ((finish sha512 faults w fs).1 w.final ≡ some (complete sha512 w))
          × ((finish sha512 faults w fs).1 w.tmp ≡ none)

-- A file that was just written at `p` is moved to `q`.
module _ (p q : FilePath) (bytes : List ℕ) (fs : Files) where
  rename-at_new : rename p q (write_file p bytes fs) q ≡ some bytes
  unfolding rename write_file
  rename-at_new = ground (arith, list_eq_refl p, list_eq_refl q)

  rename-at_old : p ≢ q → rename p q (write_file p bytes fs) p ≡ none
  unfolding rename write_file remove_file
  rename-at_old ne = ground (arith, list_eq_refl p, list_eq→eq q p, ne_sym)
    where
      ne_sym : q ≡ p → ⊥
      ne_sym e = ne (sym e)

pub finish-IsAtomic :
    (sha512 : List ℕ → List ℕ) (faults : Faults) (w : ChunkWriter) (fs : Files)
    → w.finished ≡ false
    → w.tmp ≢ w.final
    → IsAtomic sha512 faults w fs
unfolding finish drop_writer
finish-IsAtomic sha512 faults w fs fresh ne = record {
  failed = λ e q h k. ground (arith, list_eq→eq w.tmp q);
  finished = λ hash h. ground (arith, moved_to, moved_from);
}
  where
    moved_to :
        rename w.tmp w.final (write_file w.tmp (complete sha512 w) fs) w.final
        ≡ some (complete sha512 w)
    moved_to = rename-at_new w.tmp w.final (complete sha512 w) fs

    moved_from : rename w.tmp w.final (write_file w.tmp (complete sha512 w) fs) w.tmp ≡ none
    moved_from = rename-at_old w.tmp w.final (complete sha512 w) fs ne

-- When `finish` fails, on a writer that is not finished and whose temporary path is not its final
-- one, every path but the temporary one holds what it held before, whichever call of the file
-- system it is that failed.
pub finish_failed :
    (sha512 : List ℕ → List ℕ) (faults : Faults) (w : ChunkWriter) (fs : Files) (e : IoError)
    (q : FilePath)
    → w.finished ≡ false
    → w.tmp ≢ w.final
    → (finish sha512 faults w fs).0 ≡ err e
    → w.tmp ≢ q
    → (finish sha512 faults w fs).1 q ≡ fs q
finish_failed sha512 faults w fs e q fresh ne =
    (finish-IsAtomic sha512 faults w fs fresh ne).failed e q
