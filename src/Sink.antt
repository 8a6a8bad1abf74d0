-- ===== src/Sink.antt =====
-- The end of `NuDbSink::finish` and the drop of the sink, crates/xrla-nudb/src/writer.rs: the key
-- file is written, and both files are moved to their names. The data file is complete at its
-- temporary path by then, and the bytes of the key file are given.
pub mod Steps
pub mod Moved
pub mod Swap
pub mod Ended
pub mod Nodes
pub mod Stored
pub mod Records
pub mod Map
pub mod Tables
pub mod Spilled
pub mod Blocks
pub mod Buckets
pub mod Sized
pub mod Opened
pub mod Fetched
pub mod Store
mod Examples
use xrpl_ledger_archive.Prelude.Parser.{Result, ok, err}
use xrpl_ledger_archive.Prelude.{
  none, some, Bool, ◌++◌, if◌then◌else◌, List, ℕ, ◌∷◌, ◌&&◌, [], not, false, true,
}
use xrpl_ledger_archive.Disk.{FilePath, Files, write_file, remove_file, rename, tmp_path}

-- The part of the sink that the swap reads.
pub record NuDbSink : Type 0 where
  pub dat_tmp : FilePath
  pub dat_final : FilePath

-- Which calls of the file system fail, and what a key file that is not written to its end holds.
pub record SinkFaults : Type 0 where
  pub key_create : Bool
  pub key_write : Bool
  pub partial : List ℕ
  pub move_aside : Bool
  pub dat_rename : Bool
  pub key_rename : Bool
  pub put_back : Bool
  pub remove_bak : Bool
  pub remove_key_tmp : Bool
  pub remove_dat_tmp : Bool

pub data SinkError : Type 0 where
  sink_error : SinkError

-- `<key_path>.bak`
unfoldable pub bak_path : FilePath → FilePath
bak_path path = path ++ (b'.' ∷ b'b' ∷ b'a' ∷ b'k' ∷ [])

-- `path.exists()`
unfoldable pub exists_at : FilePath → Files → Bool
exists_at path fs = elim (fs path) [ none ↦ false | some bytes ↦ true ]

-- `let _ = fs::remove_file(path)`
unfoldable pub try_remove : Bool → FilePath → Files → Files
unfolding remove_file
try_remove fault path fs = if fault then fs else remove_file path fs

-- The old key, if there was one, is moved out of the way.
unfoldable pub set_aside : FilePath → Files → Files
unfolding bak_path exists_at rename
set_aside key_path fs = if exists_at key_path fs then rename key_path (bak_path key_path) fs else fs

-- After a failed swap: `had_old` says whether there was an old key.
unfoldable pub restore : Bool → Bool → FilePath → Files → Files
unfolding bak_path exists_at rename
restore fault had_old key_path fs =
    if had_old && not (exists_at key_path fs)
    then (if fault then fs else rename (bak_path key_path) key_path fs)
    else fs

-- The closure that gives `result`.
unfoldable pub swap_files :
    SinkFaults → NuDbSink → FilePath → List ℕ → Files → Result SinkError (Unit {0}) × Files
unfolding exists_at set_aside restore try_remove bak_path tmp_path write_file rename
swap_files faults sink key_path key fs =
    let written = write_file (tmp_path key_path) key fs in
    let had_old = exists_at key_path written in
    let aside = set_aside key_path written in
    let dat_moved = rename sink.dat_tmp sink.dat_final aside in
    let key_moved = rename (tmp_path key_path) key_path dat_moved in
    if faults.key_create
    then (err sink_error, fs)
    else if faults.key_write
    then (err sink_error, write_file (tmp_path key_path) faults.partial fs)
    else if had_old && faults.move_aside
    then (err sink_error, written)
    else if faults.dat_rename
    then (err sink_error, restore faults.put_back had_old key_path aside)
    else if faults.key_rename
    then (err sink_error, restore faults.put_back had_old key_path dat_moved)
    else (
      ok tt,
      if had_old then try_remove faults.remove_bak (bak_path key_path) key_moved else key_moved,
    )

-- What follows the closure, and the drop of a sink that is not finished.
unfoldable pub settle :
    SinkFaults
    → NuDbSink
    → FilePath
    → Result SinkError (Unit {0}) × Files
    → Result SinkError (Unit {0}) × Files
unfolding try_remove tmp_path
settle faults sink key_path (ok u, fs) = (ok u, fs)
settle faults sink key_path (err e, fs) = (
  err e,
  try_remove faults.remove_dat_tmp sink.dat_tmp
      (try_remove faults.remove_key_tmp (tmp_path key_path) fs),
)

unfoldable pub finish_swap :
    SinkFaults → NuDbSink → FilePath → List ℕ → Files → Result SinkError (Unit {0}) × Files
unfolding swap_files settle
finish_swap faults sink key_path key fs =
    settle faults sink key_path (swap_files faults sink key_path key fs)

-- What is on disk before the first call, and after each one of a run in which none fails: what a
-- crash leaves.
unfoldable pub swap_states : NuDbSink → FilePath → List ℕ → Files → List Files
unfolding exists_at set_aside try_remove bak_path tmp_path write_file rename
swap_states sink key_path key fs =
    let written = write_file (tmp_path key_path) key fs in
    let aside = set_aside key_path written in
    let dat_moved = rename sink.dat_tmp sink.dat_final aside in
    let key_moved = rename (tmp_path key_path) key_path dat_moved in
    fs
    ∷ written
    ∷ aside
    ∷ dat_moved
    ∷ key_moved
    ∷ (if exists_at key_path written
        then try_remove false (bak_path key_path) key_moved
        else key_moved)
    ∷ []
