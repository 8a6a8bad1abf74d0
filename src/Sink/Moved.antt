-- ===== src/Sink/Moved.antt =====
-- The steps of the swap at the end of `NuDbSink::finish`, crates/xrla-nudb/src/writer.rs, and what
-- they leave at the final paths.
use xrpl_ledger_archive.Sink.Steps.{
  set_aside-ne, set_aside-at, flip, try_remove-ne, key-key_tmp, key-bak, key_tmp-bak,
}
use xrpl_ledger_archive.Prelude.{
  ◌≢◌, List, ℕ, ◌≡◌, false, ◌∙◌, some, true, none, Bool, if◌then◌else◌,
}
use xrpl_ledger_archive.Sink.{set_aside, try_remove, NuDbSink, bak_path, set_aside, try_remove}
use xrpl_ledger_archive.Disk.{
  FilePath, Files, tmp_path, rename, write_file, rename-ne, rename-at, write_file-ne, write_file-at,
}

-- The five paths differ from each other.
pub record Apart (sink : NuDbSink) (key_path : FilePath) : Type 0 where
  pub tmp_final : sink.dat_tmp ≢ sink.dat_final
  pub tmp_key : sink.dat_tmp ≢ key_path
  pub tmp_key_tmp : sink.dat_tmp ≢ tmp_path key_path
  pub tmp_bak : sink.dat_tmp ≢ bak_path key_path
  pub final_key : sink.dat_final ≢ key_path
  pub final_key_tmp : sink.dat_final ≢ tmp_path key_path
  pub final_bak : sink.dat_final ≢ bak_path key_path

-- The files after each call of a swap in which none fails.
abbrev pub written : FilePath → List ℕ → Files → Files
written key_path key fs = write_file (tmp_path key_path) key fs

abbrev pub aside : FilePath → List ℕ → Files → Files
aside key_path key fs = set_aside key_path (written key_path key fs)

abbrev pub dat_moved : NuDbSink → FilePath → List ℕ → Files → Files
dat_moved sink key_path key fs = rename sink.dat_tmp sink.dat_final (aside key_path key fs)

abbrev pub key_moved : NuDbSink → FilePath → List ℕ → Files → Files
key_moved sink key_path key fs =
    rename (tmp_path key_path) key_path (dat_moved sink key_path key fs)

-- The old key is removed at last, if there was one.
abbrev pub cleaned : Bool → Bool → NuDbSink → FilePath → List ℕ → Files → Files
cleaned fault had_old sink key_path key fs =
    if had_old
    then try_remove fault (bak_path key_path) (key_moved sink key_path key fs)
    else key_moved sink key_path key fs

-- The swap, over files where the data is complete at its temporary path.
module _ (sink : NuDbSink) (key_path : FilePath) (apart : Apart sink key_path)
    (key payload : List ℕ) (fs : Files) (complete : fs sink.dat_tmp ≡ some payload) where
  aside-tmp : (aside key_path key fs) sink.dat_tmp ≡ some payload
  aside-tmp =
      set_aside-ne key_path sink.dat_tmp (written key_path key fs) (flip apart.tmp_key)
        (flip apart.tmp_bak)
      ∙ write_file-ne (tmp_path key_path) sink.dat_tmp key fs (flip apart.tmp_key_tmp)
      ∙ complete

  pub dat_moved-final : (dat_moved sink key_path key fs) sink.dat_final ≡ some payload
  dat_moved-final = rename-at sink.dat_tmp sink.dat_final (aside key_path key fs) aside-tmp

  pub dat_moved-key : (dat_moved sink key_path key fs) key_path ≡ none
  dat_moved-key =
      rename-ne sink.dat_tmp sink.dat_final (aside key_path key fs) key_path apart.tmp_key
        apart.final_key
      ∙ set_aside-at key_path (written key_path key fs)

  dat_moved-key_tmp : (dat_moved sink key_path key fs) (tmp_path key_path) ≡ some key
  dat_moved-key_tmp =
      rename-ne sink.dat_tmp sink.dat_final (aside key_path key fs) (tmp_path key_path)
        apart.tmp_key_tmp apart.final_key_tmp
      ∙ set_aside-ne key_path (tmp_path key_path) (written key_path key fs) (key-key_tmp key_path)
          (flip (key_tmp-bak key_path))
      ∙ write_file-at (tmp_path key_path) key fs

  key_moved-final : (key_moved sink key_path key fs) sink.dat_final ≡ some payload
  key_moved-final =
      rename-ne (tmp_path key_path) key_path (dat_moved sink key_path key fs) sink.dat_final
        (flip apart.final_key_tmp) (flip apart.final_key)
      ∙ dat_moved-final

  key_moved-key : (key_moved sink key_path key fs) key_path ≡ some key
  key_moved-key =
      rename-at (tmp_path key_path) key_path (dat_moved sink key_path key fs) dat_moved-key_tmp

  pub cleaned-final :
      (fault had_old : Bool)
      → cleaned fault had_old sink key_path key fs sink.dat_final ≡ some payload
  cleaned-final fault true =
      try_remove-ne fault (bak_path key_path) sink.dat_final (key_moved sink key_path key fs)
        (flip apart.final_bak)
      ∙ key_moved-final
  cleaned-final fault false = key_moved-final

  pub cleaned-key :
      (fault had_old : Bool) → cleaned fault had_old sink key_path key fs key_path ≡ some key
  cleaned-key fault true =
      try_remove-ne fault (bak_path key_path) key_path (key_moved sink key_path key fs)
        (flip (key-bak key_path))
      ∙ key_moved-key
  cleaned-key fault false = key_moved-key
