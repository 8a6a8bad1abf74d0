-- ===== src/Sink/Ended.antt =====
-- What the swap of crates/xrla-nudb/src/writer.rs leaves when it has succeeded, and when its last call
-- has failed.
use xrpl_ledger_archive.Sink.Moved.{
  Apart, written, aside, dat_moved, cleaned, dat_moved-key, cleaned-final, cleaned-key,
  dat_moved-final,
}
use xrpl_ledger_archive.Sink.Steps.{flip, set_aside-bak, try_remove-ne, exists_at-some, key-key_tmp}
use xrpl_ledger_archive.Prelude.Parser.{ok, err, Result}
use xrpl_ledger_archive.Prelude.{
  ◌≢◌, List, ℕ, ◌≡◌, sym, false, ◌∙◌, refl, some, true, Bool, subst, if-cases, ◌&&◌, ◌||◌, ◌⊎◌, inl,
  or_left, inr, or_right, and_parts,
}
use xrpl_ledger_archive.Sink.{
  exists_at, restore, settle, swap_files, sink_error, NuDbSink, SinkFaults, finish_swap, bak_path,
  swap_files, settle, exists_at, SinkError,
}
use xrpl_ledger_archive.Disk.{FilePath, Files, tmp_path, rename-ne, rename-at, write_file-ne}

-- Whether a call before the last clean-up fails.
unfoldable pub call_fails : SinkFaults → Bool
call_fails faults =
    faults.key_create
    || (faults.key_write || (faults.move_aside || (faults.dat_rename || faults.key_rename)))

-- The swap, over files where the data is complete at its temporary path.
module _ (sink : NuDbSink) (key_path : FilePath) (apart : Apart sink key_path)
    (key payload : List ℕ) (fs : Files) (complete : fs sink.dat_tmp ≡ some payload) where
  abbrev had_old : Bool
  had_old = exists_at key_path (written key_path key fs)

  swap_files-key_rename :
      (faults : SinkFaults)
      → had_old ≡ true
      → faults.key_create ≡ false
      → faults.key_write ≡ false
      → faults.move_aside ≡ false
      → faults.dat_rename ≡ false
      → faults.key_rename ≡ true
      → faults.put_back ≡ false
      → swap_files faults sink key_path key fs
        ≡ (err sink_error, restore false true key_path (dat_moved sink key_path key fs))
  unfolding swap_files
  swap_files-key_rename faults h f1 f2 f3 f4 f5 f6 = rw (swap_files, f1, f2, h, f3, f4, f5, f6)

  key_written :
      {old : List ℕ} → fs key_path ≡ some old → written key_path key fs key_path ≡ some old
  key_written e =
      write_file-ne (tmp_path key_path) key_path key fs (flip (key-key_tmp key_path)) ∙ e

  restored-key :
      {old : List ℕ}
      → fs key_path ≡ some old
      → restore false true key_path (dat_moved sink key_path key fs) key_path ≡ some old
  unfolding restore exists_at
  restored-key e =
      rw (restore, exists_at, dat_moved-key sink key_path apart key payload fs complete)
        (rename-at (bak_path key_path) key_path (dat_moved sink key_path key fs) (
          rename-ne sink.dat_tmp sink.dat_final (aside key_path key fs) (bak_path key_path)
            apart.tmp_bak apart.final_bak
          ∙ set_aside-bak key_path (written key_path key fs) (key_written e)))

  restored-final :
      restore false true key_path (dat_moved sink key_path key fs) sink.dat_final ≡ some payload
  unfolding restore exists_at
  restored-final =
      rw (restore, exists_at, dat_moved-key sink key_path apart key payload fs complete)
        (rename-ne (bak_path key_path) key_path (dat_moved sink key_path key fs) sink.dat_final
            (flip apart.final_bak) (flip apart.final_key)
          ∙ dat_moved-final sink key_path apart key payload fs complete)

  -- Removing the temporary files does not touch the final ones.
  settle-at :
      (faults : SinkFaults) (now : Files) (r : FilePath)
      → sink.dat_tmp ≢ r
      → tmp_path key_path ≢ r
      → (settle faults sink key_path (err sink_error, now)).1 r ≡ now r
  unfolding settle
  settle-at faults now r h k =
      try_remove-ne faults.remove_dat_tmp sink.dat_tmp r _ h
      ∙ try_remove-ne faults.remove_key_tmp (tmp_path key_path) r now k

  -- The two ends of the closure: an error, which needs a call that fails, or all calls done.
  pub swap_files-cases :
      (faults : SinkFaults) (r : Result SinkError (Unit {0}) × Files)
      → swap_files faults sink key_path key fs ≡ r
      → ((call_fails faults ≡ true) × ((settle faults sink key_path r).0 ≡ err sink_error))
        ⊎ (r ≡ (ok tt, cleaned faults.remove_bak had_old sink key_path key fs))
  unfolding swap_files settle call_fails
  swap_files-cases faults r h =
      if-cases faults.key_create h (λ f e. inl (or_left _ _ f, failed e))
        λ f1 h1.
          if-cases faults.key_write h1
            (λ f e. inl (or_right faults.key_create _ (or_left _ _ f), failed e))
            λ f2 h2.
              if-cases (had_old && faults.move_aside) h2
                (λ f e. inl (
                  or_right faults.key_create _ (
                      or_right faults.key_write _
                        (or_left _ _ (and_parts had_old faults.move_aside f).1)),
                  failed e,
                ))
                λ _ h3.
                  if-cases faults.dat_rename h3
                    (λ f e. inl (
                      or_right faults.key_create _ (
                          or_right faults.key_write _
                            (or_right faults.move_aside _ (or_left _ _ f))),
                      failed e,
                    ))
                    λ _ h4.
                      if-cases faults.key_rename h4
                        (λ f e. inl (
                          or_right faults.key_create _ (
                              or_right faults.key_write _
                                (or_right faults.move_aside _ (or_right faults.dat_rename _ f))),
                          failed e,
                        ))
                        λ _ h5. inr (sym h5)
    where
      failed :
          {now : Files}
          → (err sink_error, now) ≡ r
          → (settle faults sink key_path r).0 ≡ err sink_error
      failed e =
          subst
            (λ (x : Result SinkError (Unit {0}) × Files).
              (settle faults sink key_path x).0 ≡ err sink_error)
            e refl

  -- Where the data is complete at its temporary path and the five paths differ: if the last rename
  -- fails over an old key, and the calls before it and the one that puts the old key back do not,
  -- then the new data is left with the old key.
  pub finish_swap-key_rename :
      (faults : SinkFaults) (old : List ℕ)
      → fs key_path ≡ some old
      → faults.key_create ≡ false
      → faults.key_write ≡ false
      → faults.move_aside ≡ false
      → faults.dat_rename ≡ false
      → faults.key_rename ≡ true
      → faults.put_back ≡ false
      → ((finish_swap faults sink key_path key fs).0 ≡ err sink_error)
        × ((finish_swap faults sink key_path key fs).1 sink.dat_final ≡ some payload)
        × ((finish_swap faults sink key_path key fs).1 key_path ≡ some old)
  unfolding finish_swap
  finish_swap-key_rename faults old e f1 f2 f3 f4 f5 f6 =
      let there : had_old ≡ true =
        exists_at-some key_path (written key_path key fs) (key_written e) in
      let r = swap_files-key_rename faults there f1 f2 f3 f4 f5 f6 in
      rw (finish_swap, r)
        (
          unfold settle in refl,
          settle-at faults (restore false true key_path (dat_moved sink key_path key fs))
                sink.dat_final apart.tmp_final (flip apart.final_key_tmp)
              ∙ restored-final,
          settle-at faults (restore false true key_path (dat_moved sink key_path key fs)) key_path
                apart.tmp_key (flip (key-key_tmp key_path))
              ∙ restored-key e,
        )

  -- Where the data is complete at its temporary path and the five paths differ: the swap fails, which
  -- needs a call that fails, or the new data and the new key are at their names.
  pub finish_swap-cases :
      (faults : SinkFaults)
      → let r = finish_swap faults sink key_path key fs in
        ((call_fails faults ≡ true) × (r.0 ≡ err sink_error))
        ⊎ ((r.0 ≡ ok tt) × (r.1 sink.dat_final ≡ some payload) × (r.1 key_path ≡ some key))
  unfolding finish_swap
  finish_swap-cases faults =
      elim (swap_files-cases faults (swap_files faults sink key_path key fs) refl) [
        | inl failed ↦ inl failed
        | inr e ↦
            rw (finish_swap, e)
              (unfold settle in
                inr (
                  refl,
                  cleaned-final sink key_path apart key payload fs complete faults.remove_bak
                      had_old,
                  cleaned-key sink key_path apart key payload fs complete faults.remove_bak had_old,
                ))
      ]
