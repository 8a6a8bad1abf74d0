-- ===== src/Sink/Swap.antt =====
-- The states that a crash can leave during the swap of crates/xrla-nudb/src/writer.rs.
use xrpl_ledger_archive.Prelude.Parser.{Result}
use xrpl_ledger_archive.Sink.Moved.{
  Apart, written, aside, dat_moved, key_moved, cleaned, dat_moved-key, cleaned-final, cleaned-key,
}
use xrpl_ledger_archive.Sink.Steps.{set_aside-at, flip, key-key_tmp}
use xrpl_ledger_archive.Prelude.{
  List, ℕ, ◌≡◌, false, inl, inr, refl, some, none, Bool, All, ◌⊎◌, [], ◌++◌, ◌∷◌, true, ap,
}
use xrpl_ledger_archive.Sink.Ended.{call_fails, swap_files-cases}
use xrpl_ledger_archive.Sink.{SinkError, exists_at, NuDbSink, swap_states, SinkFaults, swap_files}
use xrpl_ledger_archive.Disk.{FilePath, Files, tmp_path, write_file-ne}

abbrev pub no_sink_faults : SinkFaults
no_sink_faults = record {
  key_create = false;
  key_write = false;
  partial = [];
  move_aside = false;
  dat_rename = false;
  key_rename = false;
  put_back = false;
  remove_bak = false;
  remove_key_tmp = false;
  remove_dat_tmp = false;
}

no_call_fails : call_fails no_sink_faults ≡ true → ⊥
unfolding call_fails
no_call_fails e = cc e

-- The swap, over files where the data is complete at its temporary path.
module _ (sink : NuDbSink) (key_path : FilePath) (apart : Apart sink key_path)
    (key payload : List ℕ) (fs : Files) (complete : fs sink.dat_tmp ≡ some payload) where
  -- A store that can be opened is the old one or the new one: the key is not there, or the data
  -- and the key are both as before, or both new.
  abbrev pub Paired : Files → Type 0
  Paired now =
      (now key_path ≡ none)
      ⊎ (((now sink.dat_final ≡ fs sink.dat_final) × (now key_path ≡ fs key_path))
          ⊎ ((now sink.dat_final ≡ some payload) × (now key_path ≡ some key)))

  written-Paired : Paired (written key_path key fs)
  written-Paired = inr (
      inl (
        write_file-ne (tmp_path key_path) sink.dat_final key fs (flip apart.final_key_tmp),
        write_file-ne (tmp_path key_path) key_path key fs (flip (key-key_tmp key_path)),
      ))

  abbrev had_old : Bool
  had_old = exists_at key_path (written key_path key fs)

  -- The files of the closure in a run in which no call fails.
  swap_files-no_sink_faults :
      (swap_files no_sink_faults sink key_path key fs).1
      ≡ cleaned false had_old sink key_path key fs
  swap_files-no_sink_faults =
      elim (swap_files-cases sink key_path apart key payload fs complete no_sink_faults
        (swap_files no_sink_faults sink key_path key fs) refl) [
          | inl failed ↦ absurd (no_call_fails failed.0)
          | inr e ↦ ap (λ (x : Result SinkError (Unit {0}) × Files). x.1) e
        ]

  states-Paired : All Paired (swap_states sink key_path key fs)
  unfolding swap_states
  states-Paired = (
    inr (inl (refl, refl)),
    (
      written-Paired,
      (
        inl (set_aside-at key_path (written key_path key fs)),
        (
          inl (dat_moved-key sink key_path apart key payload fs complete),
          (new_pair false, (new_pair had_old, tt)),
        ),
      ),
    ),
  )
    where
      new_pair : (had_old : Bool) → Paired (cleaned false had_old sink key_path key fs)
      new_pair had_old = inr (
          inr (
            cleaned-final sink key_path apart key payload fs complete false had_old,
            cleaned-key sink key_path apart key payload fs complete false had_old,
          ))

  -- Where the data is complete at its temporary path and the five paths differ: in every state that
  -- a crash can leave, before, between or after the calls of a swap in which none fails, the key is
  -- missing, or the data and the key are both as they were, or both are the new ones; and the last of
  -- these states is what the swap in `finish` leaves.
  pub swap_states-Paired :
      All Paired (swap_states sink key_path key fs)
      × ((before : List Files) × (swap_states sink key_path key fs
            ≡ before ++ (swap_files no_sink_faults sink key_path key fs).1 ∷ []))
  unfolding swap_states
  swap_states-Paired = (
    states-Paired,
    (
      fs
          ∷ written key_path key fs
          ∷ aside key_path key fs
          ∷ dat_moved sink key_path key fs
          ∷ key_moved sink key_path key fs
          ∷ [],
      rw swap_files-no_sink_faults refl,
    ),
  )
