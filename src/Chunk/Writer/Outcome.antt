-- ===== src/Chunk/Writer/Outcome.antt =====
-- What `finish` of the writer returns and leaves, with the place of the hash in the file.
use xrpl_ledger_archive.Prelude.{
  List, Bool, ℕ, ◌||◌, take, length, ◌++◌, ◌≡◌, drop, ◌+◌, true, false, ◌≤◌, ◌⊎◌, ◌≢◌, arith, sym,
  none, length-take, ap, some, drop-append, or_right, inl, take-append, if-cases, inr, ◌∙◌, or_left,
  length-append, append_assoc, refl,
}
use xrpl_ledger_archive.Disk.{Files}
use xrpl_ledger_archive.Prelude.Parser.{Result, err, ok}
use xrpl_ledger_archive.Node.{Hash256}
use xrpl_ledger_archive.Chunk.Write.{sha512half}
use xrpl_ledger_archive.Chunk.RoundTrip.Whole.{sha512half-IsHash}
use xrpl_ledger_archive.Chunk.Types.{magic_footer}
use xrpl_ledger_archive.Chunk.Writer.{
  finish, overwrite, ChunkWriter, Faults, body, IoError, io_error,
}
use xrpl_ledger_archive.Chunk.Writer.Atomic.{finish-IsAtomic, complete}

-- `file` is `before` with the hash in the 32 bytes at `offset`.
pub record IsPatched (before : List ℕ) (offset : ℕ) (hash : Hash256) (file : List ℕ) : Type 0 where
  pub front : take offset file ≡ take offset before
  pub patch : take 32 (drop offset file) ≡ hash
  pub behind : drop (offset + 32) file ≡ drop (offset + 32) before

overwrite-IsPatched :
    (before : List ℕ) (offset : ℕ) (hash : Hash256)
    → length hash ≡ 32
    → offset + 32 ≤ length before
    → IsPatched before offset hash (overwrite offset hash before)
unfolding overwrite
overwrite-IsPatched before offset hash size room =
    let front = take offset before in
    let behind = drop (offset + length hash) before in
    let at : length front ≡ offset = omega (arith, length-take offset before, room) in
    let tail : drop offset (front ++ (hash ++ behind)) ≡ hash ++ behind =
      drop-append offset front (hash ++ behind) at in
    record {
      front = take-append offset front (hash ++ behind) at;
      patch = ap (take 32) tail ∙ take-append 32 hash behind size;
      behind =
          ap (drop (offset + 32)) (sym (append_assoc front hash behind))
          ∙ drop-append (offset + 32) (front ++ hash) behind
              (omega (arith, length-append front hash, at, size))
          ∙ ap (λ n. drop (offset + n) before) size;
    }

-- Whether a call that `finish` needs fails.
unfoldable pub finish_fails : Faults → Bool
finish_fails faults =
    faults.footer
    || (faults.flush || ((faults.seek || faults.patch) || (faults.flush_again || faults.rename)))

module _ (sha512 : List ℕ → List ℕ) (faults : Faults) (w : ChunkWriter) (fs : Files) where
  abbrev hash : Hash256
  hash = sha512half sha512 (w.hashed ++ magic_footer)

  -- An error, which needs a call that fails, or the hash.
  finish_returns :
      (r : Result IoError Hash256 × Files)
      → finish sha512 faults w fs ≡ r
      → ((finish_fails faults ≡ true) × (r.0 ≡ err io_error)) ⊎ (r.0 ≡ ok hash)
  unfolding finish finish_fails body
  finish_returns r h =
      if-cases faults.footer h (λ f e. inl (or_left _ _ f, failed e))
        λ _ h1.
          if-cases faults.flush h1 (λ f e. inl (or_right faults.footer _ (or_left _ _ f), failed e))
            λ _ h2.
              if-cases (faults.seek || faults.patch) h2
                (λ f e.
                  inl
                    (or_right faults.footer _ (or_right faults.flush _ (or_left _ _ f)), failed e))
                λ _ h3.
                  if-cases faults.flush_again h3 (λ f e. inl (last (or_left _ _ f), failed e))
                    λ _ h4.
                      if-cases faults.rename h4
                        (λ f e. inl (last (or_right faults.flush_again _ f), failed e))
                        λ _ h5. inr (sym (ap (λ (x : Result IoError Hash256 × Files). x.0) h5))
    where
      failed : {now : Files} → (err io_error, now) ≡ r → r.0 ≡ err io_error
      failed e = sym (ap (λ (x : Result IoError Hash256 × Files). x.0) e)

      last : (faults.flush_again || faults.rename) ≡ true → finish_fails faults ≡ true
      last f =
          or_right faults.footer _
            (or_right faults.flush _ (or_right (faults.seek || faults.patch) _ f))

  -- On a writer that is not finished, whose temporary path is not its final one, and whose file has a
  -- place for the hash, with a hash function of 64 bytes: `finish` returns an error, and then one of the
  -- calls that it needs failed; or it returns the hash of all that was written behind the header and of
  -- the footer, and then nothing is at the temporary path, and at the final one what was written, with
  -- the footer behind it and that hash in its place, and with no other byte changed.
  pub finish_outcome :
      ((bytes : List ℕ) → length (sha512 bytes) ≡ 64)
      → w.finished ≡ false
      → w.tmp ≢ w.final
      → w.chunk_hash_offset + 32 ≤ length w.inner
      → let r = finish sha512 faults w fs in
        ((finish_fails faults ≡ true) × (r.0 ≡ err io_error))
        ⊎ ((r.0 ≡ ok hash)
            × (r.1 w.tmp ≡ none)
            × ((file : List ℕ) × (r.1 w.final ≡ some file)
                × IsPatched (w.inner ++ magic_footer) w.chunk_hash_offset hash file))
  unfolding body
  finish_outcome size fresh ne room = elim (finish_returns (finish sha512 faults w fs) refl) [
    | inl failed ↦ inl failed
    | inr returned ↦
        let done = (finish-IsAtomic sha512 faults w fs fresh ne).finished hash returned in
        inr (
          returned,
          done.2,
          (
            complete sha512 w,
            done.1,
            overwrite-IsPatched (w.inner ++ magic_footer) w.chunk_hash_offset hash
                (sha512half-IsHash sha512 size (w.hashed ++ magic_footer))
                (omega (arith, room, length-append w.inner magic_footer)),
          ),
        )
  ]
