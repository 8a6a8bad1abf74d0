-- ===== src/Keyfile/Search.antt =====
-- The search of a list of entries: in two parts, and among the entries of one hash.
use xrpl_ledger_archive.Node.{Hash256}
use xrpl_ledger_archive.Keyfile.Shard.{visit, FetchError, PlacedEntry, read_record}
use xrpl_ledger_archive.Prelude.{
  none, some, true, false, Bool, ℕ, List, Option, ◌≡◌, ◌++◌, ◌∷◌, if◌then◌else◌, not, Bool-cases,
  ◌==◌, refl, inl, [], inr, ap, ◌∙◌, sym,
}
use xrpl_ledger_archive.Prelude.Parser.{ok, err, Result}
use xrpl_ledger_archive.Keyfile.Lookup.{lookup}

-- What one search found, or else what the next one does.
abbrev pub or_else :
    Result FetchError (Option (List ℕ))
    → Result FetchError (Option (List ℕ))
    → Result FetchError (Option (List ℕ))
or_else (err e) later = err e
or_else (ok none) later = later
or_else (ok (some v)) later = ok (some v)

visit-or_else :
    (b : Bool) (r : Result FetchError (Option (List ℕ)))
    (both first later : Result FetchError (Option (List ℕ)))
    → both ≡ or_else first later
    → (if b
        then both
        else elim r [ err x ↦ err x | ok val ↦ elim val [ none ↦ both | some v ↦ ok (some v) ] ])
      ≡ or_else
          (if b then first else elim r [
            | err x ↦ err x
            | ok val ↦ elim val [ none ↦ first | some v ↦ ok (some v) ]
          ])
          later
visit-or_else true r both first later h = h
visit-or_else false (err x) both first later h = refl
visit-or_else false (ok none) both first later h = h
visit-or_else false (ok (some v)) both first later h = refl

pub lookup-append :
    (dat : List ℕ) (key : Hash256) (nhash : ℕ) (es fs : List PlacedEntry)
    → lookup dat key nhash (es ++ fs) ≡ or_else (lookup dat key nhash es) (lookup dat key nhash fs)
unfolding lookup visit
lookup-append dat key nhash [] fs = refl
lookup-append dat key nhash (e ∷ es) fs =
    visit-or_else (not (e.nhash == nhash)) (read_record dat key e.offset e.size) _ _ _
      (lookup-append dat key nhash es fs)

-- The entries of one hash, in their order.
unfoldable pub same_hash : ℕ → List PlacedEntry → List PlacedEntry
same_hash nhash [] = []
same_hash nhash (e ∷ es) =
    let rest = same_hash nhash es in if e.nhash == nhash then e ∷ rest else rest

pub lookup-same_hash :
    (dat : List ℕ) (key : Hash256) (nhash : ℕ) (es : List PlacedEntry)
    → lookup dat key nhash es ≡ lookup dat key nhash (same_hash nhash es)
unfolding lookup visit same_hash
lookup-same_hash dat key nhash [] = refl
lookup-same_hash dat key nhash (e ∷ es) = elim (Bool-cases (e.nhash == nhash)) [
  | inl same ↦
      let kept : same_hash nhash (e ∷ es) ≡ e ∷ same_hash nhash es = rw same refl in
      ap (visit dat key nhash e.nhash e.offset e.size) (lookup-same_hash dat key nhash es)
      ∙ ap (lookup dat key nhash) (sym kept)
  | inr other ↦ rw other (lookup-same_hash dat key nhash es)
]

same_hash-append :
    (nhash : ℕ) (es fs : List PlacedEntry)
    → same_hash nhash (es ++ fs) ≡ same_hash nhash es ++ same_hash nhash fs
unfolding same_hash
same_hash-append nhash [] fs = refl
same_hash-append nhash (e ∷ es) fs = elim (Bool-cases (e.nhash == nhash)) [
  | inl same ↦ rw (same, same_hash-append nhash es fs) refl
  | inr other ↦ rw other (same_hash-append nhash es fs)
]
