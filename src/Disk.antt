-- ===== src/Disk.antt =====
-- Files by their paths, and the calls of `std::fs` that the writers of
-- crates/xrla-common/src/serialize.rs and crates/xrla-nudb/src/writer.rs make.
use xrpl_ledger_archive.Prelude.{
  List, Option, if◌then◌else◌, ◌++◌, ◌≢◌, ℕ, list_eq, ◌∷◌, ◌≡◌, some, none, [], arith, list_eq→eq,
  list_eq_refl, sym, Option-cases, ◌∙◌, inl, inr,
}

abbrev pub FilePath : Type 0
FilePath = List ℕ

-- The files of a directory tree, by their paths.
abbrev pub Files : Type 0
Files = FilePath → Option (List ℕ)

unfoldable pub write_file : FilePath → List ℕ → Files → Files
write_file p bytes fs q = if list_eq p q then some bytes else fs q

unfoldable pub remove_file : FilePath → Files → Files
remove_file p fs q = if list_eq p q then none else fs q

-- The file at `p`, if there is one, takes the place of whatever is at `q`.
unfoldable pub rename : FilePath → FilePath → Files → Files
unfolding write_file remove_file
rename p q fs = elim (fs p) [ none ↦ fs | some bytes ↦ write_file q bytes (remove_file p fs) ]

-- `<path>.tmp`
unfoldable pub tmp_path : FilePath → FilePath
tmp_path path = path ++ (b'.' ∷ b't' ∷ b'm' ∷ b'p' ∷ [])

pub write_file-ne :
    (p q : FilePath) (bytes : List ℕ) (fs : Files) → p ≢ q → write_file p bytes fs q ≡ fs q
unfolding write_file
write_file-ne p q bytes fs h = ground (arith, list_eq→eq p q)

pub remove_file-ne : (p q : FilePath) (fs : Files) → p ≢ q → remove_file p fs q ≡ fs q
unfolding remove_file
remove_file-ne p q fs h = ground (arith, list_eq→eq p q)

pub write_file-at :
    (p : FilePath) (bytes : List ℕ) (fs : Files) → write_file p bytes fs p ≡ some bytes
unfolding write_file
write_file-at p bytes fs = rw (list_eq_refl p)

-- A file that is there is moved.
module _ (p q : FilePath) (fs : Files) where
  pub rename-at : {bytes : List ℕ} → fs p ≡ some bytes → rename p q fs q ≡ some bytes
  unfolding rename
  rename-at {bytes} e = rw (rename, e) (write_file-at q bytes (remove_file p fs))

  pub rename-gone : {bytes : List ℕ} → p ≢ q → fs p ≡ some bytes → rename p q fs p ≡ none
  unfolding rename remove_file
  rename-gone {bytes} ne e =
      rw (rename, e)
        (write_file-ne q p bytes (remove_file p fs) (λ x. ne (sym x)) ∙ rw (list_eq_refl p))

  pub rename-ne : (r : FilePath) → p ≢ r → q ≢ r → rename p q fs r ≡ fs r
  unfolding rename
  rename-ne r np nq = elim (Option-cases (fs p)) [
    | inl e ↦ rw (rename, e)
    | inr s ↦
        rw (rename, s.1) (write_file-ne q r s.0 (remove_file p fs) nq ∙ remove_file-ne p r fs np)
  ]
