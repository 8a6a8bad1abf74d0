-- ===== src/Sink/Steps.antt =====
-- The paths of a sink, and what each step of the swap leaves at a path.
use xrpl_ledger_archive.Sink.{bak_path, exists_at, set_aside, try_remove}
use xrpl_ledger_archive.Disk.{
  tmp_path, FilePath, Files, remove_file-ne, rename-at, rename-ne, rename-gone,
}
use xrpl_ledger_archive.Prelude.{
  List, ℕ, Bool, list_eq, ◌≢◌, ◌≡◌, ◌++◌, sym, false, ◌∷◌, none, some, Bool-cases, drop-append,
  arith, ◌⊎◌, true, refl, inl, length, ap, Option-cases, inr, ◌∙◌, length-append, drop, subst,
  list_eq_refl,
}

suffix-ne : (p xs ys : List ℕ) → list_eq xs ys ≡ false → p ++ xs ≢ p ++ ys
suffix-ne p xs ys h e =
    let same : xs ≡ ys =
      sym (drop-append (length p) p xs refl)
      ∙ ap (drop (length p)) e
      ∙ drop-append (length p) p ys refl in
    let equal : list_eq xs ys ≡ true = subst (λ zs. list_eq xs zs ≡ true) same (list_eq_refl xs) in
    cc (h, equal)

own-ne : (p : List ℕ) (x : ℕ) (xs : List ℕ) → p ≢ p ++ (x ∷ xs)
own-ne p x xs e = omega (arith, ap length e, length-append p (x ∷ xs))

pub flip : {p q : List ℕ} → p ≢ q → q ≢ p
flip h e = h (sym e)

pub key-key_tmp : (p : FilePath) → p ≢ tmp_path p
unfolding tmp_path
key-key_tmp p = own-ne p _ _

pub key-bak : (p : FilePath) → p ≢ bak_path p
unfolding bak_path
key-bak p = own-ne p _ _

pub key_tmp-bak : (p : FilePath) → tmp_path p ≢ bak_path p
unfolding tmp_path bak_path
key_tmp-bak p = suffix-ne p _ _ refl

exists_at-cases :
    (p : FilePath) (fs : Files)
    → ((fs p ≡ none) × (exists_at p fs ≡ false))
      ⊎ ((b : List ℕ) × (fs p ≡ some b) × (exists_at p fs ≡ true))
unfolding exists_at
exists_at-cases p fs = elim (Option-cases (fs p)) [
  | inl e ↦ inl (e, rw (exists_at, e))
  | inr s ↦ inr (s.0, s.1, rw (exists_at, s.1))
]

pub exists_at-some :
    (p : FilePath) (fs : Files) {b : List ℕ} → fs p ≡ some b → exists_at p fs ≡ true
unfolding exists_at
exists_at-some p fs e = rw (exists_at, e)

pub set_aside-ne : (p r : FilePath) (fs : Files) → p ≢ r → bak_path p ≢ r → set_aside p fs r ≡ fs r
unfolding set_aside
set_aside-ne p r fs h k = elim (Bool-cases (exists_at p fs)) [
  | inl e ↦ rw (set_aside, e) (rename-ne p (bak_path p) fs r h k)
  | inr e ↦ rw (set_aside, e)
]

pub set_aside-at : (p : FilePath) (fs : Files) → set_aside p fs p ≡ none
unfolding set_aside
set_aside-at p fs = elim (exists_at-cases p fs) [
  | inl e ↦ rw (set_aside, e.1) e.0
  | inr s ↦ rw (set_aside, s.2) (rename-gone p (bak_path p) fs (key-bak p) s.1)
]

pub set_aside-bak :
    (p : FilePath) (fs : Files) {b : List ℕ} → fs p ≡ some b → set_aside p fs (bak_path p) ≡ some b
unfolding set_aside exists_at
set_aside-bak p fs e = rw (set_aside, exists_at, e) (rename-at p (bak_path p) fs e)

pub try_remove-ne :
    (fault : Bool) (p r : FilePath) (fs : Files) → p ≢ r → try_remove fault p fs r ≡ fs r
unfolding try_remove
try_remove-ne true p r fs h = refl
try_remove-ne false p r fs h = remove_file-ne p r fs h
