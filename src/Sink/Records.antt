-- ===== src/Sink/Records.antt =====
-- The records that `write_node` of crates/xrla-nudb/src/writer.rs writes, and a search for their keys.
use xrpl_ledger_archive.Dat.Scan.{write_record}
use xrpl_ledger_archive.Keyfile.Lookup.{lookup, length-write_u48}
use xrpl_ledger_archive.Keyfile.Shard.{PlacedEntry, visit, write_u48}
use xrpl_ledger_archive.Prelude.Parser.{ok}
use xrpl_ledger_archive.Node.{Hash256}
use xrpl_ledger_archive.Prelude.{
  Option, List, ℕ, Bool, if◌then◌else◌, ◌++◌, ◌≡◌, none, length, some, false, list_eq, ◌∷◌, true,
  ◌≤◌, All, ◌+◌, refl, [], arith, Bool-cases, length-append, inl, ◌==◌, inr, ==_iff, ap, list_eq→eq,
  ◌∙◌, subst,
}
use xrpl_ledger_archive.Keyfile.Search.{or_else}
use xrpl_ledger_archive.Sink.Stored.{first_of, read_record-last, Within}

unfoldable pub is_there : Option (List ℕ) → Bool
is_there none = false
is_there (some v) = true

pub or_some : Option (List ℕ) → Option (List ℕ) → Option (List ℕ)
or_some none later = later
or_some (some v) later = some v

abbrev pub own : Hash256 → List ℕ → Hash256 → Option (List ℕ)
own hash value key = if list_eq hash key then some value else none

pub first_of-append :
    (rs : List (Hash256 × List ℕ)) (hash value : List ℕ) (key : Hash256)
    → first_of (rs ++ ((hash, value) ∷ [])) key ≡ or_some (first_of rs key) (own hash value key)
unfolding first_of or_some
first_of-append [] hash value key = refl
first_of-append ((h, v) ∷ rs) hash value key = elim (Bool-cases (list_eq h key)) [
  | inl q ↦ rw q
  | inr q ↦ rw q (first_of-append rs hash value key)
]

pub or_else-ok : (a b : Option (List ℕ)) → or_else (ok a) (ok b) ≡ ok (or_some a b)
unfolding or_some
or_else-ok none b = refl
or_else-ok (some v) b = refl

or_some-there : (a b : Option (List ℕ)) → is_there a ≡ true → or_some a b ≡ a
unfolding or_some is_there
or_some-there none b h = cc h
or_some-there (some v) b h = refl

pub or_some-none : (a : Option (List ℕ)) → or_some a none ≡ a
unfolding or_some
or_some-none none = refl
or_some-none (some v) = refl

pub Within-more : (m n : ℕ) (es : List PlacedEntry) → m ≤ n → All (Within m) es → All (Within n) es
Within-more m n [] h w = tt
Within-more m n (e ∷ es) h w = (omega (arith, w.0), Within-more m n es h w.1)

abbrev pub HasKey : Hash256 × List ℕ → Type 0
HasKey r = length (r.0) ≡ 32

pub size_of :
    (hash value : List ℕ)
    → length hash ≡ 32
    → length (write_record (hash, value)) ≡ 38 + length value
unfolding write_record
size_of hash value h = omega (
  arith,
  h,
  length-append (write_u48 (length value)) (hash ++ value),
  length-append hash value,
  length-write_u48 (length value),
)

-- A hash that was seen keeps its first value.
pub first_of-seen :
    (hash value : List ℕ) (rs : List (Hash256 × List ℕ))
    → is_there (first_of rs hash) ≡ true
    → (key : Hash256) → first_of (rs ++ ((hash, value) ∷ [])) key ≡ first_of rs key
first_of-seen hash value rs there key =
    first_of-append rs hash value key ∙ elim (Bool-cases (list_eq hash key)) [
      | inl q ↦
          or_some-there (first_of rs key) (own hash value key)
            (subst (λ k. is_there (first_of rs k) ≡ true) (list_eq→eq hash key q) there)
      | inr q ↦ rw q (or_some-none (first_of rs key))
    ]

pub there-or_some : (a : Option (List ℕ)) (v : List ℕ) → is_there (or_some a (some v)) ≡ true
unfolding or_some is_there
there-or_some none v = refl
there-or_some (some w) v = refl

module _ (nhash_of : Hash256 → ℕ) where
  -- The entry of a new record, alone.
  pub lookup-last :
      (dat hash value : List ℕ) (key : Hash256)
      → length hash ≡ 32
      → lookup
          (dat ++ write_record (hash, value))
          key
          (nhash_of key)
          (record { nhash = nhash_of hash; offset = length dat; size = length value } ∷ [])
        ≡ ok (own hash value key)
  unfolding lookup visit
  lookup-last dat hash value key h = elim (Bool-cases (list_eq hash key)) [
    | inl q ↦
        let same : (nhash_of hash == nhash_of key) ≡ true =
          (==_iff (nhash_of hash) (nhash_of key)).1 (ap nhash_of (list_eq→eq hash key q)) in
        rw (same, read_record-last dat hash value key h, q)
    | inr q ↦ elim (Bool-cases (nhash_of hash == nhash_of key)) [
      | inl same ↦ rw (same, read_record-last dat hash value key h, q)
      | inr other ↦ rw (other, q)
    ]
  ]
