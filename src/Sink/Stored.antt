-- ===== src/Sink/Stored.antt =====
-- The placed entries, as a map from hashes to values.
use xrpl_ledger_archive.Dat.Scan.{write_record}
use xrpl_ledger_archive.Prelude.Parser.{ok, Result, err}
use xrpl_ledger_archive.Node.{Hash256}
use xrpl_ledger_archive.Prelude.{
  List, ℕ, ◌+◌, ◌≤◌, Option, length, All, none, take, drop, ◌++◌, ◌≡◌, ◌∙◌, arith, ◌∷◌, suc,
  if◌then◌else◌, ap, ltb, sym, zero, [], list_eq, false, append-nil, refl, some, le→ltb,
  length-append, length-drop, drop-append, take-append, append_assoc, Bool-cases, inl, inr, not,
  ◌==◌,
}
use xrpl_ledger_archive.Keyfile.Shard.{
  PlacedEntry, read_exact_at, read_record, visit, write_u48, FetchError,
}
use xrpl_ledger_archive.Keyfile.Lookup.{lookup, length-write_u48}

-- The value of the first entry of that hash.
unfoldable pub first_of : List (Hash256 × List ℕ) → Hash256 → Option (List ℕ)
first_of [] key = none
first_of ((hash, value) ∷ rs) key = if list_eq hash key then some value else first_of rs key

-- The record of an entry lies within a file of `n` bytes.
abbrev pub Within : ℕ → PlacedEntry → Type 0
Within n entry = entry.offset + 38 + entry.size ≤ n

pub take-within : (n : ℕ) (xs ys : List ℕ) → n ≤ length xs → take n (xs ++ ys) ≡ take n xs
take-within zero xs ys h = refl
take-within (suc n) [] ys h = absurd (omega arith)
take-within (suc n) (x ∷ xs) ys h = ap (λ zs. x ∷ zs) (take-within n xs ys (omega arith))

drop-within : (n : ℕ) (xs ys : List ℕ) → n ≤ length xs → drop n (xs ++ ys) ≡ drop n xs ++ ys
drop-within zero xs ys h = refl
drop-within (suc n) [] ys h = absurd (omega arith)
drop-within (suc n) (x ∷ xs) ys h = drop-within n xs ys (omega arith)

read_exact_at-within :
    (file more : List ℕ) (offset n : ℕ)
    → offset + n ≤ length file
    → read_exact_at (file ++ more) offset n ≡ ok (take n (drop offset file))
unfolding read_exact_at
read_exact_at-within file more offset n h =
    let long : ltb (length (file ++ more)) (offset + n) ≡ false =
      le→ltb (length (file ++ more)) (offset + n) (omega (arith, length-append file more, h)) in
    rw (read_exact_at, long, drop-within offset file more (omega (arith, h)))
      (ap ok (take-within n (drop offset file) more (omega (arith, length-drop offset file, h))))

pub read_exact_at-same :
    (file more : List ℕ) (offset n : ℕ)
    → offset + n ≤ length file
    → read_exact_at (file ++ more) offset n ≡ read_exact_at file offset n
read_exact_at-same file more offset n h =
    read_exact_at-within file more offset n h
    ∙ sym (rw append-nil at (read_exact_at-within file [] offset n h))

-- A record is read the same in a longer file.
read_record-same :
    (dat more : List ℕ) (key : Hash256) (entry : PlacedEntry)
    → Within (length dat) entry
    → read_record (dat ++ more) key entry.offset entry.size
      ≡ read_record dat key entry.offset entry.size
unfolding read_record
read_record-same dat more key entry h =
    let both : Result FetchError (List ℕ)
        → Result FetchError (List ℕ)
        → Result FetchError (Option (List ℕ)) =
      λ a b. elim a [
        | err e ↦ err e
        | ok head ↦
            if list_eq (take 32 (drop 6 head)) key
            then elim b [ ok val ↦ ok (some val) | err e ↦ err e ]
            else ok none
      ] in
    ap (λ a. both a (read_exact_at (dat ++ more) (entry.offset + 38) entry.size))
      (read_exact_at-same dat more entry.offset 38 (omega (arith, h)))
    ∙ ap (both (read_exact_at dat entry.offset 38))
        (read_exact_at-same dat more (entry.offset + 38) entry.size h)

pub lookup-same :
    (dat more : List ℕ) (key : Hash256) (nhash : ℕ) (entries : List PlacedEntry)
    → All (Within (length dat)) entries
    → lookup (dat ++ more) key nhash entries ≡ lookup dat key nhash entries
unfolding lookup visit
lookup-same dat more key nhash [] h = refl
lookup-same dat more key nhash (entry ∷ entries) h =
    let turn : Result FetchError (Option (List ℕ))
        → Result FetchError (Option (List ℕ))
        → Result FetchError (Option (List ℕ)) =
      λ r later.
        if not (entry.nhash == nhash)
        then later
        else elim r [ err e ↦ err e | ok val ↦ elim val [ none ↦ later | some v ↦ ok (some v) ] ] in
    ap (λ r. turn r (lookup (dat ++ more) key nhash entries))
      (read_record-same dat more key entry h.0)
    ∙ ap (turn (read_record dat key entry.offset entry.size))
        (lookup-same dat more key nhash entries h.1)

pub read_exact_at-middle :
    (a b c : List ℕ) (offset n : ℕ)
    → offset ≡ length a
    → n ≡ length b
    → read_exact_at (a ++ (b ++ c)) offset n ≡ ok b
unfolding read_exact_at
read_exact_at-middle a b c offset n p q =
    let long : ltb (length (a ++ (b ++ c))) (offset + n) ≡ false =
      le→ltb (length (a ++ (b ++ c))) (offset + n)
        (omega (arith, length-append a (b ++ c), length-append b c, p, q)) in
    rw (read_exact_at, long, drop-append offset a (b ++ c) (sym p), take-append n b c (sym q))

-- The record that was just appended.
pub read_record-last :
    (dat : List ℕ) (hash value : List ℕ) (key : Hash256)
    → length hash ≡ 32
    → read_record (dat ++ write_record (hash, value)) key (length dat) (length value)
      ≡ ok (if list_eq hash key then some value else none)
unfolding read_record write_record
read_record-last dat hash value key h =
    let size = write_u48 (length value) in
    let ls = length-write_u48 (length value) in
    let front : read_exact_at (dat ++ (size ++ (hash ++ value))) (length dat) 38
        ≡ ok (size ++ hash) =
      ap (λ xs. read_exact_at (dat ++ xs) (length dat) 38) (sym (append_assoc size hash value))
      ∙ read_exact_at-middle dat (size ++ hash) value (length dat) 38 refl
          (omega (arith, length-append size hash, ls, h)) in
    let shape : dat ++ (size ++ (hash ++ value)) ≡ (dat ++ (size ++ hash)) ++ (value ++ []) =
      rw append-nil (
        ap (λ xs. dat ++ xs) (sym (append_assoc size hash value))
        ∙ sym (append_assoc dat (size ++ hash) value)) in
    let back : read_exact_at (dat ++ (size ++ (hash ++ value))) (length dat + 38) (length value)
        ≡ ok value =
      ap (λ xs. read_exact_at xs (length dat + 38) (length value)) shape
      ∙ read_exact_at-middle (dat ++ (size ++ hash)) value [] (length dat + 38) (length value)
          (omega (arith, length-append dat (size ++ hash), length-append size hash, ls, h)) refl in
    let own : take 32 (drop 6 (size ++ hash)) ≡ hash =
      ap (take 32) (drop-append 6 size hash ls) ∙ rw append-nil at (take-append 32 hash [] h) in
    rw (read_record, front, back, own)
      (elim (Bool-cases (list_eq hash key)) [ inl q ↦ rw q | inr q ↦ rw q ])
