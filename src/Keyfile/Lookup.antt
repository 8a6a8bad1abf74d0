-- ===== src/Keyfile/Lookup.antt =====
-- `Shard::fetch` on a bucket that was written, against a search in its entries.
use xrpl_ledger_archive.Prelude.Bytes.{length-be_bytes, from_be, be_bytes, from_be-be_bytes}
use xrpl_ledger_archive.Node.{Hash256}
use xrpl_ledger_archive.Prelude.Parser.{write_all, Result, ok}
use xrpl_ledger_archive.Prelude.{
  ◌<◌, List, ◌^◌, ℕ, ◌++◌, length, ltb, ◌≡◌, All, ap, false, append_assoc, ◌∷◌, Option, drop, ◌∙◌,
  take-append, drop-append, ◌%◌, [], none, sym, take, refl, arith, length-append, le→ltb, suc, ◌*◌,
  ◌+◌,
}
use xrpl_ledger_archive.Keyfile.Shard.{
  visit, PlacedEntry, scan_entries, write_bucket_into, probe_block, read_u48, write_u48,
  write_entry, FetchError, probe_of,
}

-- The fields are 48 bits wide.
pub record IsEntry (entry : PlacedEntry) : Type 0 where
  pub nhash : entry.nhash < 2 ^ 48
  pub offset : entry.offset < 2 ^ 48
  pub size : entry.size < 2 ^ 48

-- The first entry of that hash whose record has the key.
unfoldable pub lookup :
    List ℕ → Hash256 → ℕ → List PlacedEntry → Result FetchError (Option (List ℕ))
lookup dat key nhash [] = ok none
lookup dat key nhash (entry ∷ entries) =
    visit dat key nhash entry.nhash entry.offset entry.size (lookup dat key nhash entries)

read_u48-write_u48 : (v : ℕ) (rest : List ℕ) → v < 2 ^ 48 → read_u48 (write_u48 v ++ rest) ≡ v
unfolding read_u48 write_u48
read_u48-write_u48 v rest h =
    ap from_be (take-append 6 (be_bytes 6 v) rest (length-be_bytes 6 v))
    ∙ from_be-be_bytes 6 v (omega (arith, h))

pub length-write_u48 : (v : ℕ) → length (write_u48 v) ≡ 6
unfolding write_u48
length-write_u48 v = length-be_bytes 6 v

-- The fields of an entry at the front of a block.
record FrontFields (entry : PlacedEntry) (rest : List ℕ) : Type 0 where
  long : ltb (length (write_entry entry ++ rest)) 18 ≡ false
  next : drop 18 (write_entry entry ++ rest) ≡ rest
  offset : read_u48 (write_entry entry ++ rest) ≡ entry.offset
  size : read_u48 (drop 6 (write_entry entry ++ rest)) ≡ entry.size
  nhash : read_u48 (drop 12 (write_entry entry ++ rest)) ≡ entry.nhash

FrontFields-write_entry :
    (entry : PlacedEntry) (rest : List ℕ) → IsEntry entry → FrontFields entry rest
unfolding write_entry
FrontFields-write_entry entry rest h =
    let a = write_u48 entry.offset in
    let b = write_u48 entry.size in
    let c = write_u48 entry.nhash in
    let la = length-write_u48 entry.offset in
    let lb = length-write_u48 entry.size in
    let lc = length-write_u48 entry.nhash in
    let whole : write_entry entry ++ rest ≡ a ++ (b ++ (c ++ rest)) =
      append_assoc a (b ++ c) rest ∙ ap (λ xs. a ++ xs) (append_assoc b c rest) in
    let d6 : drop 6 (write_entry entry ++ rest) ≡ b ++ (c ++ rest) =
      ap (drop 6) whole ∙ drop-append 6 a (b ++ (c ++ rest)) la in
    let d12 : drop 12 (write_entry entry ++ rest) ≡ c ++ rest =
      ap (drop 12) (whole ∙ sym (append_assoc a b (c ++ rest)))
      ∙ drop-append 12 (a ++ b) (c ++ rest) (omega (arith, length-append a b, la, lb)) in
    let size : length (write_entry entry) ≡ 18 =
      omega (arith, length-append a (b ++ c), length-append b c, la, lb, lc) in
    record {
      long =
          le→ltb (length (write_entry entry ++ rest)) 18
            (omega (arith, length-append (write_entry entry) rest, size));
      next = drop-append 18 (write_entry entry) rest size;
      offset = ap read_u48 whole ∙ read_u48-write_u48 entry.offset (b ++ (c ++ rest)) h.offset;
      size = ap read_u48 d6 ∙ read_u48-write_u48 entry.size (c ++ rest) h.size;
      nhash = ap read_u48 d12 ∙ read_u48-write_u48 entry.nhash rest h.nhash;
    }

scan_step :
    (dat : List ℕ) (key : Hash256) (nhash count : ℕ) (rest : List ℕ)
    → ltb (length rest) 18 ≡ false
    → scan_entries dat key nhash (suc count) rest
      ≡ visit dat key nhash
          (read_u48 (drop 12 rest))
          (read_u48 rest)
          (read_u48 (drop 6 rest))
          (scan_entries dat key nhash count (drop 18 rest))
unfolding scan_entries
scan_step dat key nhash count rest h = rw (scan_entries, h)

scan_entries-write_all :
    (dat : List ℕ) (key : Hash256) (nhash : ℕ) (entries : List PlacedEntry) (rest : List ℕ)
    → All IsEntry entries
    → scan_entries dat key nhash (length entries) (write_all write_entry entries ++ rest)
      ≡ lookup dat key nhash entries
unfolding scan_entries lookup write_all
scan_entries-write_all dat key nhash [] rest h = refl
scan_entries-write_all dat key nhash (entry ∷ entries) rest h =
    let behind = write_all write_entry entries ++ rest in
    let e = FrontFields-write_entry entry behind h.0 in
    let later = scan_entries-write_all dat key nhash entries rest h.1 in
    ap (scan_entries dat key nhash (suc (length entries)))
      (append_assoc (write_entry entry) (write_all write_entry entries) rest)
    ∙ scan_step dat key nhash (length entries) (write_entry entry ++ behind) e.long
    ∙ cc (e.next, e.offset, e.size, e.nhash, later)

-- The fields of a bucket, with whatever follows it.
pub record BucketFields (entries : List PlacedEntry) (spill : ℕ) (padding : List ℕ) : Type 0 where
  pub counted : from_be (take 2 (write_bucket_into entries spill ++ padding)) ≡ length entries
  pub spills : read_u48 (drop 2 (write_bucket_into entries spill ++ padding)) ≡ spill
  pub front :
      drop 8 (write_bucket_into entries spill ++ padding) ≡ write_all write_entry entries ++ padding

pub BucketFields-write_bucket_into :
    (entries : List PlacedEntry) (spill : ℕ) (padding : List ℕ)
    → length entries < 2 ^ 16
    → spill < 2 ^ 48
    → BucketFields entries spill padding
unfolding write_bucket_into
BucketFields-write_bucket_into entries spill padding few low =
    let n = length entries in
    let count = be_bytes 2 (n % 2 ^ 16) in
    let s = write_u48 spill in
    let es = write_all write_entry entries in
    let lc = length-be_bytes 2 (n % 2 ^ 16) in
    let whole : write_bucket_into entries spill ++ padding ≡ count ++ (s ++ (es ++ padding)) =
      append_assoc count (s ++ es) padding ∙ ap (λ xs. count ++ xs) (append_assoc s es padding) in
    record {
      counted =
          ap (λ xs. from_be (take 2 xs)) whole
          ∙ ap from_be (take-append 2 count (s ++ (es ++ padding)) lc)
          ∙ from_be-be_bytes 2 (n % 2 ^ 16) (omega arith)
          ∙ omega (arith, few);
      spills =
          ap (λ xs. read_u48 (drop 2 xs)) whole
          ∙ ap read_u48 (drop-append 2 count (s ++ (es ++ padding)) lc)
          ∙ read_u48-write_u48 spill (es ++ padding) low;
      front =
          ap (drop 8) (whole ∙ sym (append_assoc count s (es ++ padding)))
          ∙ drop-append 8 (count ++ s) (es ++ padding)
              (omega (arith, length-append count s, lc, length-write_u48 spill));
    }

length-write_entries :
    (entries : List PlacedEntry) → length (write_all write_entry entries) ≡ length entries * 18
unfolding write_all write_entry
length-write_entries [] = refl
length-write_entries (e ∷ es) =
    let a = write_u48 e.offset in
    let b = write_u48 e.size in
    let c = write_u48 e.nhash in
    omega (
      arith,
      length-append (a ++ (b ++ c)) (write_all write_entry es),
      length-append a (b ++ c),
      length-append b c,
      length-write_u48 e.offset,
      length-write_u48 e.size,
      length-write_u48 e.nhash,
      length-write_entries es,
    )

pub length-write_bucket_into :
    (entries : List PlacedEntry) (spill : ℕ)
    → length (write_bucket_into entries spill) ≡ 8 + length entries * 18
unfolding write_bucket_into
length-write_bucket_into entries spill =
    let count = be_bytes 2 (length entries % 2 ^ 16) in
    omega (
      arith,
      length-append count (write_u48 spill ++ write_all write_entry entries),
      length-append (write_u48 spill) (write_all write_entry entries),
      length-be_bytes 2 (length entries % 2 ^ 16),
      length-write_u48 spill,
      length-write_entries entries,
    )

-- A bucket of entries of 48 bits, fewer than 2 ^ 16, behind whatever fills its block, is searched
-- as its entries are: the value of the first one of that hash whose record has the key, or else the
-- spill that was written, where there is one.
pub probe_block-write_bucket_into :
    (dat : List ℕ) (key : Hash256) (nhash : ℕ) (entries : List PlacedEntry) (spill : ℕ)
    (padding : List ℕ)
    → All IsEntry entries
    → length entries < 2 ^ 16
    → spill < 2 ^ 48
    → probe_block dat key nhash (write_bucket_into entries spill ++ padding)
      ≡ probe_of spill (lookup dat key nhash entries)
unfolding probe_block
probe_block-write_bucket_into dat key nhash entries spill padding h few low =
    let e = BucketFields-write_bucket_into entries spill padding few low in
    rw (probe_block, e.counted, e.spills, e.front)
      (ap (probe_of spill) (scan_entries-write_all dat key nhash entries padding h))
