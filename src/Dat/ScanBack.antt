-- ===== src/Dat/ScanBack.antt =====
-- `scan_dat` on a data file that was written.
use xrpl_ledger_archive.Prelude.Bytes.{be_bytes, length-be_bytes, from_be, from_be-be_bytes}
use xrpl_ledger_archive.Dat.{decode_value_to_wire}
use xrpl_ledger_archive.Prelude.Parser.{write_all, ok}
use xrpl_ledger_archive.Keyfile.Shard.{write_u48}
use xrpl_ledger_archive.Prelude.{
  Option-cases, Bool-cases, inl, inr, none, some, if◌then◌else◌, List, ℕ, length, Option, ◌≡◌, ◌<◌,
  ◌∷◌, suc, ◌≤◌, ◌++◌, All, arith, [], ◌∙◌, append_assoc, zero, ap, refl, take, take-append,
  drop-append, ltb, false, le→ltb, length-append, ◌==◌, ◌+◌, list_eq, true, drop,
}
use mathlib.Core.Path.{fun_ext}
use xrpl_ledger_archive.Node.{Hash256}
use xrpl_ledger_archive.Dat.Scan.{
  scan_dat, scan_records, write_record, write_dat_header, insert_decoded, insert, no_wires, Wires,
  nudb_magic,
}

-- A key of 32 bytes, and a value of a size that the scan does not stop at.
pub record IsRecord (r : Hash256 × List ℕ) : Type 0 where
  pub key_size : length (r.0) ≡ 32
  pub value_some : 0 < length (r.1)
  pub value_small : length (r.1) ≤ 65536

module _ (decompress : List ℕ → ℕ → Option (List ℕ)) where
  -- The wire bytes of the last record under a key whose value can be decoded.
  unfoldable pub latest : List (Hash256 × List ℕ) → Hash256 → Option (List ℕ)
  latest [] key = none
  latest ((hash, value) ∷ rs) key = elim (latest rs key) [
    | some wire ↦ some wire
    | none ↦ if list_eq hash key then decode_value_to_wire decompress value else none
  ]

  abbrev later : Option (List ℕ) → Option (List ℕ) → Option (List ℕ)
  later (some wire) earlier = some wire
  later none earlier = earlier

  later-none : (a : Option (List ℕ)) → later a none ≡ a
  later-none (some wire) = refl
  later-none none = refl

  -- A record that is inserted stands behind the later ones and in front of the earlier ones.
  later-insert_decoded :
      (key value : List ℕ) (rs : List (Hash256 × List ℕ)) (wires : Wires) (hash : Hash256)
      → later
          (latest rs hash)
          (insert_decoded key (decode_value_to_wire decompress value) wires hash)
        ≡ later (latest ((key, value) ∷ rs) hash) (wires hash)
  unfolding latest insert_decoded insert
  later-insert_decoded key value rs wires hash = elim (Option-cases (latest rs hash)) [
    | inr (wire, e) ↦ rw (latest, e) refl
    | inl e ↦ elim (Option-cases (decode_value_to_wire decompress value)) [
      | inl d ↦ elim (Bool-cases (list_eq key hash)) [
        | inl q ↦ rw (latest, e, insert_decoded, d, q) refl
        | inr q ↦ rw (latest, e, insert_decoded, d, q) refl
      ]
      | inr (wire, d) ↦ elim (Bool-cases (list_eq key hash)) [
        | inl q ↦ rw (latest, e, insert_decoded, d, insert, q) refl
        | inr q ↦ rw (latest, e, insert_decoded, d, insert, q) refl
      ]
    ]
  ]

  scan_step :
      (fuel : ℕ) (key value behind : List ℕ) (wires : Wires)
      → IsRecord (key, value)
      → scan_records decompress (suc fuel) (write_record (key, value) ++ behind) wires
        ≡ scan_records decompress fuel behind
            (insert_decoded key (decode_value_to_wire decompress value) wires)
  unfolding scan_records write_record write_u48
  scan_step fuel key value behind wires h =
      let size = be_bytes 6 (length value) in
      let ls = length-be_bytes 6 (length value) in
      let whole : write_record (key, value) ++ behind ≡ size ++ (key ++ (value ++ behind)) =
        append_assoc size (key ++ value) behind
        ∙ ap (λ xs. size ++ xs) (append_assoc key value behind) in
      let v : from_be (take 6 (size ++ (key ++ (value ++ behind)))) ≡ length value =
        ap from_be (take-append 6 size (key ++ (value ++ behind)) ls)
        ∙ from_be-be_bytes 6 (length value) (omega (arith, h.value_small)) in
      let k = drop-append 6 size (key ++ (value ++ behind)) ls in
      let t32 = take-append 32 key (value ++ behind) h.key_size in
      let d32 = drop-append 32 key (value ++ behind) h.key_size in
      let tv = take-append (length value) value behind refl in
      let dv = drop-append (length value) value behind refl in
      let c1 : ltb (length (size ++ (key ++ (value ++ behind)))) 6 ≡ false =
        le→ltb (length (size ++ (key ++ (value ++ behind)))) 6
          (omega (arith, length-append size (key ++ (value ++ behind)), ls)) in
      let c2 : (length value == 0) ≡ false = ground (arith, h.value_some) in
      let c3 : ltb 65536 (length value) ≡ false = le→ltb 65536 (length value) h.value_small in
      let c4 : ltb (length (key ++ (value ++ behind))) 32 ≡ false =
        le→ltb (length (key ++ (value ++ behind))) 32
          (omega (arith, length-append key (value ++ behind), h.key_size)) in
      let c5 : ltb (length (value ++ behind)) (length value) ≡ false =
        le→ltb (length (value ++ behind)) (length value)
          (omega (arith, length-append value behind)) in
      ap (λ bytes. scan_records decompress (suc fuel) bytes wires) whole
      ∙ rw (scan_records, v, k, t32, d32, tv, dv, c1, c2, c3, c4, c5)

  scan_records-write_all :
      (fuel : ℕ) (rs : List (Hash256 × List ℕ)) (wires : Wires) (hash : Hash256)
      → length rs ≤ fuel
      → All IsRecord rs
      → scan_records decompress fuel (write_all write_record rs) wires hash
        ≡ later (latest rs hash) (wires hash)
  unfolding write_all
  scan_records-write_all zero [] wires hash few h = unfold scan_records latest in refl
  scan_records-write_all (suc fuel) [] wires hash few h = unfold scan_records latest in refl
  scan_records-write_all zero (r ∷ rs) wires hash few h = absurd (omega arith)
  scan_records-write_all (suc fuel) ((key, value) ∷ rs) wires hash few h =
      ap (λ (w : Wires). w hash) (scan_step fuel key value (write_all write_record rs) wires h.0)
      ∙ scan_records-write_all fuel rs _ hash (omega arith) h.1
      ∙ later-insert_decoded key value rs wires hash

  length-write_all :
      (rs : List (Hash256 × List ℕ))
      → All IsRecord rs
      → length rs ≤ length (write_all write_record rs)
  unfolding write_all write_record
  length-write_all [] h = omega arith
  length-write_all ((key, value) ∷ rs) h = omega (
    arith,
    length-append (write_u48 (length value)) (key ++ value),
    length-append key value,
    length-append (write_u48 (length value) ++ (key ++ value)) (write_all write_record rs),
    (h.0).key_size,
    length-write_all rs h.1,
  )

  -- A data file that holds its header and records with keys of 32 bytes and values of 1 to 65536
  -- bytes is scanned to its end: under each hash there are the wire bytes of the last record with
  -- that key whose value is decoded, and nothing where there is none.
  pub scan_dat-write_all :
      (version uid appnum : ℕ) (rs : List (Hash256 × List ℕ))
      → All IsRecord rs
      → scan_dat decompress (write_dat_header version uid appnum ++ write_all write_record rs)
        ≡ ok (latest rs)
  unfolding scan_dat
  scan_dat-write_all version uid appnum rs h =
      let file = write_dat_header version uid appnum ++ write_all write_record rs in
      let header : length (write_dat_header version uid appnum) ≡ 92 =
        unfold write_dat_header be_bytes in refl in
      let size : length file ≡ 92 + length (write_all write_record rs) = omega (
        arith,
        length-append (write_dat_header version uid appnum) (write_all write_record rs),
        header,
      ) in
      let long8 : ltb (length file) 8 ≡ false = le→ltb (length file) 8 (omega (arith, size)) in
      let long92 : ltb (length file) 92 ≡ false = le→ltb (length file) 92 (omega (arith, size)) in
      let magic : list_eq (take 8 file) nudb_magic ≡ true = unfold write_dat_header in refl in
      let width : from_be (take 2 (drop 26 file)) ≡ 32 =
        unfold write_dat_header be_bytes from_be in refl in
      let behind : drop 92 file ≡ write_all write_record rs =
        drop-append 92 (write_dat_header version uid appnum) (write_all write_record rs) header in
      rw (scan_dat, long8, magic, long92, width, behind)
        (ap ok (
          fun_ext λ hash.
            scan_records-write_all (length file) rs no_wires hash
              (omega (arith, size, length-write_all rs h)) h
            ∙ later-none (latest rs hash)))
