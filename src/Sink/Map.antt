-- ===== src/Sink/Map.antt =====
-- What the sink holds after a run of `write_node`.
use xrpl_ledger_archive.Sink.Records.{
  is_there, own, first_of-append, or_else-ok, or_some-none, Within-more, HasKey, size_of,
  first_of-seen, there-or_some, lookup-last,
}
use xrpl_ledger_archive.Prelude.Bytes.{be_bytes}
use xrpl_ledger_archive.Dat.Scan.{write_record, write_dat_header}
use xrpl_ledger_archive.Keyfile.Lookup.{lookup}
use xrpl_ledger_archive.Keyfile.Shard.{PlacedEntry}
use xrpl_ledger_archive.Prelude.Parser.{ok, write_all}
use xrpl_ledger_archive.Node.{Hash256}
use xrpl_ledger_archive.Prelude.{
  List, ℕ, ◌++◌, ◌≡◌, length, list_eq, ◌∷◌, true, ◌≤◌, All, ◌+◌, refl, [], arith, ◌<◌, Bool-cases,
  length-append, ◌^◌, inl, inr, ap, ◌∙◌, sym, ◌%◌, subst, All-append, append-nil, append_assoc,
}
use xrpl_ledger_archive.Sink.Nodes.{SinkData, write_node, write_store, create_sink, contains}
use xrpl_ledger_archive.Keyfile.Search.{lookup-append, or_else}
use xrpl_ledger_archive.Sink.Stored.{first_of, lookup-same, Within}

module _ (nhash_of : Hash256 → ℕ) where
  -- The sink after the records `rs`.
  pub record Holds (sink : SinkData) (rs : List (Hash256 × List ℕ)) : Type 0 where
    pub offset : sink.offset ≡ length sink.dat
    pub within : All (Within (length sink.dat)) sink.placed
    pub seen : (key : Hash256) → contains sink.seen key ≡ is_there (first_of rs key)
    pub found :
        (key : Hash256) → lookup sink.dat key (nhash_of key) sink.placed ≡ ok (first_of rs key)

  skip-Holds :
      (hash value : List ℕ) (sink : SinkData) (rs : List (Hash256 × List ℕ))
      → contains sink.seen hash ≡ true
      → Holds sink rs
      → Holds sink (rs ++ ((hash, value) ∷ []))
  skip-Holds hash value sink rs q s =
      let same = first_of-seen hash value rs (sym (s.seen hash) ∙ q) in
      record {
        offset = s.offset;
        within = s.within;
        seen = λ key. s.seen key ∙ ap is_there (sym (same key));
        found = λ key. s.found key ∙ ap ok (sym (same key));
      }

  -- The sink with one record more.
  abbrev grown : Hash256 → List ℕ → SinkData → SinkData
  grown hash value sink = record {
    dat = sink.dat ++ write_record (hash, value);
    offset = (sink.offset + (6 + 32 + length value)) % 2 ^ 64;
    seen = hash ∷ sink.seen;
    placed =
        sink.placed
        ++ (record { nhash = nhash_of hash; offset = sink.offset; size = length value } ∷ []);
  }

  seen-grown :
      (hash value : List ℕ) (sink : SinkData) (rs : List (Hash256 × List ℕ))
      → Holds sink rs
      → (key : Hash256)
      → contains (hash ∷ sink.seen) key ≡ is_there (first_of (rs ++ ((hash, value) ∷ [])) key)
  unfolding contains
  seen-grown hash value sink rs s key = elim (Bool-cases (list_eq hash key)) [
    | inl q ↦ rw q (
        sym (
          ap is_there (first_of-append rs hash value key)
          ∙ rw q (there-or_some (first_of rs key) value)))
    | inr q ↦ rw q (
        s.seen key
        ∙ sym (
            ap is_there (first_of-append rs hash value key)
            ∙ rw q (ap is_there (or_some-none (first_of rs key)))))
  ]

  grown-Holds :
      (hash value : List ℕ) (sink : SinkData) (rs : List (Hash256 × List ℕ))
      → length hash ≡ 32
      → length sink.dat + 38 + length value < 2 ^ 64
      → Holds sink rs
      → Holds (grown hash value sink) (rs ++ ((hash, value) ∷ []))
  grown-Holds hash value sink rs h few s =
      let size : length (sink.dat ++ write_record (hash, value))
          ≡ length sink.dat + (38 + length value) =
        length-append sink.dat (write_record (hash, value))
        ∙ ap (λ n. length sink.dat + n) (size_of hash value h) in
      let entry : PlacedEntry = record {
        nhash = nhash_of hash;
        offset = sink.offset;
        size = length value;
      } in
      let dat' = sink.dat ++ write_record (hash, value) in
      record {
        offset = omega (arith, s.offset, size, few);
        within =
            All-append (Within (length dat')) sink.placed (entry ∷ [])
              (Within-more (length sink.dat) (length dat') sink.placed (omega (arith, size))
                s.within)
              (omega (arith, s.offset, size), tt);
        seen = seen-grown hash value sink rs s;
        found = λ key.
            let before : lookup dat' key (nhash_of key) sink.placed ≡ ok (first_of rs key) =
              lookup-same sink.dat (write_record (hash, value)) key (nhash_of key) sink.placed
                s.within
              ∙ s.found key in
            let last : lookup dat' key (nhash_of key) (entry ∷ []) ≡ ok (own hash value key) =
              rw s.offset (lookup-last nhash_of sink.dat hash value key h) in
            lookup-append dat' key (nhash_of key) sink.placed (entry ∷ [])
            ∙ ap (λ r. or_else r (lookup dat' key (nhash_of key) (entry ∷ []))) before
            ∙ ap (or_else (ok (first_of rs key))) last
            ∙ or_else-ok (first_of rs key) (own hash value key)
            ∙ ap ok (sym (first_of-append rs hash value key));
      }

  write_node-Holds :
      (hash value : List ℕ) (sink : SinkData) (rs : List (Hash256 × List ℕ))
      → length hash ≡ 32
      → length sink.dat + 38 + length value < 2 ^ 64
      → Holds sink rs
      → Holds (write_node nhash_of hash value sink) (rs ++ ((hash, value) ∷ []))
  unfolding write_node
  write_node-Holds hash value sink rs h few s = elim (Bool-cases (contains sink.seen hash)) [
    | inl q ↦ rw (write_node, q) (skip-Holds hash value sink rs q s)
    | inr q ↦ rw (write_node, q) (grown-Holds hash value sink rs h few s)
  ]

  pub write_node-size :
      (hash value : List ℕ) (sink : SinkData)
      → length hash ≡ 32
      → length ((write_node nhash_of hash value sink).dat) ≤ length sink.dat + 38 + length value
  unfolding write_node
  write_node-size hash value sink h = elim (Bool-cases (contains sink.seen hash)) [
    | inl q ↦ rw (write_node, q) (omega arith)
    | inr q ↦
        rw (write_node, q)
          (omega (arith, length-append sink.dat (write_record (hash, value)), size_of hash value h))
  ]

  pub write_store-Holds :
      (rs before : List (Hash256 × List ℕ)) (sink : SinkData)
      → All HasKey rs
      → length sink.dat + length (write_all write_record rs) < 2 ^ 64
      → Holds sink before
      → Holds (write_store nhash_of rs sink) (before ++ rs)
  unfolding write_store write_all
  write_store-Holds [] before sink h few s = rw append-nil s
  write_store-Holds ((hash, value) ∷ rs) before sink h few s =
      let total : length (write_record (hash, value) ++ write_all write_record rs)
          ≡ 38 + length value + length (write_all write_record rs) =
        length-append (write_record (hash, value)) (write_all write_record rs)
        ∙ ap (λ n. n + length (write_all write_record rs)) (size_of hash value h.0) in
      subst (Holds (write_store nhash_of rs (write_node nhash_of hash value sink)))
        (append_assoc before ((hash, value) ∷ []) rs)
        (write_store-Holds rs (before ++ ((hash, value) ∷ [])) (write_node nhash_of hash value sink)
          h.1 (omega (arith, few, total, write_node-size hash value sink h.0))
          (write_node-Holds hash value sink before h.0 (omega (arith, few, total)) s))

  pub create_sink-Holds : Holds create_sink []
  unfolding create_sink first_of contains is_there lookup
  create_sink-Holds = record {
    offset = unfold write_dat_header be_bytes in refl;
    within = tt;
    seen = λ key. refl;
    found = λ key. refl;
  }
