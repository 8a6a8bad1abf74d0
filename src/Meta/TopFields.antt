-- ===== src/Meta/TopFields.antt =====
-- The loop of `summarize_meta` of crates/xrla-common/src/meta_decode.rs on the encoding of fields.
use xrpl_ledger_archive.Meta.NodesCollected.{Reads-collect_affected_nodes}
use xrpl_ledger_archive.Meta.Reads.{Reads-take_bytes, Reads-read_field_header}
use xrpl_ledger_archive.Prelude.Bytes.{from_be}
use xrpl_ledger_archive.Meta.Skipped.{Reads-skip_value, length-field_header, type_of_bounds}
use xrpl_ledger_archive.Meta.Skip.{skip_value}
use xrpl_ledger_archive.Prelude.Parser.{Reads, ok, ◌>>=◌, ◌>>◌, pure, Reads-map, Reads-step}
use xrpl_ledger_archive.Meta.AccountSet.{insert_all}
use xrpl_ledger_archive.Meta.Rule.{
  NodesAreObjects, top_accounts, index_after, AreObjects, is_affected_nodes,
}
use xrpl_ledger_archive.Meta.Summary.{top_field, top_loop, Progress}
use xrpl_ledger_archive.Meta.{type_object, read_field_header, type_uint32}
use xrpl_ledger_archive.Meta.Tree.{
  fixed, blob, array, end, field, uint8, uint32, Fields, Value, encode_value, IsValue, AreFields,
  encode_fields, type_of, code_of, field_header, width_of,
}
use xrpl_ledger_archive.Prelude.{
  zero, suc, [], ◌∷◌, ◌++◌, true, some, inl, inr, ℕ, ◌==◌, List, ◌≡◌, ◌<◌, length, ◌∙◌, ◌||◌, refl,
  arith, Bool-cases, if◌then◌else◌, ◌&&◌, length-append,
}

-- What one field of the metadata changes.
abbrev pub step : ℕ → Value → Progress → Progress
step f v p = record {
  accounts = insert_all p.accounts (top_accounts f v);
  index = index_after f v p.index;
  saw_affected_nodes = is_affected_nodes f v || p.saw_affected_nodes;
}

abbrev pub steps : Fields → Progress → Progress
steps end p = p
steps (field f v fs) p = steps fs (step f v p)

abbrev NodesOf : ℕ → Value → Type 0
NodesOf f (array fs) = (f == 8) ≡ true → AreObjects fs
NodesOf f _ = Unit

Reads-passed :
    (v : Value) (p : Progress)
    → IsValue v
    → Reads (skip_value (type_of v) >> pure p) (encode_value v) p
Reads-passed v p h = Reads-map (λ x. p) (Reads-skip_value v h)

Reads-index :
    (f : ℕ) (bs : List ℕ) (p : Progress)
    → length bs ≡ 4
    → Reads (top_field type_uint32 f p) bs (step f (fixed uint32 bs) p)
unfolding top_field top_accounts index_after is_affected_nodes
Reads-index f bs p h = elim (Bool-cases (f == 28)) [
  | inl is ↦
      rw is (Reads-map (λ x. record p { index = some (from_be x) }) (Reads-take_bytes 4 bs h))
  | inr not ↦
      rw not
        (unfold type_of code_of encode_value IsValue width_of in Reads-passed (fixed uint32 bs) p h)
]

Reads-top_field :
    (f : ℕ) (v : Value) (p : Progress)
    → IsValue v
    → NodesOf f v
    → Reads (top_field (type_of v) f p) (encode_value v) (step f v p)
unfolding top_field top_accounts index_after is_affected_nodes type_of encode_value IsValue code_of
    width_of
Reads-top_field f (array fs) p h o = elim (Bool-cases (f == 8)) [
  | inl is ↦ rw is (
      Reads-map (λ out. record p { accounts = out; saw_affected_nodes = true })
        (Reads-collect_affected_nodes fs p.accounts h (o is)))
  | inr not ↦ rw not (Reads-passed (array fs) p h)
]
Reads-top_field f (fixed uint32 bs) p h o = Reads-index f bs p h
Reads-top_field f (fixed uint8 bs) p h o = Reads-passed (fixed uint8 bs) p h
Reads-top_field f (fixed t bs) p h o = Reads-passed (fixed t bs) p h
Reads-top_field f (blob bs) p h o = Reads-passed (blob bs) p h
Reads-top_field f v p h o = Reads-passed v p h

-- The loop does not look at the end of the buffer before a field.
top_loop-suc :
    (n : ℕ) (p : Progress) (s : List ℕ)
    → 0 < length s
    → top_loop (suc n) p s
      ≡ (read_field_header >>= λ header.
            if (header.0 == type_object) && (header.1 == 1)
            then pure p
            else top_field header.0 header.1 p >>= λ p'. top_loop n p')
          s
unfolding top_loop
top_loop-suc n p [] h = absurd (omega arith)
top_loop-suc n p (b ∷ s) h = refl

NodesAreObjects-head :
    (f : ℕ) (v : Value) (fs : Fields) → NodesAreObjects (field f v fs) → NodesOf f v
unfolding NodesAreObjects
NodesAreObjects-head f (array gs) fs h = h.0
NodesAreObjects-head f (blob bs) fs h = tt
NodesAreObjects-head f v fs h = tt

NodesAreObjects-tail :
    (f : ℕ) (v : Value) (fs : Fields) → NodesAreObjects (field f v fs) → NodesAreObjects fs
unfolding NodesAreObjects
NodesAreObjects-tail f (array gs) fs h = h.1
NodesAreObjects-tail f (blob bs) fs h = h
NodesAreObjects-tail f v fs h = h

pub top_loop-encode_fields :
    (m : Fields) (n : ℕ) (p : Progress)
    → AreFields type_object m
    → NodesAreObjects m
    → length (encode_fields m) < n
    → top_loop n p (encode_fields m) ≡ ok (steps m p, [])
unfolding encode_value AreFields
top_loop-encode_fields m zero p h o k = absurd (omega arith)
top_loop-encode_fields end (suc n) p h o k = unfold top_loop in refl
top_loop-encode_fields (field f v fs) (suc n) p h o k =
    let header = field_header (type_of v) f in
    let rest = encode_value v ++ encode_fields fs in
    let sizes = length-append header rest in
    let sizes' = length-append (encode_value v) (encode_fields fs) in
    let front = length-field_header (type_of v) f in
    let bounds = type_of_bounds v in
    top_loop-suc n p (header ++ rest) (omega arith)
    ∙ Reads-step _ (Reads-read_field_header (type_of v) f bounds.0 bounds.1 h.0 h.1) rest
    ∙ rw h.2 (
        Reads-step _ (Reads-top_field f v p h.3 (NodesAreObjects-head f v fs o)) (encode_fields fs)
        ∙ top_loop-encode_fields fs n (step f v p) h.4 (NodesAreObjects-tail f v fs o)
            (omega arith))
