-- ===== src/Meta/Collected.antt =====
-- The collecting loops of crates/xrla-common/src/meta_decode.rs on the encoding of fields.
use xrpl_ledger_archive.Meta.Reads.{
  Reads-read_account, issuer_of, Reads-read_amount, Reads-read_field_header, Reads-take_bytes,
}
use xrpl_ledger_archive.Meta.Skip.{skip_value}
use xrpl_ledger_archive.Meta.Skipped.{
  IsContainer, Reads-skip_value, Reads-end_marker, is_end, length-field_header, type_of_bounds,
  of_object,
}
use xrpl_ledger_archive.Meta.AccountSet.{insert_all, insert_all-append}
use xrpl_ledger_archive.Prelude.Parser.{
  Parser, Reads, ◌>>◌, Reads-map, pure, Reads-last, Reads-pure, Reads-bind,
}
use xrpl_ledger_archive.Meta.Rule.{inner_accounts, to_list, gather}
use xrpl_ledger_archive.Meta.Summary.{
  has_issuer_field, collect_field, insert_some, fields_loop, collect_inner,
}
use xrpl_ledger_archive.Meta.{
  AccountId, type_object, MetaError, type_amount, mpt_issuer, type_uint192, nonzero,
}
use xrpl_ledger_archive.Meta.Tree.{
  fixed, amount, account, blob, end, field, uint8, uint192, Fields, Value, IsValue, Amount, type_of,
  IsAmount, encode_value, code_of, AreFields, encode_amount, encode_fields, end_marker,
  field_header, width_of,
}
use xrpl_ledger_archive.Prelude.{
  zero, suc, ◌++◌, some, none, inl, inr, ℕ, Option, List, ◌≡◌, leb, ◌&&◌, arith, refl, length,
  Bool-cases, ◌<◌, length-append, append_assoc, ◌==◌, drop,
}

-- Every field of a list is as `P` says.
abbrev pub Each : (ℕ → Value → Type 0) → Fields → Type 0
Each P end = Unit
Each P (field f v fs) = P f v × Each P fs

-- What each field contributes, if the handler of fields reads it so, is what the loop collects.
module _ (on_field : ℕ → ℕ → List AccountId → Parser MetaError (List AccountId))
    (one : ℕ → Value → List AccountId) (P : ℕ → Value → Type 0) where
  Reads-fields_loop :
      ((f : ℕ) (v : Value)
        → IsValue v
        → P f v
        → (out : List AccountId)
        → Reads (on_field (type_of v) f out) (encode_value v) (insert_all out (one f v)))
      → (c : ℕ) → IsContainer c
      → (fs : Fields) → AreFields c fs
      → Each P fs
      → (n : ℕ) → length (encode_fields fs) < n
      → (out : List AccountId)
      → Reads
          (fields_loop on_field c n out)
          (encode_fields fs ++ end_marker c)
          (insert_all out (gather one fs))
  unfolding fields_loop encode_value AreFields gather
  Reads-fields_loop step c hc fs h p zero k out = absurd (omega arith)
  Reads-fields_loop step c hc end h p (suc n) k out =
      Reads-last _ out (Reads-end_marker c hc) (rw (is_end c hc) (Reads-pure out))
  Reads-fields_loop step c hc (field f v fs) h p (suc n) k out =
      let sizes = length-append (field_header (type_of v) f) (encode_value v ++ encode_fields fs) in
      let sizes' = length-append (encode_value v) (encode_fields fs) in
      let front = length-field_header (type_of v) f in
      let bounds = type_of_bounds v in
      rw
        (
          append_assoc (field_header (type_of v) f) (encode_value v ++ encode_fields fs)
              (end_marker c),
          append_assoc (encode_value v) (encode_fields fs) (end_marker c),
          insert_all-append out (one f v) (gather one fs),
        )
        (Reads-bind _ (Reads-read_field_header (type_of v) f bounds.0 bounds.1 h.0 h.1) (
          rw h.2 (
            Reads-bind _ (step f v h.3 p.0 out)
              (Reads-fields_loop step c hc fs h.4 p.1 n (omega arith) (insert_all out (one f v))))))

  -- The loop with the fuel that its callers give it.
  pub Reads-loop :
      ((f : ℕ) (v : Value)
        → IsValue v
        → P f v
        → (out : List AccountId)
        → Reads (on_field (type_of v) f out) (encode_value v) (insert_all out (one f v)))
      → (c : ℕ) → IsContainer c
      → (fs : Fields) → AreFields c fs
      → Each P fs
      → (out : List AccountId)
      → Reads
          (λ s. fields_loop on_field c (suc (length s)) out s)
          (encode_fields fs ++ end_marker c)
          (insert_all out (gather one fs))
  Reads-loop step c hc fs h p out = record {
    run = λ rest.
        (Reads-fields_loop step c hc fs h p
            (suc (length ((encode_fields fs ++ end_marker c) ++ rest)))
            (omega (
              arith,
              length-append (encode_fields fs ++ end_marker c) rest,
              length-append (encode_fields fs) (end_marker c),
            ))
            out).run
          rest;
  }

abbrev pub Anything : ℕ → Value → Type 0
Anything f v = Unit

pub Each-Anything : (fs : Fields) → Each Anything fs
Each-Anything end = tt
Each-Anything (field f v fs) = (tt, Each-Anything fs)

insert_some-to_list :
    (a : Option AccountId) (out : List AccountId) → insert_some a out ≡ insert_all out (to_list a)
insert_some-to_list none out = refl
insert_some-to_list (some a) out = refl

has_issuer_field_iff : (f : ℕ) → has_issuer_field f ≡ (leb 4 f && leb f 7)
unfolding has_issuer_field
has_issuer_field_iff f = ground arith

pub Reads-skipped :
    (v : Value) (out : List AccountId)
    → IsValue v
    → Reads (skip_value (type_of v) >> pure out) (encode_value v) out
Reads-skipped v out h = Reads-map (λ x. out) (Reads-skip_value v h)

Reads-issuer :
    (f : ℕ) (a : Amount) (out : List AccountId)
    → IsAmount a
    → Reads
        (collect_field type_amount f out)
        (encode_amount a)
        (insert_all out (inner_accounts f (amount a)))
unfolding collect_field inner_accounts
Reads-issuer f a out h = elim (Bool-cases (leb 4 f && leb f 7)) [
  | inl is ↦
      rw (has_issuer_field_iff f, is, ← insert_some-to_list (issuer_of a) out)
        (Reads-map (λ x. insert_some x out) (Reads-read_amount a h))
  | inr not ↦
      rw (has_issuer_field_iff f, not)
        (unfold type_of encode_value IsValue in Reads-skipped (amount a) out h)
]

Reads-issuance :
    (f : ℕ) (id : List ℕ) (out : List AccountId)
    → length id ≡ 24
    → Reads
        (collect_field type_uint192 f out)
        id
        (insert_all out (inner_accounts f (fixed uint192 id)))
unfolding collect_field inner_accounts mpt_issuer
Reads-issuance f id out h = elim (Bool-cases (f == 1)) [
  | inl is ↦
      rw (is, ← insert_some-to_list (nonzero (drop 4 id)) out)
        (Reads-map (λ x. insert_some (mpt_issuer x) out) (Reads-take_bytes 24 id h))
  | inr not ↦ rw not (
      unfold type_of code_of encode_value IsValue width_of in
      Reads-skipped (fixed uint192 id) out h)
]

Reads-collect_field :
    (f : ℕ) (v : Value)
    → IsValue v
    → Unit {0}
    → (out : List AccountId)
    → Reads (collect_field (type_of v) f out) (encode_value v) (insert_all out (inner_accounts f v))
unfolding collect_field inner_accounts type_of encode_value IsValue code_of width_of
Reads-collect_field f (fixed uint192 bs) h u out = Reads-issuance f bs out h
Reads-collect_field f (fixed uint8 bs) h u out = Reads-skipped (fixed uint8 bs) out h
Reads-collect_field f (fixed t bs) h u out = Reads-skipped (fixed t bs) out h
Reads-collect_field f (amount a) h u out = Reads-issuer f a out h
Reads-collect_field f (account a) h u out =
    rw (← insert_some-to_list a out) (Reads-map (λ x. insert_some x out) (Reads-read_account a h))
Reads-collect_field f (blob bs) h u out = Reads-skipped (blob bs) out h
Reads-collect_field f v h u out = Reads-skipped v out h

pub Reads-collect_inner :
    (fs : Fields) (out : List AccountId)
    → AreFields type_object fs
    → Reads
        (collect_inner out)
        (encode_fields fs ++ end_marker type_object)
        (insert_all out (gather inner_accounts fs))
unfolding collect_inner
Reads-collect_inner fs out h =
    Reads-loop collect_field inner_accounts Anything Reads-collect_field type_object of_object fs h
      (Each-Anything fs) out
