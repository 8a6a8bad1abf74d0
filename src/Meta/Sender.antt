-- ===== src/Meta/Sender.antt =====
-- `parse_tx_fields` of crates/xrla-common/src/meta_decode.rs on the bytes of a transaction.
use xrpl_ledger_archive.Meta.Reads.{Reads-read_account, Reads-take_bytes}
use xrpl_ledger_archive.Prelude.Bytes.{be_bytes, from_be-be_bytes, from_be, length-be_bytes}
use xrpl_ledger_archive.Prelude.Parser.{Reads, ok, Reads-map}
use xrpl_ledger_archive.Meta.TxFields.{
  tx_loop, tx_field, Found, parse_tx_fields, all_found, unwrap_or_zero, none_found, fields_of,
}
use xrpl_ledger_archive.Meta.{type_account, type_uint32, type_uint16, MetaError}
use xrpl_ledger_archive.Meta.Tree.{encode_account}
use xrpl_ledger_archive.Prelude.{
  zero, suc, some, none, ◌<◌, ℕ, length, ◌≡◌, arith, subst, ap, ◌∙◌, refl,
}
use xrpl_ledger_archive.Meta.TxBytes.{
  Transaction, from_account, from_sequence, tx_bytes, type-IsHeader, sequence-IsHeader,
  account-IsHeader, Comes-field, Comes-others, IsTransaction,
}

module _ (tx : Transaction) (h : IsTransaction tx) where
  abbrev with_type : Found
  with_type = record { tx_type = some tx.tx_type; sequence = none; account = none }

  abbrev with_sequence : Found
  with_sequence = record { tx_type = some tx.tx_type; sequence = some tx.sequence; account = none }

  abbrev with_account : Found
  with_account = record {
    tx_type = some tx.tx_type;
    sequence = some tx.sequence;
    account = some (unwrap_or_zero tx.account);
  }

  Reads-type : Reads (tx_field type_uint16 2 none_found) (be_bytes 2 tx.tx_type) with_type
  unfolding tx_field
  Reads-type =
      subst
        (λ v.
          Reads {E = MetaError} {A = Found} (tx_field type_uint16 2 none_found)
            (be_bytes 2 tx.tx_type) (record { tx_type = some v; sequence = none; account = none }))
        (from_be-be_bytes 2 tx.tx_type h.type_range)
        (Reads-map (λ b. record { tx_type = some (from_be b); sequence = none; account = none })
          (Reads-take_bytes 2 (be_bytes 2 tx.tx_type) (length-be_bytes 2 tx.tx_type)))

  Reads-sequence : Reads (tx_field type_uint32 4 with_type) (be_bytes 4 tx.sequence) with_sequence
  unfolding tx_field
  Reads-sequence =
      subst
        (λ v.
          Reads {E = MetaError} {A = Found} (tx_field type_uint32 4 with_type)
            (be_bytes 4 tx.sequence)
            (record { tx_type = some tx.tx_type; sequence = some v; account = none }))
        (from_be-be_bytes 4 tx.sequence h.sequence_range)
        (Reads-map
          (λ b. record { tx_type = some tx.tx_type; sequence = some (from_be b); account = none })
          (Reads-take_bytes 4 (be_bytes 4 tx.sequence) (length-be_bytes 4 tx.sequence)))

  Reads-sender :
      Reads (tx_field type_account 1 with_sequence) (encode_account tx.account) with_account
  unfolding tx_field
  Reads-sender =
      Reads-map (λ a. record with_sequence { account = some (unwrap_or_zero a) })
        (Reads-read_account tx.account h.account_size)

  -- The type, the sequence and the account of a transaction are read, whatever the other fields
  -- before them hold and whatever bytes follow the account; an empty account is read as zeros.
  pub parse_tx_fields-tx_bytes :
      parse_tx_fields (tx_bytes tx)
      ≡ ok (record {
        tx_type = tx.tx_type;
        account = unwrap_or_zero tx.account;
        sequence = tx.sequence;
      })
  unfolding parse_tx_fields tx_bytes all_found
  parse_tx_fields-tx_bytes =
      let s0 = tx_bytes tx in
      let a =
        Comes-others tx.before_type (suc (length s0)) none_found _ h.first_others refl
          (suc_bound (length s0)) in
      let b =
        Comes-field a.0 type_uint16 2 none_found with_type (be_bytes 2 tx.tx_type) _ type-IsHeader
          refl Reads-type a.1 in
      let c =
        Comes-others tx.before_sequence b.0 with_type (from_sequence tx) h.second_others refl b.1 in
      let d =
        Comes-field c.0 type_uint32 4 with_type with_sequence (be_bytes 4 tx.sequence) _
          sequence-IsHeader refl Reads-sequence c.1 in
      let e =
        Comes-others tx.before_account d.0 with_sequence (from_account tx) h.third_others refl
          d.1 in
      let f =
        Comes-field e.0 type_account 1 with_sequence with_account (encode_account tx.account)
          tx.rest account-IsHeader refl Reads-sender e.1 in
      ap fields_of (a.2 ∙ b.2 ∙ c.2 ∙ d.2 ∙ e.2 ∙ f.2 ∙ stops f.0 f.1)
    where
      suc_bound : (n : ℕ) → n < suc n
      suc_bound n = omega arith

      stops :
          (n : ℕ)
          → length tx.rest < n
          → tx_loop n with_account tx.rest
            ≡ ok (
              record {
                tx_type = tx.tx_type;
                account = unwrap_or_zero tx.account;
                sequence = tx.sequence;
              },
              tx.rest,
            )
      stops zero k = absurd (omega arith)
      stops (suc n) k = unfold tx_loop in refl
