-- ===== src/Meta/TxFields.antt =====
-- `parse_tx_fields` of crates/xrla-common/src/meta_decode.rs.
use xrpl_ledger_archive.Prelude.{[], ◌∷◌, zero}
use mathlib.Core.Option
use xrpl_ledger_archive.Meta.Skip.{skip_value}
use xrpl_ledger_archive.Prelude.Bytes.{from_be}
use xrpl_ledger_archive.Prelude.Parser.{Result, Parser, ok, err, ◌>>=◌, pure, fail}
use xrpl_ledger_archive.Prelude.{
  ℕ, Option, none, List, suc, replicate, if◌then◌else◌, length, ◌==◌, some, ◌&&◌, ltb,
}
use xrpl_ledger_archive.Meta.{
  MetaError, out_of_fuel, AccountId, type_uint16, take_bytes, type_uint32, type_account,
  read_account, past_account, transaction_ended, read_field_header,
}

pub record TxFields : Type 0 where
  pub tx_type : ℕ
  pub account : AccountId
  pub sequence : ℕ

-- The local variables.
pub record Found : Type 0 where
  pub tx_type : Option ℕ
  pub sequence : Option ℕ
  pub account : Option AccountId

abbrev pub none_found : Found
none_found = record { tx_type = none; sequence = none; account = none }

-- `unwrap` of the three, and the test of the loop: `none` as long as one is missing.
unfoldable pub all_found : Found → Option TxFields
all_found found = elim found.tx_type [
  | none ↦ none
  | some tx_type ↦ elim found.sequence [
    | none ↦ none
    | some sequence ↦
        Option.map
          (λ (account : AccountId). record {
            tx_type = tx_type;
            account = account;
            sequence = sequence;
          })
          found.account
  ]
]

abbrev pub unwrap_or_zero : Option AccountId → AccountId
unwrap_or_zero none = replicate 20 0
unwrap_or_zero (some a) = a

unfoldable pub tx_field : ℕ → ℕ → Found → Parser MetaError Found
tx_field t f found =
    if (t == type_uint16) && (f == 2)
    then (take_bytes 2 >>= λ b. pure (record found { tx_type = some (from_be b) }))
    else if (t == type_uint32) && (f == 4)
    then (take_bytes 4 >>= λ b. pure (record found { sequence = some (from_be b) }))
    else if (t == type_account) && (f == 1)
    then (read_account >>= λ a. pure (record found { account = some (unwrap_or_zero a) }))
    else if ltb type_account t
    then fail (past_account t)
    else skip_value t >>= λ u. pure found

-- The loop, with the bytes that it does not look at.
unfoldable pub tx_loop : ℕ → Found → Parser MetaError TxFields
tx_loop zero found s = err out_of_fuel
tx_loop (suc n) found s = elim (all_found found) [
  | some fields ↦ ok (fields, s)
  | none ↦ elim s [
    | [] ↦ err transaction_ended
    | b ∷ s' ↦
        (read_field_header >>= λ header.
        tx_field header.0 header.1 found >>= λ found'. tx_loop n found')
          (b ∷ s')
  ]
]

unfoldable pub fields_of : Result MetaError (TxFields × List ℕ) → Result MetaError TxFields
fields_of (ok (fields, s)) = ok fields
fields_of (err e) = err e

unfoldable pub parse_tx_fields : List ℕ → Result MetaError TxFields
unfolding fields_of
parse_tx_fields tx_blob = fields_of (tx_loop (suc (length tx_blob)) none_found tx_blob)
