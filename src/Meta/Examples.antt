-- ===== src/Meta/Examples.antt =====
-- Metadata, a transaction and an address at which the theorems on
-- crates/xrla-common/src/meta_decode.rs are used, and runs of the readers.
use xrpl_ledger_archive.Meta.Sender.{parse_tx_fields-tx_bytes}
use xrpl_ledger_archive.Meta.TxBytes.{Transaction, AreOthers, tx_bytes, IsTransaction}
use xrpl_ledger_archive.TxTree.{write_vl, vl_prefix}
use xrpl_ledger_archive.Prelude.Sort.{lex_leb}
use xrpl_ledger_archive.Meta.AddressBack.{
  classic_address_to_account_id-account_id_to_classic_address,
}
use xrpl_ledger_archive.Prelude.Bytes.{IsByte, from_be}
use xrpl_ledger_archive.Meta.SenderEnds.{parse_tx_fields-ends}
use xrpl_ledger_archive.Meta.Skipped.{Reads-skip_value}
use xrpl_ledger_archive.Meta.Skip.{skip_value, skip_by_type, skip_fields, skip_blob, fixed_width}
use xrpl_ledger_archive.Meta.Address.{
  payload_of, account_id_to_classic_address, classic_address_to_account_id,
}
use xrpl_ledger_archive.Meta.TxFields.{parse_tx_fields, TxFields}
use xrpl_ledger_archive.Meta.SummaryEnds.{
  AreAccounts, summarize_meta-AreAccounts, summarize_meta-ne-out_of_fuel,
}
use xrpl_ledger_archive.Meta.Summarized.{
  Summarizes, summarize_meta-encode_fields, summarize_meta-no_affected_nodes,
}
use xrpl_ledger_archive.Prelude.Parser.{ok, err, Reads, take_exact}
use xrpl_ledger_archive.Meta.Summary.{
  MetaSummary, summarize_meta, top_loop, top_field, collect_affected_nodes, fields_loop,
  affected_node, collect_node, node_field, collect_inner, collect_field, insert_account,
  has_issuer_field, summary_of,
}
use xrpl_ledger_archive.Meta.Rule.{
  NodesAreObjects, AreObjects, has_affected_nodes, is_affected_nodes, IsMetadata,
}
use xrpl_ledger_archive.Meta.{
  take_bytes, AccountId, type_object, type_array, out_of_fuel, no_affected_nodes, read_field_header,
  read_amount, read_account, read_vl_len, mpt_issuer, nonzero, or_next_byte, byte, peek, take_bytes,
}
use xrpl_ledger_archive.Meta.Tree.{
  fixed, amount, account, blob, object, array, end, field, uint8, uint32, uint192, native, issued,
  Fields, AreFields, type_of, code_of, encode_fields, width_of, IsAmount, IsAccount, IsValue,
  encode_value, encode_amount, encode_account, field_header,
}
use xrpl_ledger_archive.Prelude.{
  [], ◌∷◌, ◌++◌, some, replicate, ◌≡◌, arith, refl, ◌≢◌, List, ℕ, length, All, ◌%◌,
}

abbrev alice : AccountId
alice = replicate 20 7

abbrev bob : AccountId
bob = replicate 20 3

abbrev carol : AccountId
carol = replicate 20 5

-- Created: an offer of alice, who pays in a currency of bob.
abbrev offer : Fields
offer = field 1 (account (some alice)) (
    field 4 (amount (issued 192 (replicate 7 1) (replicate 20 9) bob))
      (field 9 (fixed uint8 (1 ∷ [])) end))

-- Modified: an MPT issuance of carol; the previous fields, which name an account, do not count.
abbrev issuance : Fields
issuance = field 1 (fixed uint192 (replicate 4 0 ++ carol)) (field 2 (blob (1 ∷ 2 ∷ [])) end)

abbrev previous : Fields
previous = field 1 (account (some (replicate 20 8))) end

abbrev nodes : Fields
nodes =
    field 3 (object (field 8 (object offer) end))
      (field 5 (object (field 7 (object issuance) (field 6 (object previous) end))) end)

abbrev metadata : Fields
metadata = field 28 (fixed uint32 (0 ∷ 0 ∷ 1 ∷ 2 ∷ [])) (field 8 (array nodes) end)

metadata-AreFields : AreFields type_object metadata
unfolding AreFields type_of code_of width_of IsAmount IsAccount
metadata-AreFields = ground arith

metadata-IsMetadata : IsMetadata metadata
unfolding NodesAreObjects AreObjects has_affected_nodes is_affected_nodes
metadata-IsMetadata = record { sizes = metadata-AreFields; nodes = (λ e. tt, tt); present = refl }

summarize_meta-encode_fields_example :
    (summary : MetaSummary) × (summarize_meta (encode_fields metadata) ≡ ok summary)
    × Summarizes metadata summary
summarize_meta-encode_fields_example = summarize_meta-encode_fields metadata metadata-IsMetadata

abbrev metadata_accounts : MetaSummary
metadata_accounts = record {
  affected_accounts = bob ∷ carol ∷ alice ∷ [];
  transaction_index = some 258;
}

-- The set is in the order of the ids, not of the metadata.
summary_runs : summarize_meta (encode_fields metadata) ≡ ok metadata_accounts
unfolding summarize_meta top_loop top_field collect_affected_nodes fields_loop affected_node
    collect_node node_field collect_inner collect_field insert_account read_field_header read_amount
    read_account read_vl_len skip_value skip_by_type skip_fields skip_blob fixed_width
    has_issuer_field mpt_issuer nonzero or_next_byte byte peek take_bytes take_exact lex_leb from_be
    encode_value encode_amount encode_account field_header type_of code_of write_vl vl_prefix
    summary_of
summary_runs = refl

summarize_meta-AreAccounts_example : AreAccounts metadata_accounts.affected_accounts
summarize_meta-AreAccounts_example =
    summarize_meta-AreAccounts (encode_fields metadata) metadata_accounts summary_runs

summarize_meta-ne-out_of_fuel_example : summarize_meta (248 ∷ 229 ∷ 231 ∷ []) ≢ err out_of_fuel
summarize_meta-ne-out_of_fuel_example = summarize_meta-ne-out_of_fuel (248 ∷ 229 ∷ 231 ∷ [])

summarize_meta-no_affected_nodes_example :
    summarize_meta (encode_fields offer) ≡ err no_affected_nodes
summarize_meta-no_affected_nodes_example =
    unfold NodesAreObjects has_affected_nodes is_affected_nodes AreFields IsValue type_of code_of
      width_of IsAmount IsAccount in
    summarize_meta-no_affected_nodes offer (ground arith) refl tt

Reads-skip_value_example : Reads (skip_value type_array) (encode_value (array nodes)) tt
unfolding type_of
Reads-skip_value_example = Reads-skip_value (array nodes) nodes-IsValue
  where
    nodes-IsValue : IsValue (array nodes)
    nodes-IsValue =
        unfold AreFields IsValue type_of code_of width_of IsAmount IsAccount in ground arith

abbrev payment : Transaction
payment = record {
  before_type = end;
  tx_type = 0;
  before_sequence = field 2 (fixed uint32 (128 ∷ 0 ∷ 0 ∷ 0 ∷ [])) end;
  sequence = 70000;
  before_account =
      field 8 (amount (native 64 (replicate 7 1))) (field 3 (blob (1 ∷ 2 ∷ 3 ∷ [])) end);
  account = some alice;
  rest = 131 ∷ 20 ∷ [];
}

payment-IsTransaction : IsTransaction payment
unfolding AreOthers IsValue IsAmount IsAccount type_of code_of width_of
payment-IsTransaction = record {
  first_others = tt;
  type_range = omega arith;
  second_others = ground arith;
  sequence_range = omega arith;
  third_others = ground arith;
  account_size = refl;
}

parse_tx_fields-tx_bytes_example :
    parse_tx_fields (tx_bytes payment)
    ≡ ok (record { tx_type = 0; account = alice; sequence = 70000 })
parse_tx_fields-tx_bytes_example = parse_tx_fields-tx_bytes payment payment-IsTransaction

parse_tx_fields-ends_example :
    (parse_tx_fields (18 ∷ 0 ∷ []) ≢ err out_of_fuel)
    × ((fields : TxFields) → parse_tx_fields (18 ∷ 0 ∷ []) ≡ ok fields → length fields.account ≡ 20)
parse_tx_fields-ends_example = parse_tx_fields-ends (18 ∷ 0 ∷ [])

-- The length and the first byte stand for a hash.
abbrev digest : List ℕ → List ℕ
digest bytes = (length bytes % 256) ∷ replicate 31 90

digest-size : (bs : List ℕ) → length (digest bs) ≡ 32
digest-size bs = refl

digest-bytes : (bs : List ℕ) → All IsByte (digest bs)
digest-bytes bs = omega arith

alice_payload : payload_of digest alice ≢ replicate 25 0
alice_payload e = cc e

classic_address_to_account_id-account_id_to_classic_address_example :
    (address : List ℕ) × (account_id_to_classic_address digest alice ≡ some address)
    × (classic_address_to_account_id digest address ≡ ok alice)
classic_address_to_account_id-account_id_to_classic_address_example =
    classic_address_to_account_id-account_id_to_classic_address digest digest-size digest-bytes
      alice refl (omega arith) alice_payload
