-- ===== src/Meta/Summary.antt =====
-- `collect_inner`, `collect_node`, `collect_affected_nodes` and `summarize_meta` of
-- crates/xrla-common/src/meta_decode.rs. The `BTreeSet` that they fill is an ascending list.
use xrpl_ledger_archive.Meta.Skip.{skip_value}
use xrpl_ledger_archive.Prelude.Bytes.{from_be}
use xrpl_ledger_archive.Prelude.Sort.{lex_leb}
use xrpl_ledger_archive.Prelude.Parser.{Result, Parser, err, ok, fail, ◌>>=◌, ◌>>◌, pure}
use xrpl_ledger_archive.Prelude.{
  Option, ℕ, List, [], ◌∷◌, Bool, none, suc, some, if◌then◌else◌, ◌==◌, false, length, list_eq,
  ◌&&◌, not, ◌||◌, true, zero,
}
use xrpl_ledger_archive.Meta.{
  MetaError, out_of_fuel, AccountId, type_object, type_array, f_taker_pays, type_account,
  read_field_header, no_affected_nodes, not_an_object, f_affected_nodes, f_taker_gets, read_account,
  f_created_node, f_low_limit, type_amount, f_new_fields, f_high_limit, read_amount, f_final_fields,
  type_uint32, type_uint192, f_transaction_index, f_mpt_issuance_id, take_bytes, mpt_issuer,
}

-- `BTreeSet::insert`.
unfoldable pub insert_account : AccountId → List AccountId → List AccountId
insert_account a [] = a ∷ []
insert_account a (x ∷ xs) =
    let rest = insert_account a xs in
    if list_eq a x then x ∷ xs else if lex_leb a x then a ∷ x ∷ xs else x ∷ rest

-- `if let Some(a) = ... { out.insert(a); }`.
abbrev pub insert_some : Option AccountId → List AccountId → List AccountId
insert_some none out = out
insert_some (some a) out = insert_account a out

unfoldable pub has_issuer_field : ℕ → Bool
has_issuer_field f =
    (f == f_taker_pays) || (f == f_taker_gets) || (f == f_low_limit) || (f == f_high_limit)

-- One field of the first level.
unfoldable pub collect_field : ℕ → ℕ → List AccountId → Parser MetaError (List AccountId)
collect_field t f out =
    if t == type_account
    then (do a ← read_account; pure (insert_some a out))
    else if (t == type_amount) && has_issuer_field f
    then (do issuer ← read_amount; pure (insert_some issuer out))
    else if (t == type_uint192) && (f == f_mpt_issuance_id)
    then (do id ← take_bytes 24; pure (insert_some (mpt_issuer id) out))
    else (do skip_value t; pure out)

-- `loop { ... }` over fields, up to field 1 of the type `container`.
unfoldable pub fields_loop :
    (ℕ → ℕ → List AccountId → Parser MetaError (List AccountId))
    → ℕ
    → ℕ
    → List AccountId
    → Parser MetaError (List AccountId)
fields_loop on_field container zero out = fail out_of_fuel
fields_loop on_field container (suc n) out = read_field_header >>= λ header.
    if (header.0 == container) && (header.1 == 1)
    then pure out
    else on_field header.0 header.1 out >>= λ out'. fields_loop on_field container n out'

unfoldable pub collect_inner : List AccountId → Parser MetaError (List AccountId)
collect_inner out s = fields_loop collect_field type_object (suc (length s)) out s

unfoldable pub node_field : ℕ → ℕ → ℕ → List AccountId → Parser MetaError (List AccountId)
node_field wanted t f out =
    if (t == type_object) && (f == wanted) then collect_inner out else (do skip_value t; pure out)

unfoldable pub collect_node : ℕ → List AccountId → Parser MetaError (List AccountId)
collect_node wanted out s = fields_loop (node_field wanted) type_object (suc (length s)) out s

unfoldable pub affected_node : ℕ → ℕ → List AccountId → Parser MetaError (List AccountId)
affected_node t f out =
    if not (t == type_object)
    then fail (not_an_object t)
    else collect_node (if f == f_created_node then f_new_fields else f_final_fields) out

unfoldable pub collect_affected_nodes : List AccountId → Parser MetaError (List AccountId)
collect_affected_nodes out s = fields_loop affected_node type_array (suc (length s)) out s

pub record MetaSummary : Type 0 where
  pub affected_accounts : List AccountId
  pub transaction_index : Option ℕ

-- The local variables of `summarize_meta`.
pub record Progress : Type 0 where
  pub accounts : List AccountId
  pub index : Option ℕ
  pub saw_affected_nodes : Bool

abbrev pub nothing_yet : Progress
nothing_yet = record { accounts = []; index = none; saw_affected_nodes = false }

-- The match of the loop, but for the end marker.
unfoldable pub top_field : ℕ → ℕ → Progress → Parser MetaError Progress
top_field t f p =
    if (t == type_array) && (f == f_affected_nodes)
    then (do
      out ← collect_affected_nodes p.accounts
      pure (record p { accounts = out; saw_affected_nodes = true }))
    else if (t == type_uint32) && (f == f_transaction_index)
    then (do b ← take_bytes 4; pure (record p { index = some (from_be b) }))
    else (do skip_value t; pure p)

unfoldable pub top_loop : ℕ → Progress → Parser MetaError Progress
top_loop zero p s = err out_of_fuel
top_loop (suc n) p [] = ok (p, [])
top_loop (suc n) p (b ∷ s) =
    (read_field_header >>= λ header.
    if (header.0 == type_object) && (header.1 == 1)
    then pure p
    else top_field header.0 header.1 p >>= λ p'. top_loop n p')
      (b ∷ s)

unfoldable pub summary_of : Result MetaError (Progress × List ℕ) → Result MetaError MetaSummary
summary_of (err e) = err e
summary_of (ok (p, s)) =
    if p.saw_affected_nodes
    then ok (record { affected_accounts = p.accounts; transaction_index = p.index })
    else err no_affected_nodes

unfoldable pub summarize_meta : List ℕ → Result MetaError MetaSummary
unfolding summary_of
summarize_meta meta_blob = summary_of (top_loop (suc (length meta_blob)) nothing_yet meta_blob)

unfoldable pub affected_accounts : List ℕ → Result MetaError (List AccountId)
affected_accounts meta_blob = elim (summarize_meta meta_blob) [
  | ok summary ↦ ok summary.affected_accounts
  | err e ↦ err e
]
