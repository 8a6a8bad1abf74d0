-- ===== src/Meta/SummaryEnds.antt =====
-- `summarize_meta` of crates/xrla-common/src/meta_decode.rs on any bytes: every loop ends, and the
-- accounts of a summary are account ids, each once.
use xrpl_ledger_archive.Meta.AccountSet.{
  IsAscending, insert_account-IsAscending, All-insert_account,
}
use xrpl_ledger_archive.Meta.Settles.{
  Settles, Any, Settles-bind, Settles-after, Settles-if, Settles-by_length, Settles-pure,
  Settles-take_bytes, Settles-fail, Settles-nothing, Settles-cons,
}
use xrpl_ledger_archive.Meta.Summary.{
  fields_loop, collect_field, collect_inner, node_field, collect_node, affected_node,
  collect_affected_nodes, Progress, top_field, top_loop, insert_some, has_issuer_field, MetaSummary,
  summary_of, nothing_yet, summarize_meta,
}
use xrpl_ledger_archive.Prelude.Parser.{Parser, ◌>>◌, pure, err, ok, Result}
use xrpl_ledger_archive.Meta.Skip.{skip_value}
use xrpl_ledger_archive.Meta.{
  MetaError, AccountId, out_of_fuel, not_an_object, mpt_issuer, type_account, type_object,
  type_array, type_amount, f_affected_nodes, type_uint32, type_uint192, f_transaction_index,
  f_mpt_issuance_id,
}
use xrpl_ledger_archive.Prelude.{
  zero, suc, some, none, ℕ, Option, List, length, ◌≡◌, ◌==◌, arith, All, ◌≢◌, subst, ◌&&◌, not,
  refl, if-cases,
}
use xrpl_ledger_archive.Meta.Ends.{
  Advances-read_field_header, IsId, IsId-mpt_issuer, Settles-read_account, Settles-read_amount,
  Settles-skip_value,
}

-- Account ids, each once and in ascending order.
pub record AreAccounts (out : List AccountId) : Type 0 where
  pub ascending : IsAscending out
  pub ids : All (λ a. length a ≡ 20) out

AreAccounts-insert_some :
    (a : Option AccountId) (out : List AccountId)
    → IsId a
    → AreAccounts out
    → AreAccounts (insert_some a out)
AreAccounts-insert_some none out h k = k
AreAccounts-insert_some (some a) out h k = record {
  ascending = insert_account-IsAscending a out k.ascending;
  ids = All-insert_account _ a out h k.ids;
}

Settles-fields_loop :
    (on_field : ℕ → ℕ → List AccountId → Parser MetaError (List AccountId))
    → ((n t f : ℕ) (out : List AccountId)
        → AreAccounts out
        → Settles n AreAccounts (on_field t f out))
    → (c n : ℕ) (out : List AccountId) → AreAccounts out
    → Settles n AreAccounts (fields_loop on_field c n out)
unfolding fields_loop
Settles-fields_loop on_field h c zero out k = Settles-nothing _
Settles-fields_loop on_field h c (suc n) out k =
    Settles-after Any _ _ Advances-read_field_header λ header u.
      Settles-if ((header.0 == c) && (header.1 == 1)) (Settles-pure out k) (
        Settles-bind AreAccounts _ _ (h n header.0 header.1 out k)
          λ out' k'. Settles-fields_loop on_field h c n out' k')

Settles-or_skip :
    {n : ℕ} {A : Type 0} {Q : A → Type 0} (t : ℕ) (a : A)
    → Q a
    → Settles n Q (skip_value t >> pure a)
Settles-or_skip t a h = Settles-bind Any _ _ (Settles-skip_value t) λ u u'. Settles-pure a h

Settles-collect_field :
    (n t f : ℕ) (out : List AccountId)
    → AreAccounts out
    → Settles n AreAccounts (collect_field t f out)
unfolding collect_field
Settles-collect_field n t f out k =
    Settles-if (t == type_account)
      (Settles-bind IsId _ _ Settles-read_account
        λ a h. Settles-pure _ (AreAccounts-insert_some a out h k))
      (Settles-if ((t == type_amount) && has_issuer_field f)
        (Settles-bind IsId _ _ Settles-read_amount
          λ a h. Settles-pure _ (AreAccounts-insert_some a out h k))
        (Settles-if ((t == type_uint192) && (f == f_mpt_issuance_id))
          (Settles-bind _ _ _ (Settles-take_bytes 24) λ id h.
            Settles-pure _ (AreAccounts-insert_some (mpt_issuer id) out (IsId-mpt_issuer id) k))
          (Settles-or_skip t out k)))

Settles-collect_inner :
    {n : ℕ} (out : List AccountId) → AreAccounts out → Settles n AreAccounts (collect_inner out)
unfolding collect_inner
Settles-collect_inner out k =
    Settles-by_length (λ n. fields_loop collect_field type_object n out)
      λ n. Settles-fields_loop collect_field Settles-collect_field type_object n out k

Settles-node_field :
    (wanted n t f : ℕ) (out : List AccountId)
    → AreAccounts out
    → Settles n AreAccounts (node_field wanted t f out)
unfolding node_field
Settles-node_field wanted n t f out k =
    Settles-if ((t == type_object) && (f == wanted)) (Settles-collect_inner out k)
      (Settles-or_skip t out k)

Settles-collect_node :
    {n : ℕ} (wanted : ℕ) (out : List AccountId)
    → AreAccounts out
    → Settles n AreAccounts (collect_node wanted out)
unfolding collect_node
Settles-collect_node wanted out k =
    Settles-by_length (λ n. fields_loop (node_field wanted) type_object n out)
      λ n. Settles-fields_loop (node_field wanted) (Settles-node_field wanted) type_object n out k

Settles-affected_node :
    (n t f : ℕ) (out : List AccountId)
    → AreAccounts out
    → Settles n AreAccounts (affected_node t f out)
unfolding affected_node
Settles-affected_node n t f out k =
    Settles-if (not (t == type_object)) (Settles-fail (not_an_object t) (λ e. cc))
      (Settles-collect_node _ out k)

Settles-collect_affected_nodes :
    {n : ℕ} (out : List AccountId)
    → AreAccounts out
    → Settles n AreAccounts (collect_affected_nodes out)
unfolding collect_affected_nodes
Settles-collect_affected_nodes out k =
    Settles-by_length (λ n. fields_loop affected_node type_array n out)
      λ n. Settles-fields_loop affected_node Settles-affected_node type_array n out k

abbrev Sound : Progress → Type 0
Sound p = AreAccounts p.accounts

Settles-top_field : {n : ℕ} (t f : ℕ) (p : Progress) → Sound p → Settles n Sound (top_field t f p)
unfolding top_field
Settles-top_field t f p k =
    Settles-if ((t == type_array) && (f == f_affected_nodes))
      (Settles-bind AreAccounts _ _ (Settles-collect_affected_nodes p.accounts k)
        λ out h. Settles-pure _ h)
      (Settles-if ((t == type_uint32) && (f == f_transaction_index))
        (Settles-bind _ _ _ (Settles-take_bytes 4) λ b h. Settles-pure _ k) (Settles-or_skip t p k))

Settles-top_loop : (n : ℕ) (p : Progress) → Sound p → Settles n Sound (top_loop n p)
unfolding top_loop
Settles-top_loop zero p k = Settles-nothing _
Settles-top_loop (suc n) p k =
    Settles-cons (top_loop (suc n) p) _ (λ b s. refl) (λ e. cc)
      (λ a t e. let same : p ≡ a = cc e in (subst Sound same k, cc e))
      (Settles-after Any _ _ Advances-read_field_header λ header u.
        Settles-if ((header.0 == type_object) && (header.1 == 1)) (Settles-pure p k) (
          Settles-bind Sound _ _ (Settles-top_field header.0 header.1 p k)
            λ p' k'. Settles-top_loop n p' k'))

abbrev IsSummary : MetaSummary → Type 0
IsSummary summary = AreAccounts summary.affected_accounts

summary_of-ne-out_of_fuel :
    (r : Result MetaError (Progress × List ℕ))
    → r ≢ err out_of_fuel
    → summary_of r ≢ err out_of_fuel
unfolding summary_of
summary_of-ne-out_of_fuel (err e) h q = h (cc q)
summary_of-ne-out_of_fuel (ok (p, s)) h q =
    if-cases p.saw_affected_nodes q (λ a e. cc e) (λ a e. cc e)

summary_of-IsSummary :
    (r : Result MetaError (Progress × List ℕ)) (summary : MetaSummary)
    → ((p : Progress) (s : List ℕ) → r ≡ ok (p, s) → Sound p)
    → summary_of r ≡ ok summary
    → IsSummary summary
unfolding summary_of
summary_of-IsSummary (err e) summary h q = cc
summary_of-IsSummary (ok (p, s)) summary h q =
    if-cases p.saw_affected_nodes q
      (λ a e.
        let same : p.accounts ≡ summary.affected_accounts = cc e in
        subst AreAccounts same (h p s refl))
      (λ a e. cc e)

start_Sound : Sound nothing_yet
start_Sound = record { ascending = tt; ids = tt }

-- On any bytes whatever the loops of `summarize_meta` end within one round for each byte.
pub summarize_meta-ne-out_of_fuel :
    (meta_blob : List ℕ) → summarize_meta meta_blob ≢ err out_of_fuel
unfolding summarize_meta
summarize_meta-ne-out_of_fuel meta_blob = summary_of-ne-out_of_fuel _ (
    (Settles-top_loop (suc (length meta_blob)) nothing_yet start_Sound).ends meta_blob
      (omega arith))

-- Whatever bytes are summarized, malformed ones too, the affected accounts are ids of 20 bytes in
-- strictly ascending order.
pub summarize_meta-AreAccounts :
    (meta_blob : List ℕ) (summary : MetaSummary)
    → summarize_meta meta_blob ≡ ok summary
    → AreAccounts summary.affected_accounts
unfolding summarize_meta
summarize_meta-AreAccounts meta_blob summary = summary_of-IsSummary _ summary λ p s e.
    (Settles-top_loop (suc (length meta_blob)) nothing_yet start_Sound).post meta_blob p s
      (omega arith) e
