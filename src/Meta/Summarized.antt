-- ===== src/Meta/Summarized.antt =====
-- `summarize_meta` of crates/xrla-common/src/meta_decode.rs on the bytes of metadata.
use xrpl_ledger_archive.Prelude.Parser.{ok, err}
use xrpl_ledger_archive.Meta.AccountSet.{
  insert_all, IsAscending, insert_all-IsAscending, Memᴰ-insert_all, insert_all-append,
}
use xrpl_ledger_archive.Meta.Rule.{
  NodesAreObjects, rule_accounts, rule_index, has_affected_nodes, top_accounts, gather, IsMetadata,
  is_affected_nodes,
}
use xrpl_ledger_archive.Meta.Summary.{
  Progress, summarize_meta, MetaSummary, nothing_yet, summary_of,
}
use xrpl_ledger_archive.Meta.{AccountId, type_object, no_affected_nodes}
use xrpl_ledger_archive.Meta.Tree.{end, field, Fields, AreFields, encode_fields}
use xrpl_ledger_archive.Prelude.{
  suc, [], true, false, none, inl, inr, ◌≡◌, length, ◌∙◌, ◌||◌, refl, sym, Bool, ◌↔◌, arith, ap,
}
use mathlib.Core.List.{Memᴰ}
use mathlib.Core.List.Memᴰ
use xrpl_ledger_archive.Meta.TopFields.{step, steps, top_loop-encode_fields}

-- The fields of the final state.
steps_accounts :
    (m : Fields) (p : Progress) → (steps m p).accounts ≡ insert_all p.accounts (rule_accounts m)
unfolding rule_accounts gather
steps_accounts end p = refl
steps_accounts (field f v fs) p =
    steps_accounts fs (step f v p)
    ∙ sym (insert_all-append p.accounts (top_accounts f v) (gather top_accounts fs))

steps_index : (m : Fields) (p : Progress) → (steps m p).index ≡ rule_index m p.index
unfolding rule_index
steps_index end p = refl
steps_index (field f v fs) p = steps_index fs (step f v p)

steps_saw :
    (m : Fields) (p : Progress)
    → (steps m p).saw_affected_nodes ≡ (has_affected_nodes m || p.saw_affected_nodes)
unfolding has_affected_nodes
steps_saw end p = refl
steps_saw (field f v fs) p =
    steps_saw fs (step f v p)
    ∙ or_swap (is_affected_nodes f v) (has_affected_nodes fs) p.saw_affected_nodes
  where
    or_swap : (a b c : Bool) → (b || (a || c)) ≡ ((a || b) || c)
    or_swap true true c = refl
    or_swap true false c = refl
    or_swap false b c = refl

-- What a summary has to say of the metadata `m`.
pub record Summarizes (m : Fields) (summary : MetaSummary) : Type 0 where
  pub ascending : IsAscending summary.affected_accounts
  pub exact : (a : AccountId) → Memᴰ a summary.affected_accounts ↔ Memᴰ a (rule_accounts m)
  pub index : summary.transaction_index ≡ rule_index m none

abbrev summary_from : Progress → MetaSummary
summary_from p = record { affected_accounts = p.accounts; transaction_index = p.index }

Summarizes-steps : (m : Fields) → Summarizes m (summary_from (steps m nothing_yet))
Summarizes-steps m = record {
  ascending = rw (steps_accounts m nothing_yet) (insert_all-IsAscending [] (rule_accounts m) tt);
  exact = λ a. rw (steps_accounts m nothing_yet) (
    λ h. elim ((Memᴰ-insert_all a [] (rule_accounts m)).0 h) [
      | inl none_in ↦ absurd (Memᴰ.not-nil none_in)
      | inr h' ↦ h'
    ],
    λ h. (Memᴰ-insert_all a [] (rule_accounts m)).1 (inr h),
  );
  index = steps_index m nothing_yet;
}

summarize_meta-steps :
    (m : Fields)
    → AreFields type_object m
    → NodesAreObjects m
    → summarize_meta (encode_fields m) ≡ summary_of (ok (steps m nothing_yet, []))
unfolding summarize_meta
summarize_meta-steps m h o =
    ap summary_of
      (top_loop-encode_fields m (suc (length (encode_fields m))) nothing_yet h o (omega arith))

-- The summary of the bytes of metadata holds just the accounts that the rule of xrpld names, each
-- once and in ascending order, with the metadata's last transaction index, whatever else the
-- metadata holds: if its parts have the format's sizes and it has an AffectedNodes of objects.
pub summarize_meta-encode_fields :
    (m : Fields)
    → IsMetadata m
    → (summary : MetaSummary) × (summarize_meta (encode_fields m) ≡ ok summary)
      × Summarizes m summary
summarize_meta-encode_fields m h =
    let saw : (steps m nothing_yet).saw_affected_nodes ≡ true =
      steps_saw m nothing_yet ∙ rw h.present refl in
    (
      summary_from (steps m nothing_yet),
      summarize_meta-steps m h.sizes h.nodes ∙ unfold summary_of in rw saw refl,
      Summarizes-steps m,
    )

-- Metadata without AffectedNodes is an error, never a summary of no accounts.
pub summarize_meta-no_affected_nodes :
    (m : Fields)
    → AreFields type_object m
    → has_affected_nodes m ≡ false
    → NodesAreObjects m
    → summarize_meta (encode_fields m) ≡ err no_affected_nodes
summarize_meta-no_affected_nodes m h none_there o =
    let saw : (steps m nothing_yet).saw_affected_nodes ≡ false =
      steps_saw m nothing_yet ∙ rw none_there refl in
    summarize_meta-steps m h o ∙ unfold summary_of in rw saw refl
