-- ===== src/Meta/Rule.antt =====
-- The rule at the head of crates/xrla-common/src/meta_decode.rs, `TxMeta::getAffectedAccounts`, on
-- the trees of fields that metadata stands for: which accounts a transaction affected.
use xrpl_ledger_archive.Meta.Reads.{issuer_of}
use xrpl_ledger_archive.Prelude.Bytes.{from_be}
use xrpl_ledger_archive.Meta.{AccountId, type_object, nonzero}
use xrpl_ledger_archive.Meta.Tree.{
  fixed, amount, account, object, array, end, field, uint192, uint32, Fields, Value, AreFields,
}
use xrpl_ledger_archive.Prelude.{
  [], ◌∷◌, ◌++◌, true, false, some, none, Option, ℕ, List, Bool, ◌==◌, if◌then◌else◌, ◌||◌, ◌≡◌,
  leb, ◌&&◌, drop,
}

abbrev pub to_list : Option AccountId → List AccountId
to_list none = []
to_list (some a) = a ∷ []

-- What the fields of an object contribute, one level deep.
unfoldable pub gather : (ℕ → Value → List AccountId) → Fields → List AccountId
gather one end = []
gather one (field f v fs) = one f v ++ gather one fs

-- A field of NewFields or FinalFields: an account that is not empty; the issuer of TakerPays,
-- TakerGets, LowLimit or HighLimit; the issuer inside MPTokenIssuanceID.
unfoldable pub inner_accounts : ℕ → Value → List AccountId
inner_accounts f (account a) = to_list a
inner_accounts f (amount a) = if leb 4 f && leb f 7 then to_list (issuer_of a) else []
inner_accounts f (fixed uint192 id) = if f == 1 then to_list (nonzero (drop 4 id)) else []
inner_accounts f _ = []

unfoldable pub node_accounts : ℕ → ℕ → Value → List AccountId
node_accounts wanted f (object fs) = if f == wanted then gather inner_accounts fs else []
node_accounts wanted f _ = []

-- NewFields of a CreatedNode, FinalFields of a ModifiedNode or a DeletedNode.
unfoldable pub affected_node_accounts : ℕ → Value → List AccountId
affected_node_accounts f (object fs) = gather (node_accounts (if f == 3 then 8 else 7)) fs
affected_node_accounts f _ = []

-- A field of the metadata: AffectedNodes, TransactionIndex, or another.
unfoldable pub top_accounts : ℕ → Value → List AccountId
top_accounts f (array fs) = if f == 8 then gather affected_node_accounts fs else []
top_accounts f _ = []

unfoldable pub index_after : ℕ → Value → Option ℕ → Option ℕ
index_after f (fixed uint32 bs) old = if f == 28 then some (from_be bs) else old
index_after f _ old = old

unfoldable pub is_affected_nodes : ℕ → Value → Bool
is_affected_nodes f (array fs) = f == 8
is_affected_nodes f _ = false

-- The affected accounts, with repetitions and in the order of the metadata.
unfoldable pub rule_accounts : Fields → List AccountId
rule_accounts m = gather top_accounts m

-- The last TransactionIndex.
unfoldable pub rule_index : Fields → Option ℕ → Option ℕ
rule_index end old = old
rule_index (field f v fs) old = rule_index fs (index_after f v old)

unfoldable pub has_affected_nodes : Fields → Bool
has_affected_nodes end = false
has_affected_nodes (field f v fs) = is_affected_nodes f v || has_affected_nodes fs

-- The elements of AffectedNodes are objects.
unfoldable pub AreObjects : Fields → Type 0
AreObjects end = Unit
AreObjects (field f (object fs) rest) = AreObjects rest
AreObjects (field f _ rest) = ⊥

unfoldable pub NodesAreObjects : Fields → Type 0
NodesAreObjects end = Unit
NodesAreObjects (field f (array fs) rest) = ((f == 8) ≡ true → AreObjects fs) × NodesAreObjects rest
NodesAreObjects (field f _ rest) = NodesAreObjects rest

-- Metadata: fields of the format's sizes, with an AffectedNodes whose elements are objects.
pub record IsMetadata (m : Fields) : Type 0 where
  pub sizes : AreFields type_object m
  pub nodes : NodesAreObjects m
  pub present : has_affected_nodes m ≡ true
