-- ===== src/Meta/NodesCollected.antt =====
-- The loops over nodes of crates/xrla-common/src/meta_decode.rs on the encoding of fields.
use xrpl_ledger_archive.Meta.Skipped.{of_object, of_array}
use xrpl_ledger_archive.Meta.AccountSet.{insert_all}
use xrpl_ledger_archive.Prelude.Parser.{Reads}
use xrpl_ledger_archive.Meta.Rule.{gather, AreObjects, node_accounts, affected_node_accounts}
use xrpl_ledger_archive.Meta.Summary.{
  node_field, collect_node, affected_node, collect_affected_nodes,
}
use xrpl_ledger_archive.Meta.{AccountId, type_object, type_array}
use xrpl_ledger_archive.Meta.Tree.{
  fixed, blob, object, end, field, uint8, Fields, Value, IsValue, type_of, encode_value, code_of,
  AreFields, encode_fields, end_marker,
}
use xrpl_ledger_archive.Prelude.{◌++◌, inl, inr, ℕ, List, Bool-cases, ◌==◌, if◌then◌else◌}
use xrpl_ledger_archive.Meta.Collected.{
  Each, Anything, Each-Anything, Reads-skipped, Reads-collect_inner, Reads-loop,
}

Reads-node_field :
    (wanted f : ℕ) (v : Value)
    → IsValue v
    → Unit {0}
    → (out : List AccountId)
    → Reads
        (node_field wanted (type_of v) f out)
        (encode_value v)
        (insert_all out (node_accounts wanted f v))
unfolding node_field node_accounts type_of encode_value IsValue code_of
Reads-node_field wanted f (object fs) h u out = elim (Bool-cases (f == wanted)) [
  | inl is ↦ rw is (Reads-collect_inner fs out h)
  | inr not ↦ rw not (Reads-skipped (object fs) out h)
]
Reads-node_field wanted f (fixed uint8 bs) h u out = Reads-skipped (fixed uint8 bs) out h
Reads-node_field wanted f (fixed t bs) h u out = Reads-skipped (fixed t bs) out h
Reads-node_field wanted f (blob bs) h u out = Reads-skipped (blob bs) out h
Reads-node_field wanted f v h u out = Reads-skipped v out h

Reads-collect_node :
    (wanted : ℕ) (fs : Fields) (out : List AccountId)
    → AreFields type_object fs
    → Reads
        (collect_node wanted out)
        (encode_fields fs ++ end_marker type_object)
        (insert_all out (gather (node_accounts wanted) fs))
unfolding collect_node
Reads-collect_node wanted fs out h =
    Reads-loop (node_field wanted) (node_accounts wanted) Anything (Reads-node_field wanted)
      type_object of_object fs h (Each-Anything fs) out

abbrev IsObject : ℕ → Value → Type 0
IsObject f (object fs) = Unit
IsObject f _ = ⊥

Each-IsObject : (fs : Fields) → AreObjects fs → Each IsObject fs
unfolding AreObjects
Each-IsObject end h = tt
Each-IsObject (field f (object gs) fs) h = (tt, Each-IsObject fs h)
Each-IsObject (field f (blob bs) fs) h = absurd h
Each-IsObject (field f v fs) h = absurd h

Reads-affected_node :
    (f : ℕ) (v : Value)
    → IsValue v
    → IsObject f v
    → (out : List AccountId)
    → Reads
        (affected_node (type_of v) f out)
        (encode_value v)
        (insert_all out (affected_node_accounts f v))
unfolding affected_node affected_node_accounts type_of encode_value IsValue
Reads-affected_node f (object fs) h o out = Reads-collect_node (if f == 3 then 8 else 7) fs out h
Reads-affected_node f (blob bs) h o out = absurd o
Reads-affected_node f v h o out = absurd o

pub Reads-collect_affected_nodes :
    (fs : Fields) (out : List AccountId)
    → AreFields type_array fs
    → AreObjects fs
    → Reads
        (collect_affected_nodes out)
        (encode_fields fs ++ end_marker type_array)
        (insert_all out (gather affected_node_accounts fs))
unfolding collect_affected_nodes
Reads-collect_affected_nodes fs out h o =
    Reads-loop affected_node affected_node_accounts IsObject Reads-affected_node type_array of_array
      fs h (Each-IsObject fs o) out
