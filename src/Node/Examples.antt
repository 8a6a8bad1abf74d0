-- ===== src/Node/Examples.antt =====
-- Runs of the node layouts.
use xrpl_ledger_archive.Node.Wire.{from_wire_bytes_iff}
use xrpl_ledger_archive.Prelude.Parser.{ok}
use xrpl_ledger_archive.Node.Inner.{
  IsChild, full_bytes, compressed_bytes, from_compressed_bytes-from_full_bytes,
  from_full_bytes-full_bytes,
}
use xrpl_ledger_archive.Prelude.{
  ℕ, All, replicate, ◌≡◌, some, ◌≢◌, ◌∷◌, arith, refl, [], none, suc, zero, ◌↔◌,
}
use xrpl_ledger_archive.Node.{
  ShaMapNode, from_wire_bytes, to_wire_bytes, InnerNode, from_full_bytes, from_compressed_bytes,
  account_state, with_type, last_byte, all_but_last, try_from,
}

abbrev leaf : ShaMapNode
leaf = record { hash = replicate 32 1; node_type = account_state; content = 5 ∷ 6 ∷ [] }

from_wire_bytes_iff_example :
    (from_wire_bytes leaf.hash (5 ∷ 6 ∷ 1 ∷ []) ≡ ok leaf)
    ↔ ((to_wire_bytes leaf ≡ 5 ∷ 6 ∷ 1 ∷ []) × (leaf.hash ≡ replicate 32 1))
from_wire_bytes_iff_example = from_wire_bytes_iff leaf.hash (5 ∷ 6 ∷ 1 ∷ []) leaf

leaf_runs : from_wire_bytes leaf.hash (5 ∷ 6 ∷ 1 ∷ []) ≡ ok leaf
unfolding from_wire_bytes with_type last_byte all_but_last try_from
leaf_runs = refl

-- Children at slots 0 and 2.
abbrev two_children : InnerNode
two_children = record {
  children = some (replicate 32 9) ∷ none ∷ some (replicate 32 8) ∷ replicate 13 none;
}

child : (b : ℕ) → b ≢ 0 → IsChild (some (replicate 32 b))
child b h = (refl, λ e. h (cc e))

none-IsChild : (n : ℕ) → All IsChild (replicate n none)
none-IsChild zero = tt
none-IsChild (suc n) = (tt, none-IsChild n)

two_children-IsChild : All IsChild two_children.children
two_children-IsChild =
    (child 9 (λ e. omega (arith, e)), (tt, (child 8 (λ e. omega (arith, e)), none-IsChild 13)))

from_full_bytes-full_bytes_example :
    from_full_bytes (full_bytes two_children.children) ≡ ok two_children
from_full_bytes-full_bytes_example =
    from_full_bytes-full_bytes two_children refl two_children-IsChild

from_compressed_bytes-from_full_bytes_example :
    from_compressed_bytes (compressed_bytes 0 two_children.children)
    ≡ from_full_bytes (full_bytes two_children.children)
from_compressed_bytes-from_full_bytes_example =
    from_compressed_bytes-from_full_bytes two_children refl two_children-IsChild
