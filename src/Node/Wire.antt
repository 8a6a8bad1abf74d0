-- ===== src/Node/Wire.antt =====
-- Wire bytes of a node: the content, then the type byte.
use xrpl_ledger_archive.Prelude.{ℕ, ◌≡◌, refl, ap, ◌∙◌, List, [], ◌∷◌, ◌++◌, arith, ◌↔◌, subst₂}
use xrpl_ledger_archive.Prelude.Parser.{ok}
use xrpl_ledger_archive.Node.{
  Hash256, NodeType, transaction, account_state, inner, compressed_inner, transaction_with_meta,
  ShaMapNode, try_from, type_byte, to_wire_bytes, from_wire_bytes, with_type, last_byte,
  all_but_last,
}

-- `try_from` reads back every type byte.
pub try_from-type_byte : (t : NodeType) → try_from (type_byte t) ≡ ok t
unfolding try_from type_byte
try_from-type_byte transaction = refl
try_from-type_byte account_state = refl
try_from-type_byte inner = refl
try_from-type_byte compressed_inner = refl
try_from-type_byte transaction_with_meta = refl

split_last : (b : ℕ) (bs : List ℕ) → all_but_last b bs ++ (last_byte b bs ∷ []) ≡ b ∷ bs
unfolding all_but_last last_byte
split_last b [] = refl
split_last b (c ∷ bs) = ap (λ xs. b ∷ xs) (split_last c bs)

-- `from_wire_bytes` reads the type off the end.
from_wire_snoc :
    (hash : Hash256) (xs : List ℕ) (v : ℕ)
    → from_wire_bytes hash (xs ++ (v ∷ [])) ≡ with_type hash xs (try_from v)
unfolding from_wire_bytes
from_wire_snoc hash [] v = refl
from_wire_snoc hash (x ∷ xs) v = cc (parts x xs)
  where
    lasts : (b : ℕ) (bs : List ℕ) → last_byte b (bs ++ (v ∷ [])) ≡ v
    lasts b [] = refl
    lasts b (c ∷ bs) = lasts c bs

    inits : (b : ℕ) (bs : List ℕ) → all_but_last b (bs ++ (v ∷ [])) ≡ b ∷ bs
    inits b [] = refl
    inits b (c ∷ bs) = ap (λ ys. b ∷ ys) (inits c bs)

    parts :
        (b : ℕ) (bs : List ℕ)
        → with_type hash (all_but_last b (bs ++ (v ∷ []))) (try_from (last_byte b (bs ++ (v ∷ []))))
          ≡ with_type hash (b ∷ bs) (try_from v)
    parts b bs = cc (lasts b bs, inits b bs)

from_wire_bytes-to_wire_bytes :
    (node : ShaMapNode) → from_wire_bytes node.hash (to_wire_bytes node) ≡ ok node
unfolding to_wire_bytes
from_wire_bytes-to_wire_bytes node =
    from_wire_snoc node.hash node.content (type_byte node.node_type)
    ∙ rw (try_from-type_byte node.node_type) (unfold with_type in refl)

with_type-ok :
    (hash : Hash256) (content : List ℕ) (v : ℕ) (node : ShaMapNode)
    → with_type hash content (try_from v) ≡ ok node
    → (to_wire_bytes node ≡ content ++ (v ∷ [])) × (node.hash ≡ hash)
unfolding with_type to_wire_bytes try_from type_byte
with_type-ok hash content v node h = ground arith

to_wire_bytes-from_wire_bytes :
    (hash : Hash256) (wire : List ℕ) (node : ShaMapNode)
    → from_wire_bytes hash wire ≡ ok node
    → (to_wire_bytes node ≡ wire) × (node.hash ≡ hash)
unfolding from_wire_bytes
to_wire_bytes-from_wire_bytes hash [] node h = cc h
to_wire_bytes-from_wire_bytes hash (b ∷ bs) node h =
    let (wire, same) = with_type-ok hash (all_but_last b bs) (last_byte b bs) node h in
    (wire ∙ split_last b bs, same)

-- Bytes are read as a node under a hash just when they are the wire bytes of that node and the hash
-- is its own: a node is read back from its wire bytes, and nothing else is read as it.
pub from_wire_bytes_iff :
    (hash : Hash256) (wire : List ℕ) (node : ShaMapNode)
    → (from_wire_bytes hash wire ≡ ok node) ↔ ((to_wire_bytes node ≡ wire) × (node.hash ≡ hash))
from_wire_bytes_iff hash wire node = (
  to_wire_bytes-from_wire_bytes hash wire node,
  λ p. subst₂ (λ h w. from_wire_bytes h w ≡ ok node) p.1 p.0 (from_wire_bytes-to_wire_bytes node),
)

-- What is read carries the hash it was read under.
pub hash-from_wire_bytes :
    (hash : Hash256) (wire : List ℕ) (node : ShaMapNode)
    → from_wire_bytes hash wire ≡ ok node
    → node.hash ≡ hash
hash-from_wire_bytes hash wire node e = ((from_wire_bytes_iff hash wire node).0 e).1
