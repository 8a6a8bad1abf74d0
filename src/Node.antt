-- ===== src/Node.antt =====
-- SHAMap nodes, crates/xrla-common/src/shamap.rs: node types and their wire bytes, and the two
-- layouts of an inner node.
pub mod Wire
pub mod Inner
pub mod Sixteen
mod Examples
use xrpl_ledger_archive.Prelude.{
  ℕ, zero, suc, ◌+◌, ◌-◌, ◌*◌, ◌%◌, ◌<◌, Bool, true, false, not, ◌&&◌, ◌||◌, Option, none, some,
  List, [], ◌∷◌, ◌++◌, ltb, leb, ◌==◌, if◌then◌else◌, length, take, drop, replicate, get_elem?, set,
  list_eq,
}
use xrpl_ledger_archive.Prelude.Parser.{Result, ok, err}

-- `[u8; 32]`
abbrev pub Hash256 : Type 0
Hash256 = List ℕ

abbrev pub zero_hash : Hash256
zero_hash = replicate 32 0

pub data NodeType : Type 0 where
  transaction account_state inner compressed_inner transaction_with_meta : NodeType

pub data ShaMapError : Type 0 where
  unknown_node_type : ℕ → ShaMapError
  invalid_encoding : ShaMapError
  node_not_found : ShaMapError

unfoldable pub is_inner : NodeType → Bool
is_inner inner = true
is_inner compressed_inner = true
is_inner _ = false

unfoldable pub is_leaf : NodeType → Bool
unfolding is_inner
is_leaf t = not (is_inner t)

-- `TryFrom<u8> for NodeType`
unfoldable pub try_from : ℕ → Result ShaMapError NodeType
try_from v =
    if v == 0
    then ok transaction
    else if v == 1
    then ok account_state
    else if v == 2
    then ok inner
    else if v == 3
    then ok compressed_inner
    else if v == 4
    then ok transaction_with_meta
    else err (unknown_node_type v)

-- `From<&NodeType> for u8`
unfoldable pub type_byte : NodeType → ℕ
type_byte transaction = 0
type_byte account_state = 1
type_byte inner = 2
type_byte compressed_inner = 3
type_byte transaction_with_meta = 4

pub record ShaMapNode : Type 0 where
  pub hash : Hash256
  pub node_type : NodeType
  pub content : List ℕ

unfoldable pub to_wire_bytes : ShaMapNode → List ℕ
unfolding type_byte
to_wire_bytes node = node.content ++ (type_byte node.node_type ∷ [])

-- `wire[wire.len() - 1]` and `wire[..wire.len() - 1]` of bytes that are not empty.
last_byte : ℕ → List ℕ → ℕ
last_byte b [] = b
last_byte b (c ∷ bs) = last_byte c bs

all_but_last : ℕ → List ℕ → List ℕ
all_but_last b [] = []
all_but_last b (c ∷ bs) = b ∷ all_but_last c bs

with_type : Hash256 → List ℕ → Result ShaMapError NodeType → Result ShaMapError ShaMapNode
with_type hash content (ok t) = ok (record { hash = hash; node_type = t; content = content })
with_type hash content (err e) = err e

unfoldable pub from_wire_bytes : Hash256 → List ℕ → Result ShaMapError ShaMapNode
unfolding with_type last_byte all_but_last try_from
from_wire_bytes hash [] = err invalid_encoding
from_wire_bytes hash (b ∷ bs) = with_type hash (all_but_last b bs) (try_from (last_byte b bs))

-- The sixteen children of an inner node, by nibble: `[Option<Hash256>; 16]`.
pub record InnerNode : Type 0 where
  pub children : List (Option Hash256)

-- A zero hash is an empty slot.
unfoldable pub child_of : Hash256 → Option Hash256
child_of hash = if list_eq hash zero_hash then none else some hash

-- The loop `for i in 0..16` over `n` slots that are left, `content` from the next offset on.
unfoldable pub full_slots : ℕ → List ℕ → List (Option Hash256)
full_slots zero content = []
full_slots (suc n) content = child_of (take 32 content) ∷ full_slots n (drop 32 content)

unfoldable pub from_full_bytes : List ℕ → Result ShaMapError InnerNode
from_full_bytes content =
    if length content == 512
    then ok (record { children = full_slots 16 content })
    else err invalid_encoding

-- `if hash != ZERO_HASH { children[pos] = Some(hash) }`
unfoldable pub put_child : List (Option Hash256) → ℕ → Hash256 → List (Option Hash256)
put_child children pos hash =
    if list_eq hash zero_hash then children else set children pos (some hash)

-- The `while` loop on at most `n` entries: the hash, then its position.
unfoldable pub compressed_slots :
    ℕ → List ℕ → List (Option Hash256) → Result ShaMapError (List (Option Hash256))
compressed_slots zero content children = ok children
compressed_slots (suc n) content children = elim (get_elem? content 32) [
  | none ↦ ok children
  | some pos ↦
      if leb 16 pos
      then err invalid_encoding
      else compressed_slots n (drop 33 content) (put_child children pos (take 32 content))
]

into_inner : Result ShaMapError (List (Option Hash256)) → Result ShaMapError InnerNode
into_inner (ok children) = ok (record { children = children })
into_inner (err e) = err e

-- The length is a multiple of 33 and at most 33 * 16, so sixteen rounds read all of it.
unfoldable pub from_compressed_bytes : List ℕ → Result ShaMapError InnerNode
unfolding into_inner
from_compressed_bytes content =
    if not (length content % 33 == 0) || ltb (33 * 16) (length content)
    then err invalid_encoding
    else into_inner (compressed_slots 16 content (replicate 16 none))

unfoldable pub from_node : ShaMapNode → Result ShaMapError InnerNode
unfolding from_full_bytes from_compressed_bytes
from_node node = elim node.node_type [
  | inner ↦ from_full_bytes node.content
  | compressed_inner ↦ from_compressed_bytes node.content
  | _ ↦ err invalid_encoding
]

some_children : List (Option Hash256) → List Hash256
some_children [] = []
some_children (none ∷ cs) = some_children cs
some_children (some h ∷ cs) = h ∷ some_children cs

unfoldable pub child_hashes : InnerNode → List Hash256
unfolding some_children
child_hashes node = some_children node.children

-- The difference between two ledgers' states.
pub record ShaMapDiff : Type 0 where
  pub added : List ShaMapNode
  pub deleted : List Hash256
