-- ===== src/Node/Inner.antt =====
-- The two layouts of an inner node, against a plain description of each.
use xrpl_ledger_archive.Prelude.{
  ◌||◌, not, ℕ, zero, suc, ◌+◌, ◌*◌, ◌%◌, ◌≤◌, ◌<◌, ◌≡◌, ◌≢◌, refl, sym, ap, ◌∙◌, Option, none,
  some, false, List, [], ◌∷◌, ◌++◌, append_assoc, arith, length, length-append, take, drop,
  replicate, get_elem?, set, All, take-append, drop-append, list_eq, list_eq→eq, leb, ltb, ==_iff,
  ◌==◌, ==_iff, Bool-cases, inl, inr,
}
use xrpl_ledger_archive.Prelude.Parser.{ok}
use xrpl_ledger_archive.Node.{
  Hash256, zero_hash, InnerNode, child_of, full_slots, from_full_bytes, put_child, compressed_slots,
  from_compressed_bytes,
}

-- A child that is there is a hash of 32 bytes, not all zero.
abbrev pub IsChild : Option Hash256 → Type 0
IsChild none = Unit
IsChild (some h) = (length h ≡ 32) × (h ≢ zero_hash)

-- Sixteen hashes back to back, zero for an empty slot.
abbrev pub slot_bytes : Option Hash256 → List ℕ
slot_bytes none = zero_hash
slot_bytes (some h) = h

unfoldable pub full_bytes : List (Option Hash256) → List ℕ
full_bytes [] = []
full_bytes (c ∷ cs) = slot_bytes c ++ full_bytes cs

length-slot_bytes : (c : Option Hash256) → IsChild c → length (slot_bytes c) ≡ 32
length-slot_bytes none h = refl
length-slot_bytes (some x) h = h.0

child_of-slot_bytes : (c : Option Hash256) → IsChild c → child_of (slot_bytes c) ≡ c
unfolding child_of
child_of-slot_bytes none h = refl
child_of-slot_bytes (some x) h = elim (Bool-cases (list_eq x zero_hash)) [
  | inl e ↦ absurd (h.1 (list_eq→eq x zero_hash e))
  | inr e ↦ rw e
]

length-full_bytes :
    (cs : List (Option Hash256)) → All IsChild cs → length (full_bytes cs) ≡ length cs * 32
unfolding full_bytes
length-full_bytes [] h = refl
length-full_bytes (c ∷ cs) h = omega (
  arith,
  length-append (slot_bytes c) (full_bytes cs),
  length-slot_bytes c h.0,
  length-full_bytes cs h.1,
)

full_slots-full_bytes :
    (cs : List (Option Hash256)) → All IsChild cs → full_slots (length cs) (full_bytes cs) ≡ cs
unfolding full_slots full_bytes
full_slots-full_bytes [] h = refl
full_slots-full_bytes (c ∷ cs) h = rw (
  take-append 32 (slot_bytes c) (full_bytes cs) (length-slot_bytes c h.0),
  drop-append 32 (slot_bytes c) (full_bytes cs) (length-slot_bytes c h.0),
  child_of-slot_bytes c h.0,
  full_slots-full_bytes cs h.1,
)

-- For sixteen children, each none or a hash of 32 bytes that is not the zero hash, the full
-- layout is read back as those children.
pub from_full_bytes-full_bytes :
    (node : InnerNode)
    → length node.children ≡ 16
    → All IsChild node.children
    → from_full_bytes (full_bytes node.children) ≡ ok node
unfolding from_full_bytes
from_full_bytes-full_bytes node h valid = rw (
  (==_iff (length (full_bytes node.children)) 512).1
      (omega (arith, length-full_bytes node.children valid)),
  slots,
)
  where
    slots : full_slots 16 (full_bytes node.children) ≡ node.children
    slots =
        ap (λ n. full_slots n (full_bytes node.children)) (sym h)
        ∙ full_slots-full_bytes node.children valid

-- Each child that is there: its hash, then its slot, from slot `i` on.
unfoldable pub compressed_bytes : ℕ → List (Option Hash256) → List ℕ
compressed_bytes i [] = []
compressed_bytes i (none ∷ cs) = compressed_bytes (suc i) cs
compressed_bytes i (some h ∷ cs) = h ++ (i ∷ compressed_bytes (suc i) cs)

abbrev count_children : List (Option Hash256) → ℕ
count_children [] = 0
count_children (none ∷ cs) = count_children cs
count_children (some h ∷ cs) = suc (count_children cs)

count_children-le : (cs : List (Option Hash256)) → count_children cs ≤ length cs
count_children-le [] = omega arith
count_children-le (none ∷ cs) = omega (arith, count_children-le cs)
count_children-le (some h ∷ cs) = omega (arith, count_children-le cs)

length-compressed_bytes :
    (i : ℕ) (cs : List (Option Hash256))
    → All IsChild cs
    → length (compressed_bytes i cs) ≡ count_children cs * 33
unfolding compressed_bytes
length-compressed_bytes i [] h = refl
length-compressed_bytes i (none ∷ cs) h = length-compressed_bytes (suc i) cs h.1
length-compressed_bytes i (some x ∷ cs) h = omega (
  arith,
  length-append x (i ∷ compressed_bytes (suc i) cs),
  length-compressed_bytes (suc i) cs h.1,
)

set-append_middle :
    {A : Type 0} (done : List A) (b c : A) (more : List A)
    → set (done ++ (b ∷ more)) (length done) c ≡ done ++ (c ∷ more)
set-append_middle [] b c more = refl
set-append_middle (x ∷ done) b c more = ap (λ ys. x ∷ ys) (set-append_middle done b c more)

get_elem?-append :
    (xs : List ℕ) (b : ℕ) (more : List ℕ) → get_elem? (xs ++ (b ∷ more)) (length xs) ≡ some b
get_elem?-append [] b more = refl
get_elem?-append (x ∷ xs) b more = get_elem?-append xs b more

drop-suc-append :
    (xs : List ℕ) (b : ℕ) (more : List ℕ) → drop (suc (length xs)) (xs ++ (b ∷ more)) ≡ more
drop-suc-append [] b more = refl
drop-suc-append (x ∷ xs) b more = drop-suc-append xs b more

-- One round of the loop on an entry for slot `i`.
compressed_slots_step :
    (n i : ℕ) (h : Hash256) (more : List ℕ) (children : List (Option Hash256))
    → length h ≡ 32
    → h ≢ zero_hash
    → i < 16
    → compressed_slots (suc n) (h ++ (i ∷ more)) children
      ≡ compressed_slots n more (set children i (some h))
unfolding compressed_slots put_child
compressed_slots_step n i h more children len nz lt =
    rw (at_slot, compressed_slots, big, after, hash, not_zero)
  where
    at_slot : get_elem? (h ++ (i ∷ more)) 32 ≡ some i
    at_slot = rw len at (get_elem?-append h i more)

    big : leb 16 i ≡ false
    big = ground arith

    after : drop 33 (h ++ (i ∷ more)) ≡ more
    after = rw len at (drop-suc-append h i more)

    hash : take 32 (h ++ (i ∷ more)) ≡ h
    hash = take-append 32 h (i ∷ more) len

    not_zero : list_eq h zero_hash ≡ false
    not_zero = elim (Bool-cases (list_eq h zero_hash)) [
      | inl e ↦ absurd (nz (list_eq→eq h zero_hash e))
      | inr e ↦ e
    ]

-- The slots before `i` are done, and the loop fills in the others.
compressed_slots-compressed_bytes :
    (n i : ℕ) (cs done : List (Option Hash256))
    → length done ≡ i
    → i + length cs ≤ 16
    → count_children cs ≤ n
    → All IsChild cs
    → compressed_slots n (compressed_bytes i cs) (done ++ replicate (length cs) none)
      ≡ ok (done ++ cs)
unfolding compressed_bytes
compressed_slots-compressed_bytes zero i [] done e le few h = unfold compressed_slots in refl
compressed_slots-compressed_bytes (suc n) i [] done e le few h = unfold compressed_slots in refl
compressed_slots-compressed_bytes n i (none ∷ cs) done e le few h =
    let ih =
      compressed_slots-compressed_bytes n (suc i) cs (done ++ (none ∷ []))
        (omega (arith, length-append done (none ∷ []))) (omega arith) few h.1 in
    rw (append_assoc, append_assoc) at ih
compressed_slots-compressed_bytes zero i (some x ∷ cs) done e le few h = absurd (omega arith)
compressed_slots-compressed_bytes (suc n) i (some x ∷ cs) done e le few h =
    compressed_slots_step n i x (compressed_bytes (suc i) cs) _ h.0.0 h.0.1 (omega arith)
    ∙ ap (compressed_slots n (compressed_bytes (suc i) cs)) placed
    ∙ (rw (append_assoc, append_assoc) at
        (compressed_slots-compressed_bytes n (suc i) cs (done ++ (some x ∷ []))
          (omega (arith, length-append done (some x ∷ []))) (omega arith) (omega arith) h.1))
  where
    placed :
        set (done ++ (none ∷ replicate (length cs) none)) i (some x)
        ≡ done ++ (some x ∷ replicate (length cs) none)
    placed = rw (← e) (set-append_middle done none (some x) (replicate (length cs) none))

-- For sixteen children, each none or a hash of 32 bytes that is not the zero hash, the compressed
-- layout is read as what the full layout is read as.
pub from_compressed_bytes-from_full_bytes :
    (node : InnerNode)
    → length node.children ≡ 16
    → All IsChild node.children
    → from_compressed_bytes (compressed_bytes 0 node.children)
      ≡ from_full_bytes (full_bytes node.children)
unfolding from_compressed_bytes
from_compressed_bytes-from_full_bytes node h valid =
    rw (fits, slots) (sym (from_full_bytes-full_bytes node h valid))
  where
    size : length (compressed_bytes 0 node.children) ≡ count_children node.children * 33
    size = length-compressed_bytes 0 node.children valid

    fits :
        (not (length (compressed_bytes 0 node.children) % 33 == 0)
          || ltb (33 * 16) (length (compressed_bytes 0 node.children)))
        ≡ false
    fits = ground (arith, size, count_children-le node.children)

    slots :
        compressed_slots 16 (compressed_bytes 0 node.children) (replicate 16 none)
        ≡ ok node.children
    slots = rw h at (
        compressed_slots-compressed_bytes 16 0 node.children [] refl (omega arith)
          (omega (arith, count_children-le node.children)) valid)
