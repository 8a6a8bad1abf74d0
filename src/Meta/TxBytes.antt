-- ===== src/Meta/TxBytes.antt =====
-- Transactions in the order of the format, and the loop of `parse_tx_fields` of
-- crates/xrla-common/src/meta_decode.rs on their fields.
use xrpl_ledger_archive.Meta.Reads.{Reads-read_field_header}
use xrpl_ledger_archive.Meta.Skipped.{type_of_bounds, length-field_header, Reads-skip_value}
use xrpl_ledger_archive.Prelude.Bytes.{be_bytes}
use xrpl_ledger_archive.Prelude.Parser.{Reads, ◌>>=◌, Reads-map, Reads-step}
use xrpl_ledger_archive.Meta.TxFields.{tx_loop, tx_field, Found, all_found}
use xrpl_ledger_archive.Meta.{AccountId, type_account, type_uint32, type_uint16, read_field_header}
use xrpl_ledger_archive.Meta.Tree.{
  end, field, Fields, encode_value, IsValue, field_header, encode_fields, Value, type_of, IsAccount,
  encode_account,
}
use xrpl_ledger_archive.Prelude.{
  zero, suc, [], ◌∷◌, ◌++◌, false, none, ◌<◌, List, ℕ, Option, ◌^◌, length, ◌≡◌, ◌≤◌, arith, ◌==◌,
  append_assoc, ap, ◌&&◌, length-append, ◌∙◌, refl, le→ltb,
}

-- Fields that stand before the account and are none of the three that are looked for.
unfoldable pub AreOthers : Fields → Type 0
AreOthers end = Unit
AreOthers (field f v fs) =
    (0 < f)
    × (f < 256)
    × IsValue v
    × (type_of v ≤ type_account)
    × (((type_of v == type_uint16) && (f == 2)) ≡ false)
    × (((type_of v == type_uint32) && (f == 4)) ≡ false)
    × (((type_of v == type_account) && (f == 1)) ≡ false)
    × AreOthers fs

-- A transaction in the order of the format: TransactionType (1, 2), Sequence (2, 4) and
-- Account (8, 1) among other fields, and then any bytes.
pub record Transaction : Type 0 where
  pub before_type : Fields
  pub tx_type : ℕ
  pub before_sequence : Fields
  pub sequence : ℕ
  pub before_account : Fields
  pub account : Option AccountId
  pub rest : List ℕ

pub record IsTransaction (tx : Transaction) : Type 0 where
  pub first_others : AreOthers tx.before_type
  pub type_range : tx.tx_type < 256 ^ 2
  pub second_others : AreOthers tx.before_sequence
  pub sequence_range : tx.sequence < 256 ^ 4
  pub third_others : AreOthers tx.before_account
  pub account_size : IsAccount tx.account

abbrev pub from_account : Transaction → List ℕ
from_account tx = field_header type_account 1 ++ (encode_account tx.account ++ tx.rest)

abbrev pub from_sequence : Transaction → List ℕ
from_sequence tx =
    field_header type_uint32 4
    ++ (be_bytes 4 tx.sequence ++ (encode_fields tx.before_account ++ from_account tx))

unfoldable pub tx_bytes : Transaction → List ℕ
tx_bytes tx =
    encode_fields tx.before_type
    ++ (field_header type_uint16 2
        ++ (be_bytes 2 tx.tx_type ++ (encode_fields tx.before_sequence ++ from_sequence tx)))

tx_loop-nonempty :
    (n : ℕ) (found : Found) (s : List ℕ)
    → all_found found ≡ none
    → 0 < length s
    → tx_loop (suc n) found s
      ≡ (read_field_header >>= λ header.
            tx_field header.0 header.1 found >>= λ found'. tx_loop n found')
          s
unfolding tx_loop
tx_loop-nonempty n found [] e h = absurd (omega arith)
tx_loop-nonempty n found (b ∷ s) e h = rw (e, tx_loop) refl

-- The codes that a header can hold.
abbrev IsHeader : ℕ → ℕ → Type 0
IsHeader t f = (0 < t) × (t < 256) × (0 < f) × (f < 256)

pub type-IsHeader : IsHeader type_uint16 2
type-IsHeader = omega arith

pub sequence-IsHeader : IsHeader type_uint32 4
sequence-IsHeader = omega arith

pub account-IsHeader : IsHeader type_account 1
account-IsHeader = omega arith

-- One field is read.
tx_loop-field :
    (n t f : ℕ) (found found' : Found) (xs rest : List ℕ)
    → IsHeader t f
    → all_found found ≡ none
    → Reads (tx_field t f found) xs found'
    → tx_loop (suc n) found (field_header t f ++ (xs ++ rest)) ≡ tx_loop n found' rest
tx_loop-field n t f found found' xs rest b e h =
    tx_loop-nonempty n found (field_header t f ++ (xs ++ rest)) e
      (omega (arith, length-field_header t f, length-append (field_header t f) (xs ++ rest)))
    ∙ Reads-step _ (Reads-read_field_header t f b.0 b.1 b.2 b.3) (xs ++ rest)
    ∙ Reads-step _ h rest

-- The loop comes to `rest` with fuel for it.
abbrev Comes : ℕ → Found → List ℕ → Found → List ℕ → Type 0
Comes n found s found' rest =
    (m : ℕ) × (length rest < m) × (tx_loop n found s ≡ tx_loop m found' rest)

pub Comes-field :
    (n t f : ℕ) (found found' : Found) (xs rest : List ℕ)
    → IsHeader t f
    → all_found found ≡ none
    → Reads (tx_field t f found) xs found'
    → length (field_header t f ++ (xs ++ rest)) < n
    → Comes n found (field_header t f ++ (xs ++ rest)) found' rest
Comes-field zero t f found found' xs rest b e h k = absurd (omega arith)
Comes-field (suc n) t f found found' xs rest b e h k = (
  n,
  omega (
    arith,
    length-field_header t f,
    length-append (field_header t f) (xs ++ rest),
    length-append xs rest,
  ),
  tx_loop-field n t f found found' xs rest b e h,
)

Reads-other :
    (f : ℕ) (v : Value) (found : Found)
    → IsValue v
    → type_of v ≤ type_account
    → ((type_of v == type_uint16) && (f == 2)) ≡ false
    → ((type_of v == type_uint32) && (f == 4)) ≡ false
    → ((type_of v == type_account) && (f == 1)) ≡ false
    → Reads (tx_field (type_of v) f found) (encode_value v) found
unfolding tx_field
Reads-other f v found h below e e' e'' =
    rw (e, e', e'', le→ltb type_account (type_of v) below)
      (Reads-map (λ u. found) (Reads-skip_value v h))

pub Comes-others :
    (fs : Fields) (n : ℕ) (found : Found) (rest : List ℕ)
    → AreOthers fs
    → all_found found ≡ none
    → length (encode_fields fs ++ rest) < n
    → Comes n found (encode_fields fs ++ rest) found rest
unfolding AreOthers encode_value
Comes-others end n found rest h e k = (n, k, refl)
Comes-others (field f v fs) n found rest h e k =
    let header = field_header (type_of v) f in
    let bounds = type_of_bounds v in
    let shape =
      append_assoc header (encode_value v ++ encode_fields fs) rest
      ∙ ap (λ xs. header ++ xs) (append_assoc (encode_value v) (encode_fields fs) rest) in
    let one =
      Comes-field n (type_of v) f found found (encode_value v) (encode_fields fs ++ rest)
        (bounds.0, bounds.1, h.0, h.1) e (Reads-other f v found h.2 h.3 h.4 h.5 h.6)
        (rw (← shape) k) in
    let more = Comes-others fs one.0 found rest h.7 e one.1 in
    (more.0, more.1, ap (λ s. tx_loop n found s) shape ∙ one.2 ∙ more.2)
