-- ===== src/Meta/SenderEnds.antt =====
-- `parse_tx_fields` of crates/xrla-common/src/meta_decode.rs on any bytes.
use xrpl_ledger_archive.Meta.Settles.{
  Settles, Settles-if, Settles-pure, Settles-bind, Settles-after, Settles-take_bytes, Any,
  Settles-fail, Settles-nothing, Settles-cons,
}
use xrpl_ledger_archive.Prelude.Parser.{Result, ok, err}
use xrpl_ledger_archive.Meta.Ends.{
  IsId, Advances-read_field_header, Settles-read_account, Settles-skip_value,
}
use xrpl_ledger_archive.Meta.TxFields.{
  Found, tx_field, TxFields, all_found, tx_loop, fields_of, parse_tx_fields, unwrap_or_zero,
  none_found,
}
use xrpl_ledger_archive.Meta.{
  MetaError, out_of_fuel, past_account, AccountId, type_uint16, type_uint32, type_account,
}
use xrpl_ledger_archive.Prelude.{
  zero, suc, some, none, inl, inr, Option, ℕ, length, ◌≡◌, List, ◌≢◌, subst, refl, ◌==◌,
  Option-cases, arith, ◌&&◌, ltb,
}

-- What is known of the account so far, if there is one.
abbrev HasId : Found → Type 0
HasId found = IsId found.account

IsId-unwrap : (a : Option AccountId) → IsId a → IsId (some (unwrap_or_zero a))
IsId-unwrap none h = refl
IsId-unwrap (some a) h = h

Settles-tx_field :
    {n : ℕ} (t f : ℕ) (found : Found) → HasId found → Settles n HasId (tx_field t f found)
unfolding tx_field
Settles-tx_field t f found k =
    Settles-if ((t == type_uint16) && (f == 2))
      (Settles-bind _ _ _ (Settles-take_bytes 2) λ b h. Settles-pure _ k)
      (Settles-if ((t == type_uint32) && (f == 4))
        (Settles-bind _ _ _ (Settles-take_bytes 4) λ b h. Settles-pure _ k)
        (Settles-if ((t == type_account) && (f == 1))
          (Settles-bind IsId _ _ Settles-read_account λ a h. Settles-pure _ (IsId-unwrap a h))
          (Settles-if (ltb type_account t) (Settles-fail (past_account t) (λ e. cc))
            (Settles-bind Any _ _ (Settles-skip_value t) λ u h. Settles-pure found k))))

abbrev AccountIsId : TxFields → Type 0
AccountIsId fields = length fields.account ≡ 20

all_found-IsId :
    (found : Found) (fields : TxFields)
    → HasId found
    → all_found found ≡ some fields
    → AccountIsId fields
unfolding all_found
all_found-IsId found fields k e = go found.tx_type found.sequence found.account k e
  where
    go :
        (ty seq : Option ℕ) (account : Option AccountId)
        → IsId account
        → all_found (record { tx_type = ty; sequence = seq; account = account }) ≡ some fields
        → AccountIsId fields
    go none seq account k e = cc
    go (some ty) none account k e = cc
    go (some ty) (some seq) none k e = cc
    go (some ty) (some seq) (some a) k e = let same : a ≡ fields.account = cc e in rw (← same) k

Settles-tx_loop : (n : ℕ) (found : Found) → HasId found → Settles n AccountIsId (tx_loop n found)
unfolding tx_loop
Settles-tx_loop zero found k = Settles-nothing _
Settles-tx_loop (suc n) found k = elim (Option-cases (all_found found)) [
  | inr (fields, e) ↦ rw (e, tx_loop) (Settles-pure fields (all_found-IsId found fields k e))
  | inl e ↦
      rw (e, tx_loop)
        (Settles-cons _ _ (λ b s. refl) (λ q. cc) (λ a t q. cc)
          (Settles-after Any _ _ Advances-read_field_header λ header u.
            Settles-bind HasId _ _ (Settles-tx_field header.0 header.1 found k)
              λ found' k'. Settles-tx_loop n found' k'))
]

fields_of-ne-out_of_fuel :
    (r : Result MetaError (TxFields × List ℕ)) → r ≢ err out_of_fuel → fields_of r ≢ err out_of_fuel
unfolding fields_of
fields_of-ne-out_of_fuel (ok (fields, s)) h q = cc
fields_of-ne-out_of_fuel (err e) h q = h (cc q)

fields_of-AccountIsId :
    (r : Result MetaError (TxFields × List ℕ)) (fields : TxFields)
    → ((f : TxFields) (s : List ℕ) → r ≡ ok (f, s) → AccountIsId f)
    → fields_of r ≡ ok fields
    → AccountIsId fields
unfolding fields_of
fields_of-AccountIsId (ok (f, s)) fields h q =
    let same : f ≡ fields = cc q in subst AccountIsId same (h f s refl)
fields_of-AccountIsId (err e) fields h q = cc

-- On any bytes whatever the loop of `parse_tx_fields` ends within one round for each byte, and an
-- account that it returns has 20 bytes.
pub parse_tx_fields-ends :
    (tx_blob : List ℕ)
    → (parse_tx_fields tx_blob ≢ err out_of_fuel)
      × ((fields : TxFields) → parse_tx_fields tx_blob ≡ ok fields → length fields.account ≡ 20)
unfolding parse_tx_fields
parse_tx_fields-ends tx_blob =
    let settled = Settles-tx_loop (suc (length tx_blob)) none_found tt in
    (
      fields_of-ne-out_of_fuel _ (settled.ends tx_blob (omega arith)),
      λ fields. fields_of-AccountIsId _ fields λ f s e. settled.post tx_blob f s (omega arith) e,
    )
