-- ===== src/Meta/Skip.antt =====
-- `skip_value` of crates/xrla-common/src/meta_decode.rs.
use xrpl_ledger_archive.Prelude.Parser.{Parser, fail, ◌>>=◌, pure, ◌>>◌}
use xrpl_ledger_archive.Prelude.{
  ℕ, Option, suc, some, if◌then◌else◌, length, ◌==◌, ◌&&◌, ◌||◌, zero, none,
}
use xrpl_ledger_archive.Meta.{
  MetaError, out_of_fuel, unhandled_type, read_field_header, type_uint8, read_vl_len, type_uint16,
  type_uint32, take_bytes, type_int32, type_amount, type_uint64, read_amount, type_int64, type_vl,
  type_number, type_vector256, type_uint96, type_account, type_uint128, type_issue, type_uint160,
  skip_issue, type_currency, type_object, type_uint192, type_array, type_uint256, type_uint384,
  type_uint512,
}

-- The types whose values have a fixed size, and that size.
unfoldable pub fixed_width : ℕ → Option ℕ
fixed_width t =
    if t == type_uint8
    then some 1
    else if t == type_uint16
    then some 2
    else if (t == type_uint32) || (t == type_int32)
    then some 4
    else if (t == type_uint64) || (t == type_int64)
    then some 8
    else if t == type_number
    then some 12
    else if t == type_uint96
    then some 12
    else if t == type_uint128
    then some 16
    else if (t == type_uint160) || (t == type_currency)
    then some 20
    else if t == type_uint192
    then some 24
    else if t == type_uint256
    then some 32
    else if t == type_uint384
    then some 48
    else if t == type_uint512
    then some 64
    else none

unfoldable pub skip_blob : Parser MetaError (Unit {0})
skip_blob = do len ← read_vl_len; take_bytes len; pure tt

-- The match on the type; `walk` is the loop over the fields of a container.
unfoldable pub skip_by_type : (ℕ → Parser MetaError (Unit {0})) → ℕ → Parser MetaError (Unit {0})
skip_by_type walk t = elim (fixed_width t) [
  | some n ↦ (do take_bytes n; pure tt)
  | none ↦
      if t == type_amount
      then (do read_amount; pure tt)
      else if (t == type_vl) || (t == type_vector256) || (t == type_account)
      then skip_blob
      else if t == type_issue
      then skip_issue
      else if (t == type_object) || (t == type_array)
      then walk t
      else fail (unhandled_type t)
]

-- The fields of an object or an array, to its end marker: field 1 of the container's own type.
unfoldable pub skip_fields : ℕ → ℕ → Parser MetaError (Unit {0})
skip_fields zero container = fail out_of_fuel
skip_fields (suc n) container = read_field_header >>= λ header.
    if (header.0 == container) && (header.1 == 1)
    then pure tt
    else skip_by_type (skip_fields n) header.0 >> skip_fields n container

-- Each field takes at least the byte of its header, so the bytes that are left bound the rounds.
unfoldable pub skip_value : ℕ → Parser MetaError (Unit {0})
skip_value t s = skip_by_type (skip_fields (suc (length s))) t s
