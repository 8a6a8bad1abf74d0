-- ===== src/Meta/Address.antt =====
-- Classic addresses: `classic_address_to_account_id` and `account_id_to_classic_address` of
-- crates/xrla-common/src/meta_decode.rs. A string is the list of its bytes, and `sha256` is the crate
-- `sha2`.
use xrpl_ledger_archive.Prelude.Bytes.{from_be}
use xrpl_ledger_archive.Prelude.Parser.{Result, ok, err}
use xrpl_ledger_archive.Meta.{AccountId}
use xrpl_ledger_archive.Prelude.{
  zero, suc, [], ◌∷◌, ◌++◌, some, none, List, ℕ, ◌/◌, ◌*◌, if◌then◌else◌, Option, take, ◌==◌, ◌+◌,
  get_elem?, not, replicate, ◌%◌, length, list_eq, drop,
}
use mathlib.Core.List.{reverse, foldl}

abbrev pub alphabet : List ℕ
alphabet =
    b'r' ∷ b'p' ∷ b's' ∷ b'h' ∷ b'n' ∷ b'a' ∷ b'f' ∷ b'3' ∷ b'9' ∷ b'w' ∷ b'B' ∷ b'U' ∷ b'D' ∷ b'N'
    ∷ b'E' ∷ b'G' ∷ b'H' ∷ b'J' ∷ b'K' ∷ b'L' ∷ b'M' ∷ b'4' ∷ b'P' ∷ b'Q' ∷ b'R' ∷ b'S' ∷ b'T'
    ∷ b'7' ∷ b'V' ∷ b'W' ∷ b'X' ∷ b'Y' ∷ b'Z' ∷ b'2' ∷ b'b' ∷ b'c' ∷ b'd' ∷ b'e' ∷ b'C' ∷ b'g'
    ∷ b'6' ∷ b'5' ∷ b'j' ∷ b'k' ∷ b'm' ∷ b'8' ∷ b'o' ∷ b'F' ∷ b'q' ∷ b'i' ∷ b'1' ∷ b't' ∷ b'u'
    ∷ b'v' ∷ b'A' ∷ b'x' ∷ b'y' ∷ b'z' ∷ []

-- `while carry > 0 { digits.push(carry % base); carry /= base; }`; the carry itself bounds the rounds.
unfoldable pub push_digits : ℕ → ℕ → ℕ → List ℕ
push_digits zero base carry = []
push_digits (suc n) base carry =
    let rest = push_digits n base (carry / base) in if carry == 0 then [] else (carry % base) ∷ rest

-- One round of the conversion: the digits, the least one first, times `mult`, plus the carry.
unfoldable pub mul_add : ℕ → ℕ → List ℕ → ℕ → List ℕ
unfolding push_digits
mul_add mult base [] carry = push_digits carry base carry
mul_add mult base (d ∷ ds) carry =
    ((d * mult + carry) % base) ∷ mul_add mult base ds ((d * mult + carry) / base)

-- `take_while(|&c| c == first).count()`.
unfoldable pub leading : ℕ → List ℕ → ℕ
leading first [] = 0
leading first (c ∷ cs) = if c == first then suc (leading first cs) else 0

-- `iter().position(..)`.
unfoldable pub position : ℕ → List ℕ → Option ℕ
position c [] = none
position c (a ∷ as') =
    if a == c then some 0 else elim (position c as') [ none ↦ none | some i ↦ some (suc i) ]

pub data AddressError : Type 0 where
  invalid_character payload_length version_byte : ℕ → AddressError
  checksum_mismatch : AddressError

unfoldable pub decode_digits : List ℕ → List ℕ → Result AddressError (List ℕ)
decode_digits [] digits = ok digits
decode_digits (c ∷ cs) digits = elim (position c alphabet) [
  | none ↦ err (invalid_character c)
  | some value ↦ decode_digits cs (mul_add 58 256 digits value)
]

-- The characters of digits; `none` is an index out of the alphabet, which panics.
unfoldable pub to_chars : List ℕ → Option (List ℕ)
to_chars [] = some []
to_chars (d ∷ ds) = elim (get_elem? alphabet d) [
  | none ↦ none
  | some c ↦ elim (to_chars ds) [ none ↦ none | some cs ↦ some (c ∷ cs) ]
]

unfoldable pub encode_digits : List ℕ → List ℕ
encode_digits payload = foldl (mul_add 256 58) (0 ∷ []) payload

module _ (sha256 : List ℕ → List ℕ) where
  abbrev pub checksum : List ℕ → List ℕ
  checksum bytes = take 4 (sha256 (sha256 bytes))

  unfoldable pub check_payload : List ℕ → Result AddressError AccountId
  check_payload payload =
      if not (length payload == 25)
      then err (payload_length (length payload))
      else if not (list_eq (take 1 payload) (0 ∷ []))
      then err (version_byte (from_be (take 1 payload)))
      else if not (list_eq (drop 21 payload) (checksum (take 21 payload)))
      then err checksum_mismatch
      else ok (take 20 (drop 1 payload))

  unfoldable pub classic_address_to_account_id : List ℕ → Result AddressError AccountId
  classic_address_to_account_id address = elim (decode_digits address []) [
    | err e ↦ err e
    | ok digits ↦ check_payload (replicate (leading b'r' address) 0 ++ reverse digits)
  ]

  abbrev pub payload_of : AccountId → List ℕ
  payload_of account_id = (0 ∷ account_id) ++ checksum (0 ∷ account_id)

  unfoldable pub account_id_to_classic_address : AccountId → Option (List ℕ)
  account_id_to_classic_address account_id =
      elim (to_chars (reverse (encode_digits (payload_of account_id)))) [
        | none ↦ none
        | some chars ↦ some (replicate (leading 0 (payload_of account_id)) b'r' ++ chars)
      ]
