-- ===== src/Meta/AddressBack.antt =====
-- The round trip of classic addresses of crates/xrla-common/src/meta_decode.rs.
use xrpl_ledger_archive.Prelude.Bytes.{IsByte}
use xrpl_ledger_archive.Prelude.Parser.{ok}
use xrpl_ledger_archive.Meta.Digits.{
  AreDigits, horner, value, IsNormal, value-foldl, foldl-AreDigits, horner-reverse, IsNormal-snoc,
  IsNormal-of_tail, reverse-IsNormal, foldl-TailIsNormal, value_inj, foldl-IsNormal,
}
use xrpl_ledger_archive.Meta.Address.{
  decode_digits, leading, mul_add, check_payload, encode_digits, checksum, payload_of,
  account_id_to_classic_address, classic_address_to_account_id,
}
use xrpl_ledger_archive.Meta.{AccountId}
use xrpl_ledger_archive.Prelude.{
  zero, suc, [], ◌∷◌, ◌++◌, true, false, some, inl, inr, ℕ, List, ◌≡◌, ◌==◌, ◌<◌, arith, ap, map,
  replicate, All-append, length, refl, ==_iff, ◌∙◌, sym, subst, length-append, All, take-append,
  drop-append, length-take, take, ◌≢◌, list_eq_refl,
}
use mathlib.Core.List.{reverse, foldl, reverse-cons, reverse-reverse}
use xrpl_ledger_archive.Meta.Chars.{
  char_of, Digit_parts, to_chars-map, decode_digits-map, decode_digits-replicate, leading-replicate,
  Split, leading-Split, horner-replicate, AreDigits-reverse, AreDigits-drop_zeros,
}

-- What decoding makes of the digits of a payload that is not all zeros.
module _ (payload : List ℕ) (bytes : AreDigits 256 payload) (split : Split payload) where
  abbrev greatest : ℕ
  greatest = split.0

  abbrev body : List ℕ
  body = greatest ∷ split.1

  body_number : foldl (horner 256) 0 payload ≡ foldl (horner 256) 0 body
  body_number = ap (foldl (horner 256) 0) split.3 ∙ horner-replicate 256 (leading 0 payload) body

  value-body : value 256 (reverse body) ≡ foldl (horner 256) 0 body
  value-body =
      sym (horner-reverse 256 (reverse body)) ∙ ap (foldl (horner 256) 0) (reverse-reverse body)

  body-IsNormal : (0 < value 256 (reverse body)) × IsNormal 256 (reverse body)
  body-IsNormal =
      rw (reverse-cons greatest split.1)
        (IsNormal-snoc 256 (omega arith) (reverse split.1) greatest split.2)

  encoded_value : value 58 (encode_digits payload) ≡ foldl (horner 256) 0 payload
  unfolding encode_digits
  encoded_value = value-foldl 256 58 (omega arith) payload (0 ∷ []) 0 refl

  encoded_digits : AreDigits 58 (encode_digits payload)
  unfolding encode_digits
  encoded_digits = foldl-AreDigits 256 58 (omega arith) payload (0 ∷ []) (omega arith)

  encoded-IsNormal : IsNormal 58 (encode_digits payload)
  unfolding encode_digits
  encoded-IsNormal =
      IsNormal-of_tail 58 (encode_digits payload)
        (foldl-TailIsNormal 256 58 (omega arith) (omega arith) payload 0 [] tt)
        (omega (arith, encoded_value, body_number, value-body, body-IsNormal.0))

  decoded : List ℕ
  decoded = foldl (mul_add 58 256) [] (reverse (encode_digits payload))

  reverse-decoded : reverse decoded ≡ body
  unfolding decoded
  reverse-decoded =
      let number : value 256 decoded ≡ value 256 (reverse body) =
        value-foldl 58 256 (omega arith) (reverse (encode_digits payload)) [] 0 refl
        ∙ horner-reverse 58 (encode_digits payload)
        ∙ encoded_value
        ∙ body_number
        ∙ sym value-body in
      let same : decoded ≡ reverse body =
        value_inj 256 (omega arith) decoded (reverse body)
          (foldl-AreDigits 58 256 (omega arith) (reverse (encode_digits payload)) [] tt)
          (AreDigits-reverse 256 body
            (AreDigits-drop_zeros (leading 0 payload) body (subst (AreDigits 256) split.3 bytes)))
          (foldl-IsNormal 58 256 (omega arith) (omega arith) (reverse (encode_digits payload)) []
            tt)
          body-IsNormal.1 number in
      ap reverse same ∙ reverse-reverse body

  first_char :
      (c : ℕ) × (cs : List ℕ) × (map char_of (reverse (encode_digits payload)) ≡ c ∷ cs)
      × ((c == b'r') ≡ false)
  first_char =
      go (encode_digits payload) encoded_digits encoded-IsNormal
        (omega (arith, encoded_value, body_number, value-body, body-IsNormal.0))
    where
      go :
          (ds : List ℕ)
          → AreDigits 58 ds
          → IsNormal 58 ds
          → 0 < value 58 ds
          → (c : ℕ) × (cs : List ℕ) × (map char_of (reverse ds) ≡ c ∷ cs) × ((c == b'r') ≡ false)
      go [] h n p = absurd (omega arith)
      go (d ∷ ds) h n p =
          let (t, rest, q, p') = reverse-IsNormal 58 d ds n in
          let below = subst (AreDigits 58) q (AreDigits-reverse 58 (d ∷ ds) h) in
          (char_of t, map char_of rest, ap (map char_of) q, (Digit_parts t below.0).2 p')

module _ (sha256 : List ℕ → List ℕ) where
  check_payload-payload_of :
      (account_id : AccountId)
      → length account_id ≡ 20
      → length (checksum sha256 (0 ∷ account_id)) ≡ 4
      → check_payload sha256 (payload_of sha256 account_id) ≡ ok account_id
  unfolding check_payload
  check_payload-payload_of account_id h k =
      let code = checksum sha256 (0 ∷ account_id) in
      let size : (suc (length (account_id ++ code)) == 25) ≡ true =
        (==_iff _ _).1 (omega (arith, length-append account_id code)) in
      rw
        (
          size,
          take-append 20 account_id code h,
          drop-append 20 account_id code h,
          list_eq_refl code,
        )
        refl

  module _ (size : (bs : List ℕ) → length (sha256 bs) ≡ 32)
      (bytes : (bs : List ℕ) → All IsByte (sha256 bs)) where
    length-checksum : (bs : List ℕ) → length (checksum sha256 bs) ≡ 4
    length-checksum bs = omega (arith, length-take 4 (sha256 (sha256 bs)), size (sha256 bs))

    payload_of-AreDigits :
        (account_id : AccountId)
        → All IsByte account_id
        → AreDigits 256 (payload_of sha256 account_id)
    payload_of-AreDigits account_id h =
        All-append IsByte (0 ∷ account_id) (checksum sha256 (0 ∷ account_id)) (omega arith, h)
          (All-take 4 (sha256 (sha256 (0 ∷ account_id))) (bytes (sha256 (0 ∷ account_id))))
      where
        All-take : (n : ℕ) (xs : List ℕ) → All IsByte xs → All IsByte (take n xs)
        All-take zero xs k = tt
        All-take (suc n) [] k = tt
        All-take (suc n) (x ∷ xs) k = (k.0, All-take n xs k.1)

    back :
        (account_id : AccountId) (split : Split (payload_of sha256 account_id))
        → length account_id ≡ 20
        → All IsByte account_id
        → (address : List ℕ) × (account_id_to_classic_address sha256 account_id ≡ some address)
          × (classic_address_to_account_id sha256 address ≡ ok account_id)
    unfolding account_id_to_classic_address classic_address_to_account_id
    back account_id split h h' =
        let payload = payload_of sha256 account_id in
        let digits = payload_of-AreDigits account_id h' in
        let chars = map char_of (reverse (encode_digits payload)) in
        let encoded =
          AreDigits-reverse 58 (encode_digits payload) (encoded_digits payload digits split) in
        let k = leading 0 payload in
        let (c, cs, q, p) = first_char payload digits split in
        let count : leading b'r' (replicate k b'r' ++ chars) ≡ k =
          ap (λ xs. leading b'r' (replicate k b'r' ++ xs)) q ∙ leading-replicate k b'r' c cs p in
        let decoding : decode_digits (replicate k b'r' ++ chars) []
            ≡ ok (decoded payload digits split) =
          decode_digits-replicate k chars
          ∙ unfold decoded in decode_digits-map (reverse (encode_digits payload)) [] encoded in
        (
          replicate k b'r' ++ chars,
          rw (to_chars-map (reverse (encode_digits payload)) encoded, account_id_to_classic_address)
              refl,
          rw
              (
                decoding,
                classic_address_to_account_id,
                count,
                reverse-decoded payload digits split,
                ← split.3,
              )
              (check_payload-payload_of account_id h (length-checksum (0 ∷ account_id))),
        )

    -- Every account id has an address, with no index out of the alphabet, and decoding the address
    -- gives the id back: if sha256 returns 32 bytes, and the id and its checksum are not all zeros.
    pub classic_address_to_account_id-account_id_to_classic_address :
        (account_id : AccountId)
        → length account_id ≡ 20
        → All IsByte account_id
        → payload_of sha256 account_id ≢ replicate 25 0
        → (address : List ℕ) × (account_id_to_classic_address sha256 account_id ≡ some address)
          × (classic_address_to_account_id sha256 address ≡ ok account_id)
    classic_address_to_account_id-account_id_to_classic_address account_id h h' nonzero =
        elim (leading-Split (payload_of sha256 account_id)) [
          | inr split ↦ back account_id split h h'
          | inl zeros ↦
              let count : length (payload_of sha256 account_id) ≡ 25 = omega (
                arith,
                length-append account_id (checksum sha256 (0 ∷ account_id)),
                length-checksum (0 ∷ account_id),
              ) in
              absurd (nonzero (zeros ∙ ap (λ n. replicate n 0) count))
        ]
