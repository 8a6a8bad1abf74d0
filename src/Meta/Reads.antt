-- ===== src/Meta/Reads.antt =====
-- The readers of single values of crates/xrla-common/src/meta_decode.rs take the encoding of a value
-- off the front.
use xrpl_ledger_archive.TxTree.{vl_prefix, write_vl}
use xrpl_ledger_archive.Meta.Tree.{
  Amount, field_header, encode_account, encode_amount, encode_issue, IsAccount, IsAmount, IsIssue,
  Issue,
}
use xrpl_ledger_archive.Meta.Skip.{skip_blob}
use xrpl_ledger_archive.Prelude.Parser.{
  Parser, Reads, ◌>>◌, Reads-bind, Reads-take_exact, pure, Reads-pure, Reads-map, Reads-last,
}
use xrpl_ledger_archive.Meta.{
  MetaError, byte, take_bytes, read_field_header, read_vl_len, read_account, mpt_issuer,
  read_amount, skip_issue, AccountId, or_next_byte, peek, nonzero, end_of_buffer, no_account,
}
use xrpl_ledger_archive.Meta.Tree.{native, issued, mpt, xrp, token, mpt_issue}
use xrpl_ledger_archive.Prelude.{
  inl, inr, false, Option, none, some, [], ◌∷◌, ◌++◌, List, ℕ, length, ◌≤◌, ◌≢◌, ◌≡◌, ◌<◌, arith,
  list_eq, refl, Bool-cases, replicate, ap, inl, drop-append, list_eq→eq, inr, ltb, suc,
  length-append, ◌/◌, ◌*◌, ◌%◌, ◌+◌,
}

Reads-byte : (b : ℕ) → Reads byte (b ∷ []) b
unfolding byte
Reads-byte b = record { run = λ rest. refl }

pub Reads-take_bytes : (n : ℕ) (xs : List ℕ) → length xs ≡ n → Reads (take_bytes n) xs xs
unfolding take_bytes
Reads-take_bytes n xs h = Reads-take_exact end_of_buffer n xs h

Reads-given : (code b : ℕ) → code ≡ b → 0 < b → Reads (or_next_byte code) [] b
unfolding or_next_byte
Reads-given code b e h = record { run = λ rest. ground arith }

Reads-next : (code b : ℕ) → code ≡ 0 → Reads (or_next_byte code) (b ∷ []) b
unfolding or_next_byte byte
Reads-next code b e = record { run = λ rest. rw e refl }

Reads-header :
    (b1 : ℕ) (xs ys : List ℕ) {t f : ℕ}
    → Reads (or_next_byte (b1 / 16)) xs t
    → Reads (or_next_byte (b1 % 16)) ys f
    → Reads read_field_header ((b1 ∷ []) ++ (xs ++ ys)) (t, f)
unfolding read_field_header
Reads-header b1 xs ys {t} h k =
    Reads-bind _ (Reads-byte b1) (Reads-bind _ h (Reads-map (λ field_code. (t, field_code)) k))

pub Reads-read_field_header :
    (t f : ℕ)
    → 0 < t
    → t < 256
    → 0 < f
    → f < 256
    → Reads read_field_header (field_header t f) (t, f)
unfolding field_header
Reads-read_field_header t f ht ht' hf hf' = elim (Bool-cases (ltb t 16)) [
  | inl small ↦ elim (Bool-cases (ltb f 16)) [
    | inl small' ↦
        rw (small, small')
          (Reads-header (t * 16 + f) [] [] (Reads-given _ t (ground arith) ht)
            (Reads-given _ f (ground arith) hf))
    | inr large' ↦
        rw (small, large')
          (Reads-header (t * 16) [] (f ∷ []) (Reads-given _ t (omega arith) ht)
            (Reads-next _ f (omega arith)))
  ]
  | inr large ↦ elim (Bool-cases (ltb f 16)) [
    | inl small' ↦
        rw (large, small')
          (Reads-header f (t ∷ []) [] (Reads-next _ t (ground arith))
            (Reads-given _ f (ground arith) hf))
    | inr large' ↦
        rw (large, large')
          (Reads-header 0 (t ∷ []) (f ∷ []) (Reads-next _ t refl) (Reads-next _ f refl))
  ]
]

Reads-read_vl_len : (n : ℕ) → n ≤ 995520 → Reads read_vl_len (vl_prefix n) n
unfolding read_vl_len vl_prefix byte
Reads-read_vl_len n h = record { run = λ rest. ground arith }

-- The last step of a `do` block that forgets what it read.
pub Reads-forget :
    {A : Type 0} (p : Parser MetaError A) (xs : List ℕ) {a : A}
    → Reads p xs a
    → Reads (p >> pure tt) xs tt
Reads-forget p xs h = Reads-map (λ x. tt) h

pub Reads-skip_blob : (bs : List ℕ) → length bs ≤ 995520 → Reads skip_blob (write_vl bs) tt
unfolding skip_blob write_vl
Reads-skip_blob bs h =
    Reads-bind _ (Reads-read_vl_len (length bs) h)
      (Reads-forget _ bs (Reads-take_bytes (length bs) bs refl))

pub Reads-read_account :
    (a : Option AccountId) → IsAccount a → Reads read_account (encode_account a) a
unfolding read_account encode_account write_vl IsAccount
Reads-read_account none h = Reads-bind _ (Reads-read_vl_len 0 (omega arith)) (Reads-pure none)
Reads-read_account (some a) h =
    rw h
      (Reads-bind _ (Reads-read_vl_len 20 (omega arith)) (Reads-map some (Reads-take_bytes 20 a h)))

-- The issuer that an amount names.
unfoldable pub issuer_of : Amount → Option AccountId
issuer_of (native b value) = none
issuer_of (issued b value code issuer) = nonzero issuer
issuer_of (mpt b value extra sequence issuer) = nonzero issuer

mpt_issuer-append :
    (sequence : List ℕ) (issuer : AccountId)
    → length sequence ≡ 4
    → mpt_issuer (sequence ++ issuer) ≡ nonzero issuer
unfolding mpt_issuer
mpt_issuer-append sequence issuer h = ap nonzero (drop-append 4 sequence issuer h)

pub Reads-read_amount :
    (a : Amount) → IsAmount a → Reads read_amount (encode_amount a) (issuer_of a)
unfolding read_amount encode_amount issuer_of IsAmount peek
Reads-read_amount (native b value) h = record {
  run = λ rest.
      rw (h.0, h.1)
        ((Reads-map (λ x. none) (Reads-take_bytes 8 (b ∷ value) (ap suc h.2))).run rest);
}
Reads-read_amount (issued b value code issuer) h = record {
  run = λ rest. rw h.0 (
      (Reads-bind _ (Reads-take_bytes 8 (b ∷ value) (ap suc h.1)) (
          Reads-bind _ (Reads-take_bytes 20 code h.2)
            (Reads-map nonzero (Reads-take_bytes 20 issuer h.3)))).run
        rest);
}
Reads-read_amount (mpt b value extra sequence issuer) h = record {
  run = λ rest.
      rw (h.0, h.1, ← mpt_issuer-append sequence issuer h.3)
        ((Reads-bind _ (Reads-take_bytes 8 (b ∷ value) (ap suc h.2)) (
            Reads-bind _ (Reads-take_bytes 1 (extra ∷ []) refl) (
              Reads-map mpt_issuer (
                Reads-take_bytes 24 (sequence ++ issuer)
                  (omega (arith, length-append sequence issuer)))))).run
          rest);
}

ne→list_eq : (xs ys : List ℕ) → xs ≢ ys → list_eq xs ys ≡ false
ne→list_eq xs ys h = elim (Bool-cases (list_eq xs ys)) [
  | inl e ↦ absurd (h (list_eq→eq xs ys e))
  | inr e ↦ e
]

pub Reads-skip_issue : (i : Issue) → IsIssue i → Reads skip_issue (encode_issue i) tt
unfolding skip_issue encode_issue IsIssue
Reads-skip_issue xrp h = Reads-bind _ (Reads-take_bytes 20 (replicate 20 0) refl) (Reads-pure tt)
Reads-skip_issue (token code issuer) h = Reads-bind _ (Reads-take_bytes 20 code h.0) (
    rw (ne→list_eq code (replicate 20 0) h.1) (
      Reads-last _ tt (Reads-take_bytes 20 issuer h.2)
        (rw (ne→list_eq issuer no_account h.3) (Reads-pure tt))))
Reads-skip_issue (mpt_issue first sequence) h = Reads-bind _ (Reads-take_bytes 20 first h.0) (
    rw (ne→list_eq first (replicate 20 0) h.1) (
      Reads-bind _ (Reads-take_bytes 20 no_account refl)
        (Reads-forget _ sequence (Reads-take_bytes 4 sequence h.2))))
