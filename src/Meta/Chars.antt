-- ===== src/Meta/Chars.antt =====
-- The characters of addresses of crates/xrla-common/src/meta_decode.rs: each stands for one digit.
use xrpl_ledger_archive.Prelude.Parser.{ok}
use xrpl_ledger_archive.Meta.Digits.{AreDigits, horner}
use xrpl_ledger_archive.Meta.Address.{position, to_chars, decode_digits, leading, mul_add, alphabet}
use xrpl_ledger_archive.Prelude.{
  zero, suc, [], ◌∷◌, ◌++◌, true, false, some, none, inl, inr, ℕ, Option, Bool, List, get_elem?,
  ◌&&◌, ◌≡◌, ◌==◌, ◌<◌, arith, ap, map, replicate, All-append, length, refl, ◌||◌, ==_iff, ◌⊎◌, ◌∙◌,
  not, Bool-cases, ◌*◌, ◌+◌,
}
use mathlib.Core.List.{reverse, foldl, reverse-cons}

-- The character of a digit in range.
abbrev pub char_of : ℕ → ℕ
char_of d = elim (get_elem? alphabet d) [ none ↦ 0 | some c ↦ c ]

each_digit : (ℕ → Bool) → ℕ → Bool
each_digit test zero = true
each_digit test (suc d) = each_digit test d && test d

each_digit-at :
    (test : ℕ → Bool) (base d : ℕ) → d < base → each_digit test base ≡ true → test d ≡ true
unfolding each_digit
each_digit-at test zero d small h = absurd (omega arith)
each_digit-at test (suc base) d small h = ground (arith, each_digit-at test base d)

-- Each character of the alphabet stands there once, `r` first.
abbrev option_eq : Option ℕ → ℕ → Bool
option_eq none n = false
option_eq (some m) n = m == n

abbrev stands_for : ℕ → Bool
stands_for d =
    option_eq (get_elem? alphabet d) (char_of d)
    && (option_eq (position (char_of d) alphabet) d && ((d == 0) || not (char_of d == b'r')))

alphabet_table : each_digit stands_for 58 ≡ true
unfolding each_digit position
alphabet_table = refl

option_eq→eq : (o : Option ℕ) (n : ℕ) → option_eq o n ≡ true → o ≡ some n
option_eq→eq none n h = cc
option_eq→eq (some m) n h = ap (λ k. some k) ((==_iff m n).0 h)

and_parts : (a b c : Bool) → (a && (b && c)) ≡ true → (a ≡ true) × (b ≡ true) × (c ≡ true)
and_parts true true true h = (refl, refl, refl)
and_parts true true false h = cc
and_parts true false c h = cc
and_parts false b c h = cc

pub Digit_parts :
    (d : ℕ)
    → d < 58
    → (get_elem? alphabet d ≡ some (char_of d))
      × (position (char_of d) alphabet ≡ some d)
      × (0 < d → (char_of d == b'r') ≡ false)
Digit_parts d h =
    let parts = and_parts _ _ _ (each_digit-at stands_for 58 d h alphabet_table) in
    (option_eq→eq _ _ parts.0, option_eq→eq _ _ parts.1, λ p. only p parts.2)
  where
    only : 0 < d → ((d == 0) || not (char_of d == b'r')) ≡ true → (char_of d == b'r') ≡ false
    only p q = elim (Bool-cases (char_of d == b'r')) [
      | inl e ↦ let q' = rw e at q in ground arith
      | inr e ↦ e
    ]

pub to_chars-map : (ds : List ℕ) → AreDigits 58 ds → to_chars ds ≡ some (map char_of ds)
unfolding to_chars
to_chars-map [] h = refl
to_chars-map (d ∷ ds) h = rw ((Digit_parts d h.0).0, to_chars-map ds h.1) refl

pub decode_digits-map :
    (ds acc : List ℕ)
    → AreDigits 58 ds
    → decode_digits (map char_of ds) acc ≡ ok (foldl (mul_add 58 256) acc ds)
unfolding decode_digits
decode_digits-map [] acc h = refl
decode_digits-map (d ∷ ds) acc h =
    rw ((Digit_parts d h.0).1, decode_digits) (decode_digits-map ds (mul_add 58 256 acc d) h.1)

-- The leading characters `r` leave the number zero.
pub decode_digits-replicate :
    (k : ℕ) (cs : List ℕ) → decode_digits (replicate k b'r' ++ cs) [] ≡ decode_digits cs []
unfolding decode_digits position mul_add
decode_digits-replicate zero cs = refl
decode_digits-replicate (suc k) cs = decode_digits-replicate k cs

pub leading-replicate :
    (k first c : ℕ) (cs : List ℕ)
    → (c == first) ≡ false
    → leading first (replicate k first ++ c ∷ cs) ≡ k
unfolding leading
leading-replicate zero first c cs h = rw h refl
leading-replicate (suc k) first c cs h =
    rw ((==_iff first first).1 refl) (ap suc (leading-replicate k first c cs h))

-- A list of zeros, or its leading zeros and a first byte that is not zero.
abbrev pub Split : List ℕ → Type 0
Split xs = (t : ℕ) × (rest : List ℕ) × (0 < t) × (xs ≡ replicate (leading 0 xs) 0 ++ t ∷ rest)

pub leading-Split : (xs : List ℕ) → (xs ≡ replicate (length xs) 0) ⊎ Split xs
unfolding leading
leading-Split [] = inl refl
leading-Split (x ∷ xs) = elim (Bool-cases (x == 0)) [
  | inr other ↦ inr (x, xs, ground arith, rw other refl)
  | inl same ↦ elim (leading-Split xs) [
    | inl zeros ↦ inl (ground (arith, zeros))
    | inr (t, rest, p, e) ↦ inr (t, rest, p, rw same (cc ((==_iff x 0).0 same, e)))
  ]
]

pub horner-replicate :
    (base k : ℕ) (ys : List ℕ)
    → foldl (horner base) 0 (replicate k 0 ++ ys) ≡ foldl (horner base) 0 ys
horner-replicate base zero ys = refl
horner-replicate base (suc k) ys =
    let start : 0 * base + 0 ≡ 0 = omega arith in
    ap (λ n. foldl (horner base) n (replicate k 0 ++ ys)) start ∙ horner-replicate base k ys

pub AreDigits-reverse : (base : ℕ) (xs : List ℕ) → AreDigits base xs → AreDigits base (reverse xs)
AreDigits-reverse base [] h = tt
AreDigits-reverse base (x ∷ xs) h =
    rw (reverse-cons x xs)
      (All-append (λ d. d < base) (reverse xs) (x ∷ []) (AreDigits-reverse base xs h.1) (h.0, tt))

pub AreDigits-drop_zeros :
    (k : ℕ) (ys : List ℕ) → AreDigits 256 (replicate k 0 ++ ys) → AreDigits 256 ys
AreDigits-drop_zeros zero ys h = h
AreDigits-drop_zeros (suc k) ys h = AreDigits-drop_zeros k ys h.1
