-- ===== src/Prelude/Bytes.antt =====
-- Bytes as numbers below 256: big-endian integers of `to_be_bytes` and `from_be_bytes`.
use Prim.Native.Nat.{ℕ, zero, suc, ◌+◌, ◌*◌, ◌/◌, ◌%◌, ◌^◌, ◌<◌}
use mathlib.Core.Path.{◌≡◌, refl}
use mathlib.Core.List.{List, [], ◌∷◌, ◌++◌, foldl, foldl-append}
use native.Mathlib.Nat.{pow-suc}
use native.Mathlib.Omega.{arith}
use xrpl_ledger_archive.Prelude.Lists.{length, length-append, All, All-append}

abbrev pub IsByte : ℕ → Type 0
IsByte b = b < 256

-- `v.to_be_bytes()` of an integer of `k` bytes: the highest byte first.
unfoldable pub be_bytes : ℕ → ℕ → List ℕ
be_bytes zero v = []
be_bytes (suc k) v = be_bytes k (v / 256) ++ (v % 256 ∷ [])

abbrev shift_in : ℕ → ℕ → ℕ
shift_in acc b = acc * 256 + b

-- `from_be_bytes`.
unfoldable pub from_be : List ℕ → ℕ
from_be = foldl shift_in 0

pub length-be_bytes : (k v : ℕ) → length (be_bytes k v) ≡ k
unfolding be_bytes
length-be_bytes zero v = refl
length-be_bytes (suc k) v =
    omega (arith, length-append (be_bytes k (v / 256)) (v % 256 ∷ []), length-be_bytes k (v / 256))

pub from_be-be_bytes : (k v : ℕ) → v < 256 ^ k → from_be (be_bytes k v) ≡ v
unfolding be_bytes from_be
from_be-be_bytes zero v h = omega arith
from_be-be_bytes (suc k) v h =
    rw foldl-append (omega (arith, from_be-be_bytes k (v / 256) (omega (arith, pow-suc 256 k))))

be_bytes-IsByte : (k v : ℕ) → All IsByte (be_bytes k v)
unfolding be_bytes
be_bytes-IsByte zero v = tt
be_bytes-IsByte (suc k) v =
    All-append IsByte (be_bytes k (v / 256)) (v % 256 ∷ []) (be_bytes-IsByte k (v / 256))
      (omega arith)

pub from_be_single : (b : ℕ) → from_be (b ∷ []) ≡ b
unfolding from_be
from_be_single b = omega arith
