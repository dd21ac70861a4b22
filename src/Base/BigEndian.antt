-- ===== src/Base/BigEndian.antt =====
-- `int.to_bytes(k, "big")` and `int.from_bytes(…, "big")`, and the bounds of bytes.
use mathlib.Core.List.{foldl, foldl-append}
use native.Mathlib.Nat.{pow-suc}
use gnserver.Base.Tests.{ltb, lt→ltb, if◌then◌else◌}
use gnserver.Base.Lists.{length, All, length-append, All-append}
use gnserver.Base.Equality.{Bytes}
use gnserver.Base.Errors.{Result, ok, raise, overflow_error}
use Prim.Native.Nat.{ℕ, zero, suc, ◌+◌, ◌*◌, ◌/◌, ◌%◌, ◌^◌, ◌<◌}
use mathlib.Core.Path.{◌≡◌, refl}
use mathlib.Core.List.{[], ◌∷◌, ◌++◌}
use native.Mathlib.Omega.{arith}

abbrev pub IsByte : ℕ → Type 0
IsByte b = b < 256

abbrev pub IsBytes : Bytes → Type 0
IsBytes = All IsByte

-- The low `k` bytes of a number, the highest first.
unfoldable pub be_bytes : ℕ → ℕ → Bytes
be_bytes zero v = []
be_bytes (suc k) v = be_bytes k (v / 256) ++ (v % 256) ∷ []

-- `v.to_bytes(k, "big")`
unfoldable pub to_bytes : ℕ → ℕ → Result Bytes
to_bytes k v = if ltb v (256 ^ k) then ok (be_bytes k v) else raise overflow_error

-- `int.from_bytes(data, "big")`
unfoldable pub from_bytes : Bytes → ℕ
from_bytes = foldl (λ acc b. acc * 256 + b) 0

pub length-be_bytes : (k v : ℕ) → length (be_bytes k v) ≡ k
unfolding be_bytes
length-be_bytes zero v = refl
length-be_bytes (suc k) v =
    omega
      (arith, length-append (be_bytes k (v / 256)) ((v % 256) ∷ []), length-be_bytes k (v / 256))

pub IsBytes-be_bytes : (k v : ℕ) → IsBytes (be_bytes k v)
unfolding be_bytes
IsBytes-be_bytes zero v = tt
IsBytes-be_bytes (suc k) v =
    All-append IsByte (be_bytes k (v / 256)) ((v % 256) ∷ []) (IsBytes-be_bytes k (v / 256))
      (omega arith)

pub from_bytes-snoc : (xs : Bytes) (b : ℕ) → from_bytes (xs ++ b ∷ []) ≡ from_bytes xs * 256 + b
unfolding from_bytes
from_bytes-snoc xs b = rw foldl-append

pub from_bytes-be_bytes : (k v : ℕ) → v < 256 ^ k → from_bytes (be_bytes k v) ≡ v
unfolding be_bytes
from_bytes-be_bytes zero v h = unfold from_bytes in omega arith
from_bytes-be_bytes (suc k) v h =
    let small : v / 256 < 256 ^ k = omega (arith, pow-suc 256 k) in
    rw (from_bytes-snoc, from_bytes-be_bytes k (v / 256) small) (omega arith)

pub to_bytes-eq-ok : (k v : ℕ) → v < 256 ^ k → to_bytes k v ≡ ok (be_bytes k v)
unfolding to_bytes
to_bytes-eq-ok k v h = rw (lt→ltb v (256 ^ k) h)

-- Two bytes are the encoding of the number that they spell.
pub be_bytes-from_bytes :
    (l : Bytes)
    → length l ≡ 2
    → IsBytes l
    → (be_bytes 2 (from_bytes l) ≡ l) × (from_bytes l < 0x10000)
unfolding be_bytes from_bytes
be_bytes-from_bytes [] e h = absurd (omega arith)
be_bytes-from_bytes (a ∷ []) e h = absurd (omega arith)
be_bytes-from_bytes (a ∷ b ∷ []) e h = (ground arith, omega arith)
be_bytes-from_bytes (a ∷ b ∷ c ∷ l) e h = absurd (omega arith)
