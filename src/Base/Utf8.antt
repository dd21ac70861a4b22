-- ===== src/Base/Utf8.antt =====
-- `str.encode("utf-8")` and `bytes.decode("utf-8")`, both strict. A text is a list of code points.
use Prim.Native.Nat.{ℕ, zero, suc, ◌+◌, ◌-◌, ◌*◌, ◌/◌, ◌%◌, ◌≤◌, ◌<◌}
use mathlib.Core.Path.{◌≡◌}
use mathlib.Core.Bool.{Bool, false, not, ◌&&◌}
use mathlib.Core.List.{[], ◌∷◌, ◌++◌}
use native.Mathlib.Omega.{arith}
use gnserver.Base.Tests.{ltb, leb, if◌then◌else◌}
use gnserver.Base.Lists.{length, length-append}
use gnserver.Base.Equality.{Text, Bytes}
use gnserver.Base.Errors.{
  Result, ok, raise, unicode_decode_error, unicode_encode_error, ◌>>=◌, >>=-eq-ok,
}

-- A lone surrogate has no encoding.
is_surrogate : ℕ → Bool
is_surrogate c = leb 0xd800 c && ltb c 0xe000

encode_char : ℕ → Result Bytes
unfolding is_surrogate
encode_char c =
    if ltb c 0x80
    then ok (c ∷ [])
    else if ltb c 0x800
    then ok ((0xc0 + c / 64) ∷ (0x80 + c % 64) ∷ [])
    else if is_surrogate c
    then raise unicode_encode_error
    else if ltb c 0x10000
    then ok ((0xe0 + c / 4096) ∷ (0x80 + c / 64 % 64) ∷ (0x80 + c % 64) ∷ [])
    else if ltb c 0x110000
    then ok
        ((0xf0 + c / 262144) ∷ (0x80 + c / 4096 % 64) ∷ (0x80 + c / 64 % 64) ∷ (0x80 + c % 64) ∷ [])
    else raise unicode_encode_error

unfoldable pub encode : Text → Result Bytes
unfolding encode_char
encode [] = ok []
encode (c ∷ t) = do b ← encode_char c; rest ← encode t; ok (b ++ rest)

is_continuation : ℕ → Bool
is_continuation b = leb 0x80 b && ltb b 0xc0

decode_two : ℕ → Bytes → Result (ℕ × Bytes)
decode_two a [] = raise unicode_decode_error
decode_two a (b ∷ l) =
    if is_continuation b then ok ((a - 0xc0) * 64 + (b - 0x80), l) else raise unicode_decode_error

decode_three : ℕ → Bytes → Result (ℕ × Bytes)
decode_three a (b ∷ c ∷ l) =
    let v = (a - 0xe0) * 4096 + (b - 0x80) * 64 + (c - 0x80) in
    if is_continuation b && is_continuation c && leb 0x800 v && not (is_surrogate v)
    then ok (v, l)
    else raise unicode_decode_error
decode_three a l = raise unicode_decode_error

decode_four : ℕ → Bytes → Result (ℕ × Bytes)
decode_four a (b ∷ c ∷ d ∷ l) =
    let v = (a - 0xf0) * 262144 + (b - 0x80) * 4096 + (c - 0x80) * 64 + (d - 0x80) in
    if is_continuation b
      && is_continuation c
      && is_continuation d
      && leb 0x10000 v
      && ltb v 0x110000
    then ok (v, l)
    else raise unicode_decode_error
decode_four a l = raise unicode_decode_error

decode_char : Bytes → Result (ℕ × Bytes)
unfolding decode_two decode_three decode_four is_continuation is_surrogate
decode_char [] = raise unicode_decode_error
decode_char (a ∷ l) =
    if ltb a 0x80
    then ok (a, l)
    else if ltb a 0xc2
    then raise unicode_decode_error
    else if ltb a 0xe0
    then decode_two a l
    else if ltb a 0xf0
    then decode_three a l
    else if ltb a 0xf5
    then decode_four a l
    else raise unicode_decode_error

-- Each round reads at least one byte, so the length of the input is fuel enough.
decode_fuel : ℕ → Bytes → Result Text
decode_fuel fuel [] = ok []
decode_fuel zero (a ∷ l) = raise unicode_decode_error
decode_fuel (suc fuel) (a ∷ l) = do
  (c, rest) ← decode_char (a ∷ l)
  t ← decode_fuel fuel rest
  ok (c ∷ t)

unfoldable pub decode : Bytes → Result Text
unfolding decode_fuel decode_char
decode l = decode_fuel (length l) l

module _ (c : ℕ) (l : Bytes) where
  decode_char-one : c < 0x80 → decode_char (c ∷ l) ≡ ok (c, l)
  unfolding decode_char
  decode_char-one h = ground arith

  decode_char-two :
      0x80 ≤ c → c < 0x800 → decode_char ((0xc0 + c / 64) ∷ (0x80 + c % 64) ∷ l) ≡ ok (c, l)
  unfolding decode_char
  decode_char-two h k = ground arith

  decode_char-three :
      0x800 ≤ c
      → c < 0x10000
      → is_surrogate c ≡ false
      → decode_char ((0xe0 + c / 4096) ∷ (0x80 + c / 64 % 64) ∷ (0x80 + c % 64) ∷ l) ≡ ok (c, l)
  unfolding decode_char
  decode_char-three h k s = ground arith

  decode_char-four :
      0x10000 ≤ c
      → c < 0x110000
      → decode_char (
          (0xf0 + c / 262144) ∷ (0x80 + c / 4096 % 64) ∷ (0x80 + c / 64 % 64) ∷ (0x80 + c % 64) ∷ l)
        ≡ ok (c, l)
  unfolding decode_char
  decode_char-four h k = ground arith

decode_char-encode_char :
    (c : ℕ) (b l : Bytes)
    → encode_char c ≡ ok b
    → (decode_char (b ++ l) ≡ ok (c, l)) × (1 ≤ length b)
unfolding encode_char
decode_char-encode_char c b l h =
    ground
      (arith, decode_char-one c l, decode_char-two c l, decode_char-three c l, decode_char-four c l)

decode_fuel-step :
    (c fuel : ℕ) (t : Text) (b r : Bytes)
    → (decode_char (b ++ r) ≡ ok (c, r)) × (1 ≤ length b)
    → decode_fuel fuel r ≡ ok t
    → decode_fuel (suc fuel) (b ++ r) ≡ ok (c ∷ t)
unfolding decode_fuel
decode_fuel-step c fuel t [] r h k = absurd (omega arith)
decode_fuel-step c fuel t (a ∷ b) r h k = rw (h.0, k)

-- Enough fuel is the length of the input.
decode_fuel-encode :
    (t : Text) (bs : Bytes) (fuel : ℕ)
    → encode t ≡ ok bs
    → length bs ≤ fuel
    → decode_fuel fuel bs ≡ ok t
unfolding encode decode_fuel
decode_fuel-encode [] bs fuel h k = ground arith
decode_fuel-encode (c ∷ t) bs zero h k =
    let (b, eb, h') = >>=-eq-ok (encode_char c) _ h in
    let (r, er, e) = >>=-eq-ok (encode t) _ h' in
    absurd (ground (arith, decode_char-encode_char c b r eb, length-append b r))
decode_fuel-encode (c ∷ t) bs (suc fuel) h k =
    let (b, eb, h') = >>=-eq-ok (encode_char c) _ h in
    let (r, er, e) = >>=-eq-ok (encode t) _ h' in
    let round = decode_char-encode_char c b r eb in
    let e' : bs ≡ b ++ r = ground arith in
    let fits : length r ≤ fuel = ground (arith, length-append b r) in
    rw e' (decode_fuel-step c fuel t b r round (decode_fuel-encode t r fuel er fits))

pub decode-encode : (t : Text) (bs : Bytes) → encode t ≡ ok bs → decode bs ≡ ok t
unfolding decode
decode-encode t bs h = decode_fuel-encode t bs (length bs) h (omega arith)
