-- ===== src/Base/Errors.antt =====
-- Python's exceptions as values. An exception is told by its class; messages are left out.
use mathlib.Core.Path.{◌≡◌, refl}
use mathlib.Core.Bool.{Bool, true, false}
use mathlib.Core.Logic.{◌⊎◌, inl, inr}
use native.Mathlib.Omega.{arith}

pub data Error : Type 0 where
  value_error type_error key_error overflow_error attribute_error : Error
  unicode_decode_error unicode_encode_error index_error assertion_error : Error
  mechanism_not_supported mac_mismatch : Error
  unsupported_key_type key_domain_not_found key_id_not_found policy_denied : Error
  invalid_response_format gn_response : Error
  client_type_not_allowed object_type_not_allowed origin_not_allowed : Error
  cors_method_not_allowed transport_protocol_not_allowed : Error
  unprocessable_entity bad_request method_not_allowed path_not_found rejected : Error
  validation_error data_model_validation_error data_model_error regex_error recursion_error : Error

pub data Result {ℓ} (S : Type ℓ) : Type ℓ where
  ok : S → Result S
  raise : Error → Result S

-- `if test: raise error`
abbrev pub raise_if : Bool → Error → Result (Unit {0})
raise_if false error = ok tt
raise_if true error = raise error

infixl 5 ◌>>=◌
abbrev pub ◌>>=◌ {ℓ κ} : {S : Type ℓ} {T : Type κ} → Result S → (S → Result T) → Result T
raise error >>= next = raise error
ok value >>= next = next value

-- What a statement without a value and the rest do.
infixl 5 ◌>>◌
abbrev pub ◌>>◌ {κ} : {T : Type κ} → Result (Unit {0}) → Result T → Result T
first >> rest = first >>= λ u. rest

pub >>=-eq-ok {ℓ κ} :
    {S : Type ℓ} {T : Type κ} (first : Result S) (next : S → Result T) {t : T}
    → (first >>= next) ≡ ok t
    → (s : S) × (first ≡ ok s) × (next s ≡ ok t)
>>=-eq-ok (raise error) next h = cc
>>=-eq-ok (ok s) next h = (s, refl, h)

pub Result-cases {ℓ} :
    {A : Type ℓ} (m : Result A) → ((a : A) × (m ≡ ok a)) ⊎ ((e : Error) × (m ≡ raise e))
Result-cases (ok a) = inl (a, refl)
Result-cases (raise e) = inr (e, refl)

pub raise_if-eq-ok : (b : Bool) (e : Error) {u : Unit {0}} → raise_if b e ≡ ok u → b ≡ false
raise_if-eq-ok b e h = ground arith

pub ok-injective {ℓ} : {A : Type ℓ} {a b : A} → ok a ≡ ok b → a ≡ b
ok-injective e = cc
