-- ===== src/Session/Certificate.antt =====
-- _gn_pq_session.py: GNPQServerCertificate and GNPQServerHello. The serializer of the package
-- `KeyisBTools` and `str.casefold` are fields of `Serial`. A datetime is its instant, so that
-- `_normalize_datetime` is the identity.
pub mod Hello
use gnserver.Base.{
  ℕ, Bool, true, false, Option, none, some, List, [], ◌∷◌, ◌++◌, not, ◌||◌, is_empty, length, take,
  slice, nat_beq, ltb, if◌then◌else◌, Bytes, Text, codes, Result, ok, raise, raise_if, value_error,
  ◌>>=◌, ◌>>◌, ◌==◌, Eq, nat_eq, list_eq, ◌+◌,
}
use gnserver.Base.Dict.{Dict, get, put}
use gnserver.Base.Int.{ℤ, pos, is_negative}
use gnserver.Session.{nonce_len, x25519_public_key_len}
use gnserver.Session.Wire.{encode_blob, decode_blob, encode_text, decode_text}

mutual
  -- What the serializer reads and writes. The key of an entry of a dictionary is a string, or it is
  -- something else, which no lookup finds.
  pub data Value : Type 0 where
    null other : Value
    bool : Bool → Value
    int : ℤ → Value
    str : Text → Value
    bytes : Bytes → Value
    datetime : ℕ → Value
    dict : Fields → Value

  pub data Fields : Type 0 where
    done : Fields
    field : Text → Value → Fields → Fields
    odd_field : Value → Fields → Fields

pub record Serial : Type 0 where
  pub serialize : Value → Bytes
  pub deserialize : Bytes → Result Value
  pub casefold : Text → Text

-- `data.get(name)`
unfoldable pub find : Text → Fields → Value
find name done = null
find name (field n v fs) = let rest = find name fs in if n == name then v else rest
find name (odd_field v fs) = find name fs

-- `_ALGORITHM_NAME_ALIASES`
abbrev pub algorithm_name_aliases : Dict Text Text
algorithm_name_aliases =
    (codes "dilithium2", codes "ml-dsa-44")
    ∷ (codes "dilithium3", codes "ml-dsa-65")
    ∷ (codes "dilithium5", codes "ml-dsa-87")
    ∷ []

-- `aliases.get(name, name)`
unfoldable pub alias_of : Dict Text Text → Text → Text
alias_of aliases name = elim (get name aliases) [ none ↦ name | some a ↦ a ]

module _ (s : Serial) where
  unfoldable pub normalize_algorithm_name : Text → Text
  normalize_algorithm_name name = alias_of algorithm_name_aliases (s.casefold name)

pub record Certificate : Type 0 where
  pub center_domain : Text
  pub center_key_version : ℤ
  pub name : Text
  pub public_keys : Dict Text Bytes
  pub expires_at : ℕ
  pub signature : Bytes
  pub source_data : Option Fields

-- The loop over `public_keys` in `__post_init__`.
unfoldable pub normalize_public_keys :
    Serial → Dict Text Bytes → Dict Text Bytes → Result (Dict Text Bytes)
normalize_public_keys s [] acc = ok acc
normalize_public_keys s ((algorithm, key) ∷ keys) acc =
    raise_if (is_empty algorithm) value_error
    >> (raise_if (is_empty key) value_error
        >> normalize_public_keys s keys (put (normalize_algorithm_name s algorithm) key acc))

-- GNPQServerCertificate(…): `__post_init__` of the fields of `c`.
unfoldable pub new_certificate : Serial → Certificate → Result Certificate
new_certificate s c = do
  raise_if (is_empty c.center_domain) value_error
  raise_if (is_negative c.center_key_version) value_error
  raise_if (is_empty c.name) value_error
  keys ← normalize_public_keys s c.public_keys []
  raise_if (is_empty keys) value_error
  ok (record c { public_keys = keys })

unfoldable pub get_public_key : Serial → Text → Certificate → Result Bytes
get_public_key s algorithm c = elim (get (normalize_algorithm_name s algorithm) c.public_keys) [
  | none ↦ raise value_error
  | some key ↦ ok key
]

-- `{algorithm: {"pub": public_key} for …}`
unfoldable pub key_fields : Dict Text Bytes → Fields
key_fields [] = done
key_fields ((algorithm, key) ∷ keys) =
    field algorithm (dict (field (codes "pub") (bytes key) done)) (key_fields keys)

unfoldable pub data_dict : Certificate → Fields
data_dict c = field (codes "c") (str c.center_domain) (
    field (codes "c_v") (int c.center_key_version) (
      field (codes "domain") (str c.name) (
        field (codes "algs") (dict (key_fields c.public_keys))
          (field (codes "exp") (datetime c.expires_at) done))))

-- `self.source_data if self.source_data is not None else self.data_dict()`
unfoldable pub data_of : Certificate → Fields
data_of c = elim c.source_data [ none ↦ data_dict c | some fields ↦ fields ]

unfoldable pub unsigned_bytes : Serial → Certificate → Bytes
unsigned_bytes s c = s.serialize (dict (data_of c))

-- What `to_bytes` serializes.
unfoldable pub signed_dict : Certificate → Value
signed_dict c =
    dict (field (codes "data") (dict (data_of c)) (field (codes "sign") (bytes c.signature) done))

unfoldable pub certificate_to_bytes : Serial → Certificate → Bytes
certificate_to_bytes s c = s.serialize (signed_dict c)

-- The tests `isinstance(value, …)` of `from_dict`; a bool is an int.
abbrev pub as_dict : Value → Result Fields
as_dict (dict fields) = ok fields
as_dict v = raise value_error

abbrev pub as_bytes : Value → Result Bytes
as_bytes (bytes b) = ok b
as_bytes v = raise value_error

abbrev pub as_str : Value → Result Text
as_str (str t) = ok t
as_str v = raise value_error

abbrev pub as_int : Value → Result ℤ
as_int (int z) = ok z
as_int (bool true) = ok (pos 1)
as_int (bool false) = ok (pos 0)
as_int v = raise value_error

abbrev pub as_datetime : Value → Result ℕ
as_datetime (datetime t) = ok t
as_datetime v = raise value_error

-- The loop over `algs.items()`.
unfoldable pub read_keys : Fields → Result (Dict Text Bytes)
read_keys done = ok []
read_keys (field algorithm v fs) =
    raise_if (is_empty algorithm) value_error
    >> (as_dict v >>= λ entry. as_bytes (find (codes "pub") entry) >>= λ key.
        read_keys fs >>= λ keys. ok ((algorithm, key) ∷ keys))
read_keys (odd_field v fs) = raise value_error

abbrev pub no_fields : Fields → Bool
no_fields done = true
no_fields (field n v fs) = false
no_fields (odd_field v fs) = false

unfoldable pub from_dict : Serial → Value → Result Certificate
from_dict s value = do
  fields ← as_dict value
  inner ← as_dict (find (codes "data") fields)
  signature ← as_bytes (find (codes "sign") fields)
  center_domain ← as_str (find (codes "c") inner)
  raise_if (is_empty center_domain) value_error
  version ← as_int (find (codes "c_v") inner)
  raise_if (is_negative version) value_error
  name ← as_str (find (codes "domain") inner)
  raise_if (is_empty name) value_error
  algs ← as_dict (find (codes "algs") inner)
  raise_if (no_fields algs) value_error
  expires_at ← as_datetime (find (codes "exp") inner)
  keys ← read_keys algs
  new_certificate s (record {
    center_domain = center_domain;
    center_key_version = version;
    name = name;
    public_keys = keys;
    expires_at = expires_at;
    signature = signature;
    source_data = some inner;
  })

unfoldable pub certificate_from_bytes : Serial → Bytes → Result Certificate
certificate_from_bytes s payload = s.deserialize payload >>= from_dict s

pub record ServerHello : Type 0 where
  pub server_nonce : Bytes
  pub server_x25519_public_key : Bytes
  pub server_ml_kem_public_key : Bytes
  pub signature_algorithm : Text
  pub server_certificate : Certificate
  pub signature : Bytes

-- GNPQServerHello(…): `__post_init__` of the fields of `h`.
unfoldable pub new_server_hello : ServerHello → Result ServerHello
new_server_hello h = do
  raise_if (not (nat_beq (length h.server_nonce) nonce_len)) value_error
  raise_if (not (nat_beq (length h.server_x25519_public_key) x25519_public_key_len)) value_error
  raise_if (is_empty h.server_ml_kem_public_key) value_error
  raise_if (is_empty h.signature_algorithm) value_error
  ok h

unfoldable pub hello_unsigned_bytes : Serial → ServerHello → Result Bytes
hello_unsigned_bytes s h = do
  kem ← encode_blob h.server_ml_kem_public_key
  algorithm ← encode_text h.signature_algorithm
  certificate ← encode_blob (certificate_to_bytes s h.server_certificate)
  ok (h.server_nonce ++ (h.server_x25519_public_key ++ (kem ++ (algorithm ++ certificate))))

unfoldable pub hello_to_bytes : Serial → ServerHello → Result Bytes
hello_to_bytes s h = do
  unsigned ← hello_unsigned_bytes s h
  signature ← encode_blob h.signature
  ok (unsigned ++ signature)

unfoldable pub hello_from_bytes : Serial → Bytes → Result ServerHello
hello_from_bytes s payload = do
  raise_if (ltb (length payload) (nonce_len + x25519_public_key_len + 2 + 2 + 2 + 2)) value_error
  (kem, offset1) ← decode_blob payload (nonce_len + x25519_public_key_len)
  (algorithm, offset2) ← decode_text payload offset1
  (raw, offset3) ← decode_blob payload offset2
  certificate ← certificate_from_bytes s raw
  (signature, offset4) ← decode_blob payload offset3
  raise_if (not (nat_beq offset4 (length payload))) value_error
  new_server_hello (record {
    server_nonce = slice 0 nonce_len payload;
    server_x25519_public_key = slice nonce_len (nonce_len + x25519_public_key_len) payload;
    server_ml_kem_public_key = kem;
    signature_algorithm = algorithm;
    server_certificate = certificate;
    signature = signature;
  })
