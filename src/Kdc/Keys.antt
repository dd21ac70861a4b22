-- ===== src/Kdc/Keys.antt =====
-- _kdc_object.py: the tables from domains to key identifiers and from key identifiers to keys.
pub mod Tables
pub mod Shared
use gnserver.Base.{
  ℕ, zero, suc, Bool, true, false, Option, none, some, List, [], ◌∷◌, ◌++◌, nat_beq, if◌then◌else◌,
  Bytes, Text, Result, ok, raise, key_error, value_error, ◌>>=◌, ◌==◌, Eq, nat_eq, list_eq, pair_eq,
  is_none, not, ◌&&◌,
}
use gnserver.Base.Dict.{Dict, get, put, remove}
use gnserver.Kdc.Types.{KeyId, Item, domain, keyid}

pub record Kdc : Type 0 where
  pub domain_keyid : Dict Text KeyId
  pub keyid_key : Dict KeyId Bytes
  pub requested_domains : List Text
  pub kdc_domain : Option Text
  pub kdc_domain_id : Option KeyId
  pub second_kdc_domain : Option Text
  pub second_kdc_domain_id : Option KeyId

-- The key identifier of an answer: a pair, or a bare number, which stands for `(0, n)`.
pub data Kid : Type 0 where
  pair : KeyId → Kid
  bare : ℕ → Kid

abbrev pub to_keyid : Kid → KeyId
to_keyid (pair k) = k
to_keyid (bare n) = (0, n)

-- `(keyId, domain, key)`
pub record Entry : Type 0 where
  pub kid : Kid
  pub domain : Text
  pub key : Bytes

unfoldable pub store_entry : Entry → Kdc → Kdc
store_entry x k = record k {
  domain_keyid = put x.domain (to_keyid x.kid) k.domain_keyid;
  keyid_key = put (to_keyid x.kid) x.key k.keyid_key;
}

-- The loop of `addServers`.
unfoldable pub store_entries : List Entry → Kdc → Kdc
store_entries [] k = k
store_entries (x ∷ xs) k = store_entries xs (store_entry x k)

-- The dictionary `gn_server_crt.crypto.kdc`; a key that may be missing is an `Option`.
pub record KdcConfig : Type 0 where
  pub domain : Text
  pub self_domain_id : ℕ
  pub key : Bytes
  pub second_domain : Option Text
  pub second_self_domain_id : Option ℕ
  pub second_key : Option Bytes

-- `(255, n) if n else None`
abbrev pub second_id : Option ℕ → Option KeyId
second_id none = none
second_id (some zero) = none
second_id (some (suc n)) = some (255, suc n)

-- The second KDC of the configuration, or the first in its place where none is named.
unfoldable pub init_second : KdcConfig → Option Text → Option KeyId → Kdc → Result Kdc
init_second c (some d) (some i) k = elim c.second_key [
  | none ↦ raise key_error
  | some key ↦ ok (record k {
    domain_keyid = put d i k.domain_keyid;
    keyid_key = put i key k.keyid_key;
    second_kdc_domain = some d;
    second_kdc_domain_id = some i;
  })
]
init_second c none none k = ok (record k {
  domain_keyid = put c.domain (255, c.self_domain_id) k.domain_keyid;
  keyid_key = put (255, c.self_domain_id) c.key k.keyid_key;
  second_kdc_domain = some c.domain;
  second_kdc_domain_id = some (255, c.self_domain_id);
})
init_second c d i k = ok (record k { second_kdc_domain = d; second_kdc_domain_id = i })

-- The part of `init` that sets up the KDC.
unfoldable pub init : Option KdcConfig → List Text → Kdc → Result Kdc
init none requested k = ok (record k {
  requested_domains = requested;
  kdc_domain = none;
  kdc_domain_id = none;
  second_kdc_domain = none;
  second_kdc_domain_id = none;
})
init (some c) requested k =
    init_second c c.second_domain (second_id c.second_self_domain_id) (record {
      requested_domains = requested;
      kdc_domain = some c.domain;
      kdc_domain_id = some (255, c.self_domain_id);
      second_kdc_domain = none;
      second_kdc_domain_id = none;
      domain_keyid = put c.domain (255, c.self_domain_id) k.domain_keyid;
      keyid_key = put (255, c.self_domain_id) c.key k.keyid_key;
    })

unfoldable pub has_configured_kdc : Kdc → Bool
has_configured_kdc k = not (is_none k.kdc_domain) && not (is_none k.kdc_domain_id)

-- `getKey` of a domain raises where a table has no entry; of an identifier it returns `None`.
unfoldable pub get_key : Item → Kdc → Result (Option Bytes)
get_key (domain d) k = elim (get d k.domain_keyid) [
  | none ↦ raise key_error
  | some i ↦ elim (get i k.keyid_key) [ none ↦ raise key_error | some key ↦ ok (some key) ]
]
get_key (keyid i) k = ok (get i k.keyid_key)

-- The loop of `getDomainById`: the first domain with the identifier.
unfoldable pub find_domain : KeyId → Dict Text KeyId → Option Text
find_domain i [] = none
find_domain i ((d, j) ∷ m) = if j == i then some d else find_domain i m

unfoldable pub get_domain_by_id : KeyId → Kdc → Option Text
unfolding find_domain
get_domain_by_id i k = find_domain i k.domain_keyid

unfoldable pub get_key_id_by_domain : Text → Kdc → Option KeyId
get_key_id_by_domain d k = get d k.domain_keyid

-- `deleteKeyByDomain`: the domain is gone also where the key is missing and `pop` raises.
unfoldable pub delete_key_by_domain : Text → Kdc → Kdc × Result (Unit {0})
delete_key_by_domain d k = elim (get d k.domain_keyid) [
  | none ↦ (k, ok tt)
  | some i ↦
      let k' : Kdc = record k { domain_keyid = remove d k.domain_keyid } in
      elim (get i k.keyid_key) [
        | none ↦ (k', raise key_error)
        | some key ↦ (record k' { keyid_key = remove i k.keyid_key }, ok tt)
      ]
]
