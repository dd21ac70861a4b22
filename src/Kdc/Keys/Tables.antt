-- ===== src/Kdc/Keys/Tables.antt =====
-- What the key tables hold after entries are stored.
use gnserver.Base.{
  ◌≡◌, ◌↔◌, key_error, refl, Option, none, some, List, [], ◌∷◌, arith, if◌then◌else◌, Text, Bytes,
  ◌==◌, nat_eq, list_eq, pair_eq, pair_beq_iff, Bool-cases, Option-cases, inl, inr, ok, raise,
}
use gnserver.Base.Dict.{get, put, get-put}
use gnserver.Kdc.Types.{KeyId, domain, keyid}
use gnserver.Kdc.Keys.{
  Kdc, Kid, Entry, to_keyid, store_entry, store_entries, KdcConfig, init, init_second, second_id,
  get_key, get_key_id_by_domain,
}

-- The identifier that the last entry of a domain gives it, or the one that it had.
abbrev pub last_keyid : Text → List Entry → Option KeyId → Option KeyId
last_keyid d [] before = before
last_keyid d (x ∷ xs) before =
    last_keyid d xs (if x.domain == d then some (to_keyid x.kid) else before)

-- The key that the last entry of an identifier gives it, or the one that it had.
abbrev pub last_key : KeyId → List Entry → Option Bytes → Option Bytes
last_key i [] before = before
last_key i (x ∷ xs) before = last_key i xs (if to_keyid x.kid == i then some x.key else before)

-- After entries are stored, a domain has the identifier and an identifier the key of the last entry
-- for it, and what no entry names is as before.
pub store_entries_lem :
    (xs : List Entry) (k : Kdc) (d : Text) (i : KeyId)
    → (get_key_id_by_domain d (store_entries xs k) ≡ last_keyid d xs (get_key_id_by_domain d k))
      × (get_key (keyid i) (store_entries xs k) ≡ ok (last_key i xs (get i k.keyid_key)))
unfolding store_entries store_entry get_key_id_by_domain get_key
store_entries_lem [] k d i = (refl, refl)
store_entries_lem (x ∷ xs) k d i =
    let (ids, keys) = store_entries_lem xs (store_entry x k) d i in
    (
      rw (get-put x.domain d (to_keyid x.kid) k.domain_keyid) at ids,
      rw (get-put (to_keyid x.kid) i x.key k.keyid_key) at keys,
    )

-- Every domain that has an identifier has a key.
abbrev pub IsKeyed : Kdc → Type 0
IsKeyed k =
    (d : Text) (i : KeyId)
    → get d k.domain_keyid ≡ some i
    → (key : Bytes) × (get i k.keyid_key ≡ some key)

pub store_entry-IsKeyed : (x : Entry) (k : Kdc) → IsKeyed k → IsKeyed (store_entry x k)
unfolding store_entry
store_entry-IsKeyed x k h d i at = elim (Bool-cases (to_keyid x.kid == i)) [
  | inl same ↦ (x.key, ground (arith, get-put (to_keyid x.kid) i x.key k.keyid_key))
  | inr other ↦
      let old : get d k.domain_keyid ≡ some i = ground (
        arith,
        get-put x.domain d (to_keyid x.kid) k.domain_keyid,
        pair_beq_iff (to_keyid x.kid) i,
      ) in
      let (key, held) = h d i old in
      (key, ground (arith, get-put (to_keyid x.kid) i x.key k.keyid_key))
]

pub store_entries-IsKeyed : (xs : List Entry) (k : Kdc) → IsKeyed k → IsKeyed (store_entries xs k)
unfolding store_entries
store_entries-IsKeyed [] k h = h
store_entries-IsKeyed (x ∷ xs) k h =
    store_entries-IsKeyed xs (store_entry x k) (store_entry-IsKeyed x k h)

-- A state with the tables of another that is keyed.
same_tables :
    (k k' : Kdc)
    → IsKeyed k
    → k'.domain_keyid ≡ k.domain_keyid
    → k'.keyid_key ≡ k.keyid_key
    → IsKeyed k'
same_tables k k' h e f d i at = let (key, held) = h d i (rw e at at) in (key, rw f held)

init_second-IsKeyed :
    (c : KdcConfig) (sd : Option Text) (si : Option KeyId) (k k' : Kdc)
    → IsKeyed k
    → init_second c sd si k ≡ ok k'
    → IsKeyed k'
unfolding init_second
init_second-IsKeyed c (some d) (some i) k k' h e = elim (Option-cases c.second_key) [
  | inl gone ↦ absurd (ground arith)
  | inr (key, held) ↦
      let x : Entry = record { kid = Kid.pair i; domain = d; key = key } in
      same_tables (store_entry x k) k' (store_entry-IsKeyed x k h)
        (unfold store_entry in ground arith) (unfold store_entry in ground arith)
]
init_second-IsKeyed c none none k k' h e =
    let x : Entry = record {
      kid = Kid.pair (255, c.self_domain_id);
      domain = c.domain;
      key = c.key;
    } in
    same_tables (store_entry x k) k' (store_entry-IsKeyed x k h)
      (unfold store_entry in ground arith) (unfold store_entry in ground arith)
init_second-IsKeyed c (some d) none k k' h e = same_tables k k' h (ground arith) (ground arith)
init_second-IsKeyed c none (some i) k k' h e = same_tables k k' h (ground arith) (ground arith)

-- `init` leaves no domain without a key.
init-IsKeyed :
    (c : Option KdcConfig) (requested : List Text) (k k' : Kdc)
    → IsKeyed k
    → init c requested k ≡ ok k'
    → IsKeyed k'
unfolding init
init-IsKeyed none requested k k' h e = same_tables k k' h (ground arith) (ground arith)
init-IsKeyed (some c) requested k k' h e =
    let x : Entry = record {
      kid = Kid.pair (255, c.self_domain_id);
      domain = c.domain;
      key = c.key;
    } in
    let first : Kdc = record {
      requested_domains = requested;
      kdc_domain = some c.domain;
      kdc_domain_id = some (255, c.self_domain_id);
      second_kdc_domain = none;
      second_kdc_domain_id = none;
      domain_keyid = put c.domain (255, c.self_domain_id) k.domain_keyid;
      keyid_key = put (255, c.self_domain_id) c.key k.keyid_key;
    } in
    init_second-IsKeyed c c.second_domain (second_id c.second_self_domain_id) first k'
      (same_tables (store_entry x k) first (store_entry-IsKeyed x k h) (unfold store_entry in refl)
        (unfold store_entry in refl))
      e

pub get_key_held :
    (k : Kdc) (d : Text) (i : KeyId) (key : Bytes)
    → get d k.domain_keyid ≡ some i
    → get i k.keyid_key ≡ some key
    → get_key (domain d) k ≡ ok (some key)
unfolding get_key
get_key_held k d i key at held = rw (at, get_key, held)

pub get_key_missing :
    (k : Kdc) (d : Text) (i : KeyId)
    → get d k.domain_keyid ≡ some i
    → get i k.keyid_key ≡ none
    → get_key (domain d) k ≡ raise key_error
unfolding get_key
get_key_missing k d i at gone = rw (at, get_key, gone)

-- In keyed tables a known domain has a key, and an unknown one raises.
pub get_key-IsKeyed :
    (k : Kdc) (d : Text)
    → IsKeyed k
    → (get_key (domain d) k ≡ raise key_error) ↔ (get_key_id_by_domain d k ≡ none)
unfolding get_key get_key_id_by_domain
get_key-IsKeyed k d h = elim (Option-cases (get d k.domain_keyid)) [
  | inl gone ↦ (λ e. gone, λ e. rw (gone, get_key))
  | inr (i, at) ↦
      let (key, held) = h d i at in
      (λ e. absurd (cc (e, get_key_held k d i key at held)), λ e. absurd (ground arith))
]
