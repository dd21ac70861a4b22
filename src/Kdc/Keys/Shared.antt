-- ===== src/Kdc/Keys/Shared.antt =====
-- `deleteKeyByDomain`, where the key is the domain's own and where two domains share it.
use gnserver.Base.{
  ◌≡◌, ◌≢◌, refl, ◌∙◌, sym, none, some, arith, Text, Bytes, nat_eq, list_eq, pair_eq, list_beq_iff,
  pair_beq_iff, Option-cases, inl, inr, Result, ok, raise, key_error,
}
use gnserver.Base.Dict.{get, remove, get-remove, get-remove_self}
use gnserver.Kdc.Types.{KeyId, domain}
use gnserver.Kdc.Keys.{Kdc, get_key, get_key_id_by_domain, delete_key_by_domain}
use gnserver.Kdc.Keys.Tables.{IsKeyed, get_key_held, get_key_missing}

-- No other domain has the identifier of `d`.
abbrev pub IsAlone : Text → Kdc → Type 0
IsAlone d k =
    (e : Text) (i : KeyId) → get d k.domain_keyid ≡ some i → get e k.domain_keyid ≡ some i → e ≡ d

abbrev without : Text → KeyId → Kdc → Kdc
without d i k = record k {
  domain_keyid = remove d k.domain_keyid;
  keyid_key = remove i k.keyid_key;
}

delete_held :
    (d : Text) (i : KeyId) (key : Bytes) (k : Kdc)
    → get d k.domain_keyid ≡ some i
    → get i k.keyid_key ≡ some key
    → delete_key_by_domain d k ≡ (without d i k, ok tt)
unfolding delete_key_by_domain
delete_held d i key k at held = rw (at, delete_key_by_domain, held)

delete_unknown :
    (d : Text) (k : Kdc) → get d k.domain_keyid ≡ none → delete_key_by_domain d k ≡ (k, ok tt)
unfolding delete_key_by_domain
delete_unknown d k gone = rw (gone, delete_key_by_domain)

delete_keyless :
    (d : Text) (i : KeyId) (k : Kdc)
    → get d k.domain_keyid ≡ some i
    → get i k.keyid_key ≡ none
    → (delete_key_by_domain d k).1 ≡ raise key_error
unfolding delete_key_by_domain
delete_keyless d i k at gone = rw (at, delete_key_by_domain, gone)

-- What stays after the deletion of a domain that has its identifier alone.
module _ (d : Text) (i : KeyId) (k : Kdc) (h : IsKeyed k) (alone : IsAlone d k)
    (at : get d k.domain_keyid ≡ some i) where
  key_of_other :
      (e : Text) (j : KeyId)
      → get e (remove d k.domain_keyid) ≡ some j
      → (key : Bytes) × (get j k.keyid_key ≡ some key) × (get j (remove i k.keyid_key) ≡ some key)
  key_of_other e j held =
      let old : get e k.domain_keyid ≡ some j = ground (arith, get-remove d e k.domain_keyid) in
      let (key, has) = h e j old in
      (
        key,
        has,
        ground (
          arith,
          get-remove i j k.keyid_key,
          get-remove d e k.domain_keyid,
          pair_beq_iff i j,
          list_beq_iff d e,
          alone e i at,
        ),
      )

  get_key_of_other : (e : Text) → e ≢ d → get_key (domain e) (without d i k) ≡ get_key (domain e) k
  unfolding get_key
  get_key_of_other e other = elim (Option-cases (get e k.domain_keyid)) [
    | inl gone ↦
        let gone' : get e (remove d k.domain_keyid) ≡ none =
          ground (arith, get-remove d e k.domain_keyid) in
        rw (gone, get_key, gone')
    | inr (j, old) ↦
        let still : get e (remove d k.domain_keyid) ≡ some j =
          ground (arith, get-remove d e k.domain_keyid, list_beq_iff d e) in
        let (key, has, has') = key_of_other e j still in
        get_key_held (without d i k) e j key still has' ∙ sym (get_key_held k e j key old has)
  ]

  delete_result :
      (r : Kdc × Result (Unit {0}))
      → r ≡ (without d i k, ok tt)
      → (r.1 ≡ ok tt)
        × (get d r.0.domain_keyid ≡ none)
        × ((e : Text) → e ≢ d → get_key (domain e) r.0 ≡ get_key (domain e) k)
        × IsKeyed r.0
  delete_result r e = rw e (
    refl,
    get-remove_self d k.domain_keyid,
    get_key_of_other,
    λ d' j held. let (key, _, has) = key_of_other d' j held in (key, has),
  )

-- Where the domain has its identifier alone, the deletion returns, the domain is unknown, every
-- other domain is as before, and the tables stay keyed.
pub delete_key_by_domain_alone :
    (d : Text) (k : Kdc)
    → IsKeyed k
    → IsAlone d k
    → let r = delete_key_by_domain d k in
      (r.1 ≡ ok tt)
      × (get_key_id_by_domain d r.0 ≡ none)
      × ((e : Text) → e ≢ d → get_key (domain e) r.0 ≡ get_key (domain e) k)
      × IsKeyed r.0
unfolding get_key_id_by_domain
delete_key_by_domain_alone d k h alone = elim (Option-cases (get d k.domain_keyid)) [
  | inl gone ↦ rw (delete_unknown d k gone) (refl, gone, λ e other. refl, h)
  | inr (i, at) ↦
      let (key, held) = h d i at in
      delete_result d i k h alone at (delete_key_by_domain d k) (delete_held d i key k at held)
]

-- Where another domain shares the identifier, the deletion takes its key: to ask for that key
-- raises KeyError, and so does the deletion of the other domain.
pub delete_key_by_domain_shared :
    (d e : Text) (i : KeyId) (k : Kdc)
    → IsKeyed k
    → d ≢ e
    → get_key_id_by_domain d k ≡ some i
    → get_key_id_by_domain e k ≡ some i
    → let r = delete_key_by_domain d k in
      (r.1 ≡ ok tt)
      × (get_key (domain e) r.0 ≡ raise key_error)
      × ((delete_key_by_domain e r.0).1 ≡ raise key_error)
unfolding get_key_id_by_domain
delete_key_by_domain_shared d e i k h other at shared =
    let (key, held) = h d i at in
    let still : get e (remove d k.domain_keyid) ≡ some i =
      ground (arith, get-remove d e k.domain_keyid, list_beq_iff d e) in
    let gone = get-remove_self i k.keyid_key in
    rw (delete_held d i key k at held) (
      refl,
      get_key_missing (without d i k) e i still gone,
      delete_keyless e i (without d i k) still gone,
    )
