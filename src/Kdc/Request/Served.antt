-- ===== src/Kdc/Request/Served.antt =====
-- `addServers`: which requested domains are left to ask for.
use mathlib.Core.List.{append_assoc}
use gnserver.Base.{
  All-append, ℕ, ◌≡◌, ◌≤◌, ◌+◌, refl, sym, Option, some, List, [], ◌∷◌, ◌++◌, if◌then◌else◌, Text,
  ok, ◌==◌, nat_eq, list_eq, pair_eq, list_beq_iff, arith, Bool-cases, inl, inr, is_empty, map,
  nat_beq, nat_beq_iff, All,
}
use gnserver.Base.Dict.{get}
use gnserver.Kdc.Types.{KeyId, domain, keyid}
use gnserver.Kdc.Keys.{Kdc, Entry, store_entry, store_entries, get_key, get_key_id_by_domain}
use gnserver.Kdc.Keys.Tables.{last_keyid, last_key, store_entries_lem}
use gnserver.Kdc.Request.{
  Sync, remove_first, remove_named, remove_served, request_rest, asked, add_servers, request_kdc,
}

-- How many entries name a domain.
abbrev pub count_named : Text → List Entry → ℕ
count_named d [] = 0
count_named d (x ∷ xs) = (if d == x.domain then 1 else 0) + count_named d xs

-- The requested domains that no entry names.
abbrev pub unnamed : List Entry → List Text → List Text
unnamed servers [] = []
unnamed servers (d ∷ ds) =
    let rest = unnamed servers ds in if nat_beq (count_named d servers) 0 then d ∷ rest else rest

remove_named_none :
    (d : Text) (xs : List Entry) (cur : List Text)
    → count_named d xs ≡ 0
    → remove_named d xs cur ≡ (cur, ok tt)
unfolding remove_named
remove_named_none d [] cur h = refl
remove_named_none d (x ∷ xs) cur h = let ih = remove_named_none d xs cur in ground arith

remove_named_one :
    (d : Text) (xs : List Entry) (cur cur' : List Text)
    → count_named d xs ≡ 1
    → remove_first d cur ≡ some cur'
    → remove_named d xs cur ≡ (cur', ok tt)
unfolding remove_named
remove_named_one d [] cur cur' h e = absurd (ground arith)
remove_named_one d (x ∷ xs) cur cur' h e = elim (Bool-cases (d == x.domain)) [
  | inl same ↦ rw (same, e, remove_named_none d xs cur' (ground arith))
  | inr other ↦ rw (other, remove_named_one d xs cur cur' (ground arith) e)
]

-- Removing a domain that an entry names passes over the domains that none names.
remove_first-unnamed :
    (servers : List Entry) (d : Text) (kept rest : List Text)
    → All (λ x. count_named x servers ≡ 0) kept
    → count_named d servers ≡ 1
    → remove_first d (kept ++ d ∷ rest) ≡ some (kept ++ rest)
unfolding remove_first
remove_first-unnamed servers d [] rest old named = ground (arith, list_beq_iff d d)
remove_first-unnamed servers d (x ∷ kept) rest (here, old) named =
    let ih = remove_first-unnamed servers d kept rest old named in
    elim (Bool-cases (x == d)) [
      | inl same ↦ absurd (let e = (list_beq_iff x d).0 same in omega (arith, rw e at here))
      | inr other ↦ rw (other, ih)
    ]

-- The loop over the requested domains, after `kept` have been passed.
remove_served-unnamed :
    (servers : List Entry) (ds kept : List Text)
    → ((d : Text) → count_named d servers ≤ 1)
    → All (λ x. count_named x servers ≡ 0) kept
    → remove_served ds servers (kept ++ ds) ≡ (kept ++ unnamed servers ds, ok tt)
unfolding remove_served
remove_served-unnamed servers [] kept once old = refl
remove_served-unnamed servers (d ∷ ds) kept once old =
    elim (Bool-cases (nat_beq (count_named d servers) 0)) [
      | inl free ↦
          let none_left : count_named d servers ≡ 0 =
            ground (arith, nat_beq_iff (count_named d servers) 0) in
          let ih =
            remove_served-unnamed servers ds (kept ++ d ∷ []) once
              (All-append (λ x. count_named x servers ≡ 0) kept (d ∷ []) old (none_left, tt)) in
          let a = append_assoc kept (d ∷ []) ds in
          let b = append_assoc kept (d ∷ []) (unnamed servers ds) in
          let step = remove_named_none d servers (kept ++ d ∷ ds) none_left in
          rw (remove_served, step, step, free, sym a, ih, b)
      | inr named ↦
          let one : count_named d servers ≡ 1 =
            let few = once d in ground (arith, nat_beq_iff (count_named d servers) 0) in
          let removed = remove_first-unnamed servers d kept ds old one in
          let ih = remove_served-unnamed servers ds kept once old in
          let step = remove_named_one d servers (kept ++ d ∷ ds) (kept ++ ds) one removed in
          rw (remove_served, step, step, named, ih)
    ]

-- How the object stands after `addServers` has stored the entries `xs`, without a request: what is
-- left to ask for, and for every domain and identifier what the last entry says of it, if one does.
abbrev pub HasStored : List Entry → List Text → Kdc → Kdc → Type 0
HasStored xs ds k k' =
    (k'.requested_domains ≡ unnamed xs ds)
    × ((d : Text) → get_key_id_by_domain d k' ≡ last_keyid d xs (get_key_id_by_domain d k))
    × ((i : KeyId) → get_key (keyid i) k' ≡ ok (last_key i xs (get i k.keyid_key)))

requested-store_entries :
    (xs : List Entry) (k : Kdc) → (store_entries xs k).requested_domains ≡ k.requested_domains
unfolding store_entries store_entry
requested-store_entries [] k = refl
requested-store_entries (x ∷ xs) k = requested-store_entries xs (store_entry x k)

-- The end of `addServers`, once the entries are stored.
request_rest_lem :
    (s : Sync) (xs : List Entry) (ds : List Text) (k : Kdc)
    → (k' : Kdc) × HasStored xs ds k k'
      × (request_rest s (store_entries xs (record k { requested_domains = unnamed xs ds })) ≡ (
          if is_empty (unnamed xs ds)
          then (k', ok tt)
          else request_kdc s (map domain (unnamed xs ds)) k'))
unfolding request_rest get_key_id_by_domain
request_rest_lem s xs ds k =
    let start : Kdc = record k { requested_domains = unnamed xs ds } in
    let left = requested-store_entries xs start in
    (
      store_entries xs start,
      (
        left,
        λ d. (store_entries_lem xs start d (0, 0)).0,
        λ i. (store_entries_lem xs start [] i).1,
      ),
      rw (request_rest, left) refl,
    )

-- Where no two of the servers' entries name the same domain, `addServers` stores them, the last entry
-- counting for an identifier, and keeps as requested the domains, old and new, that none of them
-- names, in their order; of these, if there are any, it then requests the keys.
pub add_servers_lem :
    (s : Sync) (xs : List Entry) (requested : Option (List Text)) (k : Kdc)
    → ((d : Text) → count_named d xs ≤ 1)
    → (k' : Kdc) × HasStored xs (asked requested k) k k'
      × (add_servers s (some xs) requested k ≡ (
          if is_empty (unnamed xs (asked requested k))
          then (k', ok tt)
          else request_kdc s (map domain (unnamed xs (asked requested k))) k'))
unfolding add_servers
add_servers_lem s xs requested k once =
    let ds = asked requested k in
    let left = remove_served-unnamed xs ds [] once tt in
    let (k', stored, rest) = request_rest_lem s xs ds k in
    (k', stored, rw (add_servers, left, left) rest)
