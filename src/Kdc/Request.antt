-- ===== src/Kdc/Request.antt =====
-- _kdc_object.py: which keys are asked of the callback and which of the KDC, what is made of the
-- callback's answers, and the requests that `addServers` and `requestKeyIfNotExist` make. The
-- callback, the domain filters and the client are fields of `Sync`.
pub mod Sent
pub mod Served
use gnserver.Base.{
  ℕ, Bool, true, false, Option, none, some, List, [], ◌∷◌, ◌++◌, if◌then◌else◌, not, ◌&&◌, ◌||◌,
  Text, Error, Result, ok, raise, ◌>>=◌, ◌>>◌, raise_if, ◌==◌, Eq, nat_eq, list_eq, pair_eq,
  is_empty, map, length, drop, nat_beq, unsupported_key_type, invalid_response_format, gn_response,
  value_error, type_error, index_error,
}
use gnserver.Base.Dict.{Dict, get, has}
use gnserver.Kdc.Types.{KeyId, Item, domain, keyid, is_kdc_keyid_supported}
use gnserver.Kdc.Keys.{Kdc, Entry, store_entry, store_entries, has_configured_kdc}

-- An element of the list that is stored: `(keyId, domain, key)`, or an object that the loop cannot
-- unpack or store, with what it raises.
pub data Element : Type 0 where
  whole : Entry → Element
  broken : Error → Element

-- One element of the callback's list: a bool, `None`, a `GNResponse`, or another object.
pub data Answer : Type 0 where
  decide : Bool → Answer
  missing failed : Answer
  entry : Element → Answer

-- The client's reply: `command.ok`, and the payload where it is a list.
pub record Reply : Type 0 where
  pub is_ok : Bool
  pub payload : Option (List Element)

-- `has_active_callback`, the two filters, the callback (`none` is a result that is no list), and
-- the client's request of a list of items at a KDC's domain.
pub record Sync : Type 0 where
  pub has_active : Bool
  pub literal_int : Bool
  pub match_any : Text → Bool
  pub callback : List Item → Result (Option (List Answer))
  pub second_kdc_domains_patterns : Option (Text → Bool)
  pub request : Option Text → List Item → Result Reply

-- `not isinstance(item, str) and not self.isKDCKeyIdSupported(item)`
unfoldable pub is_unsupported : Item → Bool
is_unsupported (domain d) = false
is_unsupported (keyid i) = not (is_kdc_keyid_supported i)

unfoldable pub any_unsupported : List Item → Bool
any_unsupported [] = false
any_unsupported (x ∷ xs) = is_unsupported x || any_unsupported xs

-- Whether an item goes to the callback.
unfoldable pub to_callback : Sync → Item → Bool
to_callback s (domain d) = s.has_active && s.match_any d
to_callback s (keyid i) = s.has_active && s.literal_int

-- The first loop of `requestKDC`: the items for the callback (`c`), and for the KDC (`r`).
unfoldable pub classify : Sync → List Item → Result (List Item × List Item)
classify s [] = ok ([], [])
classify s (x ∷ xs) =
    let rest = classify s xs in
    if to_callback s x
    then rest >>= (λ p. ok (x ∷ p.0, p.1))
    else if is_unsupported x
    then raise unsupported_key_type
    else rest >>= (λ p. ok (p.0, x ∷ p.1))

-- One step of the loop over the answers: what it appends to `r` and to `out`.
unfoldable pub take_answer : Option Item → Answer → Result (List Item × List Element)
take_answer none (decide b) = raise invalid_response_format
take_answer (some x) (decide true) =
    if is_unsupported x then raise unsupported_key_type else ok (x ∷ [], [])
take_answer (some x) (decide false) =
    if is_unsupported x then raise unsupported_key_type else ok ([], [])
take_answer none missing = raise invalid_response_format
take_answer (some x) missing =
    if is_unsupported x then raise unsupported_key_type else raise invalid_response_format
take_answer none failed = raise gn_response
take_answer (some x) failed =
    if is_unsupported x then raise unsupported_key_type else raise gn_response
take_answer x (entry e) = ok ([], e ∷ [])

abbrev pub first : List Item → Option Item
first [] = none
first (x ∷ xs) = some x

-- The loop over the answers, beside the items that were asked for.
unfoldable pub take_answers : List Item → List Answer → Result (List Item × List Element)
take_answers c [] = ok ([], [])
take_answers c (a ∷ answers) = take_answer (first c) a >>= λ p.
    take_answers (drop 1 c) answers >>= λ q. ok (p.0 ++ q.0, p.1 ++ q.1)

-- What follows the callback's answer, which may also be an exception or no list.
unfoldable pub read_answers :
    List Item → Result (Option (List Answer)) → Result (List Item × List Element)
read_answers c (raise e) = if any_unsupported c then raise unsupported_key_type else raise e
read_answers c (ok none) =
    if any_unsupported c then raise unsupported_key_type else raise invalid_response_format
read_answers c (ok (some a)) =
    raise_if (any_unsupported (drop (length a) c)) unsupported_key_type >> take_answers c a

-- `requestKDC` up to `if r:`: the items for the KDC, and the keys that the callback gave.
unfoldable pub plan_request : Sync → List Item → Result (List Item × List Element)
plan_request s items = classify s items >>= λ p.
    if is_empty p.0
    then ok (p.1, [])
    else read_answers p.0 (s.callback p.0) >>= λ q. ok (p.1 ++ q.0, q.1)

abbrev pub all_domains : List Item → Bool
all_domains [] = true
all_domains (domain d ∷ xs) = all_domains xs
all_domains (keyid i ∷ xs) = false

-- The KDC that `_requestKDC` asks. `domain_or_keyId[0][0]` of a name is its first character.
unfoldable pub choose_kdc : Sync → Kdc → List Item → Result (Option Text)
choose_kdc s k [] = elim s.second_kdc_domains_patterns [
  | none ↦ ok k.kdc_domain
  | some match_any ↦ raise index_error
]
choose_kdc s k (domain d ∷ xs) =
    if all_domains xs
    then (elim s.second_kdc_domains_patterns [
      | none ↦ ok k.kdc_domain
      | some match_any ↦ if match_any d then ok k.second_kdc_domain else ok k.kdc_domain
    ])
    else if is_empty d
    then raise index_error
    else ok k.kdc_domain
choose_kdc s k (keyid i ∷ xs) =
    if nat_beq i.0 251 || nat_beq i.0 252 then ok k.second_kdc_domain else ok k.kdc_domain

unfoldable pub read_reply : Reply → Result (List Element)
read_reply reply =
    if not reply.is_ok
    then raise gn_response
    else (elim reply.payload [ none ↦ raise invalid_response_format | some xs ↦ ok xs ])

-- `_requestKDC`
unfoldable pub ask_kdc : Sync → Kdc → List Item → Result (List Element)
ask_kdc s k r =
    raise_if (not (has_configured_kdc k)) value_error
    >> (choose_kdc s k r >>= λ d. s.request d r >>= λ reply. read_reply reply)

-- The keys of the KDC after those of the callback: the part of `requestKDC` under `if r:`.
unfoldable pub fetch : Sync → Kdc → List Item × List Element → Result (List Element)
fetch s k p =
    if is_empty p.0
    then ok p.1
    else raise_if (any_unsupported p.0) unsupported_key_type
      >> (ask_kdc s k p.0 >>= λ res. ok (p.1 ++ res))

-- The loop that ends `requestKDC`: what stands before a broken element is stored.
unfoldable pub store_elements : List Element → Kdc → Kdc × Result (Unit {0})
store_elements [] k = (k, ok tt)
store_elements (whole x ∷ xs) k = store_elements xs (store_entry x k)
store_elements (broken err ∷ xs) k = (k, raise err)

-- What `requestKDC` does with the keys, or with an exception on the way to them.
abbrev pub store_result : Kdc → Result (List Element) → Kdc × Result (Unit {0})
store_result k (raise e) = (k, raise e)
store_result k (ok xs) = store_elements xs k

unfoldable pub request_kdc : Sync → List Item → Kdc → Kdc × Result (Unit {0})
request_kdc s items k = store_result k (plan_request s items >>= fetch s k)

-- `domain_or_keyId` of `requestKeyIfNotExist`: an item, or a list of them.
pub data Wanted : Type 0 where
  one : Item → Wanted
  many : List Item → Wanted

-- A list is no key of a dictionary: the test of it raises `TypeError`.
unfoldable pub request_key_if_not_exist : Sync → Wanted → Kdc → Kdc × Result (Unit {0})
request_key_if_not_exist s (one (domain d)) k =
    if has d k.domain_keyid then (k, ok tt) else request_kdc s (domain d ∷ []) k
request_key_if_not_exist s (one (keyid i)) k =
    if has i k.keyid_key then (k, ok tt) else request_kdc s (keyid i ∷ []) k
request_key_if_not_exist s (many items) k = (k, raise type_error)

-- `list.remove`
unfoldable pub remove_first : Text → List Text → Option (List Text)
remove_first d [] = none
remove_first d (x ∷ xs) =
    let rest = remove_first d xs in
    if x == d then some xs else (elim rest [ none ↦ none | some ys ↦ some (x ∷ ys) ])

-- The inner loop of `addServers` for a requested domain.
unfoldable pub remove_named : Text → List Entry → List Text → List Text × Result (Unit {0})
remove_named d [] cur = (cur, ok tt)
remove_named d (x ∷ xs) cur =
    if d == x.domain
    then (elim (remove_first d cur) [
      | none ↦ (cur, raise value_error)
      | some cur' ↦ remove_named d xs cur'
    ])
    else remove_named d xs cur

-- The outer loop, over a copy of the list that it shortens.
unfoldable pub remove_served : List Text → List Entry → List Text → List Text × Result (Unit {0})
remove_served [] servers cur = (cur, ok tt)
remove_served (d ∷ ds) servers cur =
    let (cur', done) = remove_named d servers cur in
    elim done [ ok u ↦ remove_served ds servers cur' | raise e ↦ (cur', raise e) ]

-- The end of `addServers`.
unfoldable pub request_rest : Sync → Kdc → Kdc × Result (Unit {0})
request_rest s k =
    if is_empty k.requested_domains
    then (k, ok tt)
    else request_kdc s (map domain k.requested_domains) k

-- `self._requested_domains += requested_domains`
abbrev pub asked : Option (List Text) → Kdc → List Text
asked none k = k.requested_domains
asked (some ds) k = k.requested_domains ++ ds

unfoldable pub add_servers :
    Sync → Option (List Entry) → Option (List Text) → Kdc → Kdc × Result (Unit {0})
add_servers s servers requested k =
    let all = asked requested k in
    elim servers [
      | none ↦ request_rest s (record k { requested_domains = all })
      | some xs ↦
          let (rest, done) = remove_served all xs all in
          elim done [
            | ok u ↦ request_rest s (store_entries xs (record k { requested_domains = rest }))
            | raise e ↦ (record k { requested_domains = rest }, raise e)
          ]
    ]
