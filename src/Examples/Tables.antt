-- ===== src/Examples/Tables.antt =====
-- The theorems on the tables of KDCObject at concrete inputs.
use gnserver.Base.{
  is_empty, map, ℕ, suc, ◌-◌, ◌≤◌, ◌≡◌, ◌≢◌, refl, Bool, true, false, Option, none, some, List, [],
  ◌∷◌, ◌++◌, arith, replicate, length, drop, get_elem?, if◌then◌else◌, Bytes, Text, codes, Result,
  ok, raise, key_error, unsupported_key_type, Eq, nat_eq, list_eq, pair_eq,
}
use gnserver.Base.Dict.{Dict, get, put, has}
use gnserver.Base.Int.{pos}
use gnserver.Kdc.Types.{Item, domain, keyid, is_kdc_keyid_supported, is_kdc_key_type_supported}
use gnserver.Kdc.Inactive.{
  Session, empty, remember_inactive_transport_session, get_inactive_transport_session_by_domain,
  get_inactive_transport_session_by_keyid, session_limit, pop_existing, pop_previous, insert, evict,
  move_to_end,
}
use gnserver.Kdc.Inactive.Consistent.{IsConsistent, by_keyid-by_domain}
use gnserver.Kdc.Inactive.Order.{others, remember_lem}
use gnserver.Kdc.Inactive.Runs.{Call, remember, by_domain, run, step, run_invariant}
use gnserver.Kdc.Keys.{
  Kdc, bare, Entry, KdcConfig, init, init_second, store_entry, store_entries, get_key,
  get_key_id_by_domain, delete_key_by_domain,
}
use gnserver.Kdc.Keys.Tables.{
  IsKeyed, last_keyid, last_key, store_entries_lem, store_entries-IsKeyed,
}
use gnserver.Kdc.Keys.Shared.{delete_key_by_domain_shared}
use gnserver.Kdc.Request.{
  Element, whole, Answer, entry, Reply, Sync, any_unsupported, read_answers, take_answers,
  take_answer, request_kdc, asked, add_servers,
}
use gnserver.Kdc.Request.Sent.{request_kdc-supported, with_request, read_answers-unsupported}
use gnserver.Kdc.Request.Served.{count_named, unnamed, HasStored, add_servers_lem}

abbrev alice : Session
alice = record {
  domain = codes "alice";
  keyid = (1, 10);
  encryption_type = 1;
  root64 = replicate 64 1;
}

abbrev bob : Session
bob = record { domain = codes "bob"; keyid = (1, 11); encryption_type = 1; root64 = replicate 64 2 }

abbrev calls : List Call
calls = remember alice ∷ remember bob ∷ by_domain (codes "alice") ∷ []

run_invariant_example :
    IsConsistent (run (pos 2) empty calls)
    × (length (run (pos 2) empty calls).sessions ≤ session_limit (pos 2))
run_invariant_example = run_invariant (pos 2) calls

calls-IsConsistent : IsConsistent (run (pos 2) empty calls)
calls-IsConsistent = (run_invariant (pos 2) calls).0

abbrev carol : Session
carol = record {
  domain = codes "carol";
  keyid = (1, 12);
  encryption_type = 1;
  root64 = replicate 64 3;
}

remember_lem_example :
    let i = run (pos 2) empty calls in
    let j = remember_inactive_transport_session carol (pos 2) i in
    (j.sessions
      ≡ drop
          (suc (length (others carol i)) - session_limit (pos 2))
          (others carol i ++ (carol.domain, carol) ∷ []))
    × (length j.sessions ≤ session_limit (pos 2))
    × ((get_inactive_transport_session_by_domain carol.domain j).1 ≡ some carol)
    × ((get_inactive_transport_session_by_keyid carol.keyid j).1 ≡ some carol)
remember_lem_example =
    remember_lem carol (pos 2) (run (pos 2) empty calls)
      (record { named = refl; encrypted = refl; root = refl }) calls-IsConsistent

key_of_alice : get (1, 10) (run (pos 2) empty calls).domains ≡ some (codes "alice")
unfolding run step remember_inactive_transport_session get_inactive_transport_session_by_domain
    pop_existing pop_previous insert evict move_to_end get put gnserver.Base.Dict.remove
key_of_alice = refl

by_keyid-by_domain_example :
    get_inactive_transport_session_by_keyid (1, 10) (run (pos 2) empty calls)
    ≡ get_inactive_transport_session_by_domain (codes "alice") (run (pos 2) empty calls)
by_keyid-by_domain_example =
    by_keyid-by_domain (1, 10) (codes "alice") (run (pos 2) empty calls) calls-IsConsistent
      key_of_alice

abbrev no_keys : Kdc
no_keys = record {
  domain_keyid = [];
  keyid_key = [];
  requested_domains = codes "x" ∷ codes "y" ∷ [];
  kdc_domain = some (codes "kdc");
  kdc_domain_id = some (255, 1);
  second_kdc_domain = none;
  second_kdc_domain_id = none;
}

no_keys-IsKeyed : IsKeyed no_keys
unfolding get
no_keys-IsKeyed d i h = absurd (cc)

abbrev entry_x : Entry
entry_x = record { kid = bare 7; domain = codes "x"; key = 1 ∷ [] }

abbrev entry_z : Entry
entry_z = record { kid = bare 7; domain = codes "z"; key = 2 ∷ [] }

store_entries_lem_example :
    (get_key_id_by_domain (codes "x") (store_entries (entry_x ∷ entry_z ∷ []) no_keys)
      ≡ last_keyid (codes "x") (entry_x ∷ entry_z ∷ []) (get_key_id_by_domain (codes "x") no_keys))
    × (get_key (keyid (0, 7)) (store_entries (entry_x ∷ entry_z ∷ []) no_keys)
        ≡ ok (last_key (0, 7) (entry_x ∷ entry_z ∷ []) (get (0, 7) no_keys.keyid_key)))
store_entries_lem_example = store_entries_lem (entry_x ∷ entry_z ∷ []) no_keys (codes "x") (0, 7)

abbrev shared : Kdc
shared = store_entries (entry_x ∷ entry_z ∷ []) no_keys

shared-IsKeyed : IsKeyed shared
shared-IsKeyed = store_entries-IsKeyed (entry_x ∷ entry_z ∷ []) no_keys no_keys-IsKeyed

x_is_not_z : ◌≢◌ {A = Text} (codes "x") (codes "z")
x_is_not_z e = ground arith

key_of_x : get_key_id_by_domain (codes "x") shared ≡ some (0, 7)
unfolding get_key_id_by_domain store_entries store_entry get put
key_of_x = refl

key_of_z : get_key_id_by_domain (codes "z") shared ≡ some (0, 7)
unfolding get_key_id_by_domain store_entries store_entry get put
key_of_z = refl

delete_key_by_domain_shared_example :
    let r = delete_key_by_domain (codes "x") shared in
    (r.1 ≡ ok tt)
    × (get_key (domain (codes "z")) r.0 ≡ raise key_error)
    × ((delete_key_by_domain (codes "z") r.0).1 ≡ raise key_error)
delete_key_by_domain_shared_example =
    delete_key_by_domain_shared (codes "x") (codes "z") (0, 7) shared shared-IsKeyed x_is_not_z
      key_of_x key_of_z

abbrev config : KdcConfig
config = record {
  domain = codes "kdc";
  self_domain_id = 3;
  key = 9 ∷ [];
  second_domain = none;
  second_self_domain_id = none;
  second_key = none;
}

abbrev configured : Kdc
configured = record {
  domain_keyid = (codes "kdc", (255, 3)) ∷ [];
  keyid_key = ((255, 3), 9 ∷ []) ∷ [];
  requested_domains = codes "x" ∷ [];
  kdc_domain = some (codes "kdc");
  kdc_domain_id = some (255, 3);
  second_kdc_domain = some (codes "kdc");
  second_kdc_domain_id = some (255, 3);
}

config_read : init (some config) (codes "x" ∷ []) no_keys ≡ ok configured
unfolding init init_second put
config_read = refl

-- A callback that answers with a key, and a KDC that knows nothing.
abbrev sync : Sync
sync = record {
  has_active = true;
  literal_int = true;
  match_any = λ d. false;
  callback = λ items. ok (some (entry (whole entry_x) ∷ []));
  second_kdc_domains_patterns = none;
  request = λ d items. ok (record { is_ok = true; payload = some [] });
}

abbrev other_request : Option Text → List Item → Result Reply
other_request d items =
    if any_unsupported items
    then raise key_error
    else ok (record { is_ok = true; payload = some [] })

same_answers :
    (d : Option Text) (r : List Item)
    → any_unsupported r ≡ false
    → sync.request d r ≡ other_request d r
same_answers d r good = rw (good) refl

request_kdc-supported_example :
    request_kdc sync (keyid (110, 1) ∷ domain (codes "x") ∷ []) no_keys
    ≡ request_kdc
        (with_request sync other_request)
        (keyid (110, 1) ∷ domain (codes "x") ∷ [])
        no_keys
request_kdc-supported_example =
    request_kdc-supported sync other_request (keyid (110, 1) ∷ domain (codes "x") ∷ []) no_keys
      same_answers

abbrev idle_sync : Sync
idle_sync = record sync { has_active = false }

answer_read :
    read_answers (keyid (110, 1) ∷ []) (ok (some (entry (whole entry_x) ∷ [])))
    ≡ ok ([], whole entry_x ∷ [])
unfolding read_answers take_answers take_answer any_unsupported
answer_read = refl

type_110 : is_kdc_keyid_supported (110, 1) ≡ false
unfolding is_kdc_keyid_supported is_kdc_key_type_supported
type_110 = refl

read_answers-unsupported_example :
    (answers : List Answer) × (x : Element) × (◌≡◌ {A = Result (Option (List Answer))}
      (ok (some (entry (whole entry_x) ∷ [])))
      (ok (some answers)))
    × (get_elem? answers 0 ≡ some (entry x))
read_answers-unsupported_example =
    read_answers-unsupported (keyid (110, 1) ∷ []) (ok (some (entry (whole entry_x) ∷ [])))
      ([], whole entry_x ∷ []) 0 (110, 1) answer_read refl type_110

one_each : (d : Text) → count_named d (entry_x ∷ []) ≤ 1
one_each d = ground arith

add_servers_lem_example :
    (k' : Kdc) × HasStored (entry_x ∷ []) (asked (some (codes "w" ∷ [])) no_keys) no_keys k'
    × (add_servers sync (some (entry_x ∷ [])) (some (codes "w" ∷ [])) no_keys ≡ (
        if is_empty (unnamed (entry_x ∷ []) (asked (some (codes "w" ∷ [])) no_keys))
        then (k', ok tt)
        else request_kdc sync
            (map domain (unnamed (entry_x ∷ []) (asked (some (codes "w" ∷ [])) no_keys)))
            k'))
add_servers_lem_example =
    add_servers_lem sync (entry_x ∷ []) (some (codes "w" ∷ [])) no_keys one_each
