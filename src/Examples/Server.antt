-- ===== src/Examples/Server.antt =====
-- The theorems on the application server at concrete inputs.
use gnserver.Base.{
  ℕ, map, ◌≤◌, ◌≡◌, refl, ◌↔◌, ◌⊎◌, inl, inr, Bool, true, false, Option, none, some, List, [], ◌∷◌,
  ◌++◌, All, drop, length, nat_beq, nat_beq_iff, if◌then◌else◌, Bool-cases, Bytes, Text, codes,
  Result, ok, raise, list_eq, nat_eq, option_eq, path_not_found, arith,
}
use gnserver.Base.Dict.{Dict, get}
use gnserver.Base.Int.{pos, negsuc}
use gnserver.Base.Sorted.{filter}
use gnserver.Params.{
  Value, int_value, str_value, none_value, list_value, nil, cons, int_type, list_of,
}
use gnserver.Params.Schema.{named, Field, Schema, validate_params}
use gnserver.Params.Typed.Calls.{IsGiven, AreNamed, validate_params_iff}
use gnserver.App.Patterns.{Part, literal, group, Pattern, raw, parts, Groups}
use gnserver.App.Paths.{build_path_candidates}
use gnserver.App.Paths.Segments.{LiteralFirst}
use gnserver.App.Cors.{Cors, Caller, listed, resolve_cors}
use gnserver.App.Config.{DepArgs, unset, merged, default_all, configure, new_dep_config}
use gnserver.App.Config.Bounds.{IsInRange, new_dep_config-IsInRange}
use gnserver.App.Routes.{App, Handler, coroutine, Registration, new_app, route}
use gnserver.App.Routes.Matching.{in_scope, path_params}
use gnserver.App.Routes.Registered.{Registered, start, add}
use gnserver.App.Dispatch.{Env, Request, absent, response, dispatch_loop, dispatch_once, is_proxied}
use gnserver.App.Dispatch.Found.{IsUnserved, any_tried, dispatch_once-scan, dispatch_once-unserved}
use gnserver.App.Events.{
  Listening, EventCall, call_of, dispatch_event, add_all, in_order, dispatch_event-in_order,
}
use gnserver.App.Streams.{Proto, trigger_disconnect}
use gnserver.App.Streams.Chunks.{IsIncremental, concat, feed_chunks, IsDone, feed_chunks-IsDone}
use gnserver.App.Streams.Disconnect.{IsEnded, trigger_disconnect_lem}

-- A matcher that takes literals as they are, and gives the rest of the text to the first group.
match_parts : List Part → Text → Option Groups
match_parts [] [] = some []
match_parts [] (c ∷ t) = none
match_parts (group name rx ∷ ps) t = some ((name, t) ∷ [])
match_parts (literal c ∷ ps) [] = none
match_parts (literal c ∷ ps) (d ∷ t) =
    let rest = match_parts ps t in if nat_beq c d then rest else none

match_pattern : Pattern → Text → Option Groups
match_pattern (raw rx) t = none
match_pattern (parts l) t = match_parts l t

match_pattern-LiteralFirst : LiteralFirst match_pattern
unfolding match_pattern match_parts
match_pattern-LiteralFirst [] ps t g e = (t, refl)
match_pattern-LiteralFirst (c ∷ lits) ps [] g e = absurd (cc e)
match_pattern-LiteralFirst (c ∷ lits) ps (d ∷ t) g e = elim (Bool-cases (nat_beq c d)) [
  | inl s ↦
      let (rest, split) = match_pattern-LiteralFirst lits ps t g (rw s at e) in
      (rest, rw (← (nat_beq_iff c d).0 s, split) refl)
  | inr f ↦ absurd (cc (rw f at e))
]

abbrev from_ok : Result App → App
from_ok (ok a) = a
from_ok (raise e) = new_app none

abbrev handler : Handler
handler = record {
  ident = 1;
  style = coroutine;
  signature =
      record { name = codes "id"; kind = named; annotation = int_type; has_default = false } ∷ [];
}

abbrev list_users : Registration
list_users = record {
  ident = 10;
  route = codes "api";
  method = codes "get";
  path = codes "/users";
  cors = none;
  fn = handler;
  fn_name = codes "list_users";
}

abbrev one_user : Registration
one_user = record {
  ident = 11;
  route = codes "api";
  method = codes "get";
  path = codes "/users/{id:int}";
  cors = none;
  fn = handler;
  fn_name = codes "one_user";
}

abbrev any : Pattern → Bool
any p = true

abbrev first_app : App
unfolding route
first_app = from_ok (route any list_users (new_app none))

abbrev app : App
unfolding route
app = from_ok (route any one_user first_app)

app-Registered : Registered any app
unfolding route get
app-Registered =
    add {a = first_app} one_user (add {a = new_app none} list_users (start none) refl refl) refl
      refl

abbrev env : Env
env = record {
  fullmatch = match_pattern;
  match_any = λ l d. true;
  call = λ a t. ok (str_value t);
  convert = λ c t. ok (str_value t);
  schema_kind = λ m. m;
  schema_name = λ m. [];
  model_validate = λ m d. ok none_value;
  run = λ r c. response 200 false;
  same_route = λ r s. nat_beq r.ident s.ident;
}

abbrev caller : Caller
caller = record {
  client_domain = codes "a.gn";
  client_type = codes "net";
  client_type_int = 1;
  object_type = codes "user";
  method = codes "get";
  transport = codes "gn:quik:real";
}

abbrev ask : Text → Request
ask path = record {
  caller = caller;
  route = some (codes "api");
  path = path;
  params = [];
  container = absent;
  proxy_list = none;
}

dispatch_once-scan_example :
    dispatch_once env app (ask (codes "/users/7"))
    ≡ dispatch_loop env app
        (ask (codes "/users/7"))
        (filter (in_scope (some (codes "api"))) app.routes)
        []
dispatch_once-scan_example =
    dispatch_once-scan env app (ask (codes "/users/7")) any app-Registered
      match_pattern-LiteralFirst

unserved :
    All
      (IsUnserved env app (ask (codes "/nothing")))
      (filter (in_scope (some (codes "api"))) app.routes)
unfolding filter path_params build_path_candidates match_pattern match_parts route get
unserved = (inr (inl refl), (inr (inl refl), tt))

dispatch_once-unserved_example :
    dispatch_once env app (ask (codes "/nothing")) ≡ raise path_not_found
unfolding filter path_params build_path_candidates match_pattern match_parts route get any_tried
    is_proxied
dispatch_once-unserved_example =
    dispatch_once-unserved env app (ask (codes "/nothing")) any app-Registered
      match_pattern-LiteralFirst unserved

abbrev schema : Schema
schema = record {
  fields =
      record { name = codes "id"; required = true; annotation = list_of int_type }
      ∷ record { name = codes "tag"; required = false; annotation = int_type }
      ∷ [];
  names = codes "tag" ∷ codes "id" ∷ [];
  has_kwargs = false;
  body_fields = [];
}

abbrev given : Dict Text Value
given = (codes "id", list_value (cons (int_value (pos 3)) nil)) ∷ []

validate_params_iff_example : (validate_params given schema ≡ []) ↔ (
    ((schema.has_kwargs ≡ true) ⊎ AreNamed schema.names given)
    × All (λ (f : Field). IsGiven f (get f.name given)) schema.fields)
validate_params_iff_example = validate_params_iff given schema

abbrev rules : Cors
rules = record {
  ident = 1;
  allowed_domains = listed (codes "*.gn" ∷ []);
  allowed_domains_matcher = some (codes "*.gn" ∷ []);
  allowed_domains_callback = none;
  allow_methods = some (codes "get" ∷ codes "post" ∷ []);
  allow_object_types = codes "user" ∷ [];
  allow_client_types = codes "net" ∷ [];
  allow_transport_protocols = none;
  allow_route_protocols = none;
  allow_request_protocols = none;
  except_object_types_domains = none;
  except_client_types_domains = none;
}

resolve_cors_run : resolve_cors (λ l d. true) caller (some rules) ≡ ok tt
unfolding resolve_cors
resolve_cors_run = refl

abbrev dep_args : DepArgs
dep_args = record {
  kdc_allowed_domains = none;
  kdc_allowed_domains_callback = none;
  established_encryption_types_for_domain = unset;
  allow_unencrypted_connections = false;
  allow_local_unencrypted_connections = true;
  incoming_datagram_workers = some (negsuc 4);
  incoming_datagram_queue_size = some (pos 0);
  incoming_datagram_global_lock = false;
  max_inactive_transport_sessions = none;
  stream_send_high_watermark = some (pos 100);
  stream_send_low_watermark = some (pos 300);
  stream_send_drain_interval = pos 1;
  iter_payload_chunk_size = some (pos 1024);
}

new_dep_config-IsInRange_example : IsInRange (configure dep_args (merged default_all) default_all)
unfolding new_dep_config
new_dep_config-IsInRange_example = new_dep_config-IsInRange dep_args refl

-- A header of one byte, which says nothing.
parse_byte : Bytes → Option (ℕ × ℕ × ℕ)
parse_byte [] = none
parse_byte (b ∷ l) = some (b, 1, 0)

stable_byte :
    (b more : Bytes) (h offset count : ℕ)
    → parse_byte b ≡ some (h, offset, count)
    → parse_byte (b ++ more) ≡ some (h, offset, count)
unfolding parse_byte
stable_byte [] more h offset count e = absurd (cc e)
stable_byte (x ∷ b) more h offset count e = e

within_byte :
    (b : Bytes) (h offset count : ℕ) → parse_byte b ≡ some (h, offset, count) → offset ≤ length b
unfolding parse_byte
within_byte [] h offset count e = absurd (cc e)
within_byte (x ∷ b) h offset count e = ground arith

parse_byte-IsIncremental : IsIncremental parse_byte
unfolding parse_byte
parse_byte-IsIncremental = record { stable = stable_byte; within = within_byte }

abbrev proto : Proto ℕ
proto = record {
  ident = 5;
  buffer = [];
  streams = [];
  requests = [];
  domain = some (codes "a.gn");
  disconnected = false;
  dep_policy_denied = false;
  events = [];
}

feed_chunks-IsDone_example :
    IsDone 4 9
      (drop 1 (concat ([] ∷ (9 ∷ 8 ∷ []) ∷ (7 ∷ []) ∷ [])))
      (feed_chunks parse_byte 4 ([] ∷ (9 ∷ 8 ∷ []) ∷ (7 ∷ []) ∷ []) proto)
unfolding get parse_byte concat
feed_chunks-IsDone_example =
    feed_chunks-IsDone parse_byte parse_byte-IsIncremental 4 [] ((9 ∷ 8 ∷ []) ∷ (7 ∷ []) ∷ []) proto
      9 1 0 refl refl refl

abbrev busy : Proto ℕ
busy = record proto {
  streams = (4, 4) ∷ [];
  requests = (4, record { header = 9; payload = []; finished = [] }) ∷ [];
}

abbrev connected : Dict Text ℕ
connected = (codes "a.gn", 5) ∷ (codes "b.gn", 6) ∷ []

trigger_disconnect_lem_example :
    IsEnded busy connected (trigger_disconnect busy connected)
    × (trigger_disconnect
          (trigger_disconnect busy connected).0
          (trigger_disconnect busy connected).1
        ≡ trigger_disconnect busy connected)
trigger_disconnect_lem_example = trigger_disconnect_lem busy connected refl

abbrev listening : ℕ → Bool → Listening ℕ
listening f to_start = record {
  name = codes "start";
  move_to_start = to_start;
  listener = record { func = f; is_async = true; parameters = codes "port" ∷ [] };
}

quiet : EventCall ℕ ℕ → Bool
quiet c = false

quiet_lem : (c : EventCall ℕ ℕ) → quiet c ≡ false
unfolding quiet
quiet_lem c = refl

dispatch_event-in_order_example :
    dispatch_event quiet
      (codes "start")
      []
      ((codes "port", 80) ∷ (codes "host", 5) ∷ [])
      (add_all (listening 1 false ∷ listening 2 true ∷ listening 3 true ∷ []) [])
    ≡ (
      map
          (call_of [] ((codes "port", 80) ∷ (codes "host", 5) ∷ []))
          (in_order (codes "start") (listening 1 false ∷ listening 2 true ∷ listening 3 true ∷ [])),
      false,
    )
dispatch_event-in_order_example =
    dispatch_event-in_order quiet (codes "start") [] ((codes "port", 80) ∷ (codes "host", 5) ∷ [])
      (listening 1 false ∷ listening 2 true ∷ listening 3 true ∷ []) quiet_lem
