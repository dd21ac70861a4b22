-- ===== src/App/Dispatch.antt =====
-- server/_app.py: `dispatchRequest`. A run of a handler is a parameter, and so is what it calls of
-- `re`, gnobjects and pydantic: the fields of `Env`. The texts of the errors are left out.
pub mod Found
use gnserver.Base.{
  ℕ, zero, suc, Bool, true, false, not, ◌&&◌, ◌||◌, Option, none, some, List, [], ◌∷◌, ◌++◌,
  is_empty, nat_beq, if◌then◌else◌, Text, codes, ◌==◌, list_eq, nat_eq, option_eq, Error, Result,
  ok, raise, raise_if, ◌>>=◌, ◌>>◌, is_none, key_error, index_error, type_error, attribute_error,
  unprocessable_entity, bad_request, method_not_allowed, path_not_found, validation_error,
  data_model_validation_error, data_model_error, recursion_error,
}
use gnserver.Base.Int.{ℤ}
use gnserver.Base.Dict.{Dict, get, put, has, remove}
use gnserver.Params.{Value, int_value, other_value, Items, Annotation, empty}
use gnserver.Params.Schema.{Schema, BodyField, contains, body_names, validate_params}
use gnserver.App.Paths.{build_path_candidates}
use gnserver.App.Patterns.{Pattern, Groups, Converter, str}
use gnserver.App.Convert.{Raw, single, many, convert_value}
use gnserver.App.Cors.{Cors, Caller, resolve_cors}
use gnserver.App.Routes.{App, Route, Handler, collect_candidate_routes}
use gnserver.App.Routes.Matching.{path_params}

-- A value of the query.
pub data Query : Type 0 where
  number : ℤ → Query
  texts : List Text → Query

-- The container of the request's object, as far as the code tells containers apart: version, kind
-- and name of the schema and the payload, if it is a dict; whether the payload is None; another.
pub data Container : Type 0 where
  absent : Container
  dmp : ℕ → ℕ → Text → Option Items → Container
  stp : Bool → Container
  unknown : Container

pub record Request : Type 0 where
  pub caller : Caller
  pub route : Option Text
  pub path : Text
  pub params : Dict Text Query
  pub container : Container
  pub proxy_list : Option (List Route)

-- The arguments of a handler; `request` and `proto` are passed where the handler names them.
pub record Call : Type 0 where
  pub kw : Dict Text Value
  pub with_request : Bool
  pub with_proto : Bool

-- What a handler returns or raises. A response has a number and says whether it is to be sent.
pub data Returned : Type 0 where
  nothing : Returned
  response : ℕ → Bool → Returned
  bundle : ℕ → Returned
  request : Request → Returned
  another : Returned
  fails : Error → Returned

pub record Env : Type 0 where
  pub fullmatch : Pattern → Text → Option Groups
  pub match_any : List Text → Text → Bool
  pub call : Annotation → Text → Result Value
  pub convert : Converter → Text → Result Value
  pub schema_kind : ℕ → ℕ
  pub schema_name : ℕ → Text
  pub model_validate : ℕ → Items → Result Value
  pub run : Route → Call → Returned
  pub same_route : Route → Route → Bool

-- What one route does to the request: the loop goes on, or there is a result. A response that is not
-- to be sent is None; a bundle (TempDataObject, TempDataGroup) is answered by `responses.ok`.
pub data Turn : Type 0 where
  go_on : Turn
  answer : Option ℕ → Turn
  answer_ok : ℕ → Turn
  stream : Call → Turn
  forward : Request → Turn

-- `r in l`
unfoldable pub is_listed : (Route → Route → Bool) → Route → List Route → Bool
is_listed same r [] = false
is_listed same r (x ∷ l) = same x r || is_listed same r l

unfoldable pub is_proxied : (Route → Route → Bool) → Route → Option (List Route) → Bool
unfolding is_listed
is_proxied same r none = false
is_proxied same r (some l) = is_listed same r l

-- `d[k]`
unfoldable pub look {ℓ} : {V : Type ℓ} → ℕ → Dict ℕ V → Result V
unfolding get
look k d = elim (get k d) [ none ↦ raise key_error | some v ↦ ok v ]

-- The rules of the route, of its group, or of the app.
unfoldable pub choose_cors : App → Route → Option Cors
unfolding get
choose_cors a r =
    let group = elim (get r.route a.route_group_cors) as (λ _. Option Cors) [
      | none ↦ a.cors
      | some c ↦ some c
    ] in
    elim r.cors [ none ↦ group | some c ↦ some c ]

-- `annotations.get(name, inspect._empty)`
unfoldable pub ann : Dict Text Annotation → Text → Annotation
unfolding get
ann annotations name = elim (get name annotations) [ none ↦ empty | some a ↦ a ]

-- `r.param_types.get(name, str)`
unfoldable pub converter : Dict Text Converter → Text → Converter
unfolding get
converter types name = elim (get name types) [ none ↦ str | some c ↦ c ]

-- The names of a route's parameters that the query and the path give: `{k: v ... if k in params}`
unfoldable pub keep_named : List Text → Dict Text Value → Dict Text Value
unfolding contains
keep_named names [] = []
keep_named names ((k, v) ∷ l) =
    let rest = keep_named names l in if contains k names then (k, v) ∷ rest else rest

-- `raw = qvals if len(qvals) > 1 else qvals[0]`
unfoldable pub query_raw : List Text → Result Raw
query_raw [] = raise index_error
query_raw (t ∷ []) = ok (single t)
query_raw (t ∷ u ∷ l) = ok (many (t ∷ u ∷ l))

unfoldable pub drop_body : List BodyField → Dict Text Value → Dict Text Value
unfolding remove
drop_body [] kw = kw
drop_body (f ∷ l) kw = drop_body l (remove f.name kw)

-- The errors of `model_validate` that are answered as unprocessable.
unfoldable pub model_error : Error → Error
model_error validation_error = unprocessable_entity
model_error data_model_error = unprocessable_entity
model_error data_model_validation_error = unprocessable_entity
model_error e = e

unfoldable pub validated : Result Value → Result Value
unfolding model_error
validated (ok v) = ok v
validated (raise e) = raise (model_error e)

-- The errors of a run that are answered otherwise.
unfoldable pub handler_error : Error → Error
handler_error validation_error = unprocessable_entity
handler_error data_model_validation_error = unprocessable_entity
handler_error data_model_error = bad_request
handler_error e = e

-- The list of proxies of a request that a handler hands on. A first proxy sets the list; a later one
-- appends to the list of the request that was returned, which must have one.
unfoldable pub hand_on : Request → Route → Request → Result Request
hand_on q r next = elim q.proxy_list [
  | none ↦ ok (record next { proxy_list = some (r ∷ []) })
  | some _ ↦ elim next.proxy_list [
    | none ↦ raise attribute_error
    | some l ↦ ok (record next { proxy_list = some (l ++ r ∷ []) })
  ]
]

unfoldable pub take_returned : Request → Route → Returned → Result Turn
unfolding handler_error hand_on
take_returned q r nothing = ok go_on
take_returned q r (response n unsent) = ok (answer (if unsent then none else some n))
take_returned q r (bundle n) = ok (answer_ok n)
take_returned q r (request next) = do next' ← hand_on q r next; ok (forward next')
take_returned q r another = raise type_error
take_returned q r (fails e) = raise (handler_error e)

-- `continue` goes on with the rest of the loop; anything else ends it.
unfoldable pub after_turn : Result Turn → Turn → Result Turn
after_turn rest go_on = rest
after_turn rest t = ok t

module _ (env : Env) where
  -- The arguments from the path.
  unfoldable pub path_arguments :
      Route → Dict Text Annotation → List Text → Groups → Result (Dict Text Value)
  unfolding contains ann converter convert_value put
  path_arguments r annotations bodies [] = ok []
  path_arguments r annotations bodies ((name, t) ∷ l) =
      let rest = path_arguments r annotations bodies l in
      if contains name bodies
      then rest
      else convert_value env.call env.convert (single t) (ann annotations name)
          (converter r.param_types name)
        >>= λ v. rest >>= λ kw. ok ((name, v) ∷ kw)

  -- One value of the query.
  unfoldable pub query_value : Dict Text Annotation → Text → Query → Result Value
  unfolding ann query_raw convert_value
  query_value annotations name (number i) = ok (int_value i)
  query_value annotations name (texts l) = do
    raw ← query_raw l
    convert_value env.call env.convert raw (ann annotations name) str

  -- The arguments from the query, which do not replace those from the path.
  unfoldable pub query_arguments :
      Dict Text Annotation
      → List Text
      → Dict Text Query
      → Dict Text Value
      → Result (Dict Text Value)
  unfolding contains has put query_value
  query_arguments annotations bodies [] kw = ok kw
  query_arguments annotations bodies ((name, q) ∷ l) kw =
      if contains name bodies || has name kw
      then query_arguments annotations bodies l kw
      else query_value annotations name q >>= λ v.
          query_arguments annotations bodies l (put name v kw)

  -- One field of the body.
  unfoldable pub body_argument : Container → BodyField → Dict Text Value → Result (Dict Text Value)
  unfolding validated put
  body_argument (dmp version kind name (some payload)) f kw = do
    raise_if (not (nat_beq version 0)) unprocessable_entity
    raise_if
        (not
          (nat_beq kind (env.schema_kind f.model_class) && name == env.schema_name f.model_class))
        unprocessable_entity
    v ← validated (env.model_validate f.model_class payload)
    ok (put f.name v kw)
  body_argument absent f kw = raise_if f.required unprocessable_entity >>= λ _. ok kw
  body_argument (stp true) f kw = raise_if f.required unprocessable_entity >>= λ _. ok kw
  body_argument _ f kw = raise unprocessable_entity

  unfoldable pub body_arguments :
      Container → List BodyField → Dict Text Value → Result (Dict Text Value)
  unfolding body_argument
  body_arguments c [] kw = ok kw
  body_arguments c (f ∷ l) kw = do kw' ← body_argument c f kw; body_arguments c l kw'

  -- The arguments of the handler, checked.
  unfoldable pub make_call : App → Request → Route → Groups → Result Call
  unfolding look path_arguments query_arguments keep_named drop_body body_arguments validate_params
      body_names contains
  make_call a q r groups = do
    names ← look r.ident a.route_param_names
    annotations ← look r.ident a.route_annotations
    schema ← look r.ident a.route_schema
    let bodies = body_names schema.body_fields
    resolve_cors env.match_any q.caller (choose_cors a r)
    from_path ← path_arguments r annotations bodies groups
    from_query ← query_arguments annotations bodies q.params from_path
    kw ←
        body_arguments q.container schema.body_fields
          (drop_body schema.body_fields (keep_named names from_query))
    raise_if (not (is_empty (validate_params kw schema))) unprocessable_entity
    ok (record {
      kw = kw;
      with_request = contains (codes "request") names;
      with_proto = contains (codes "proto") names;
    })

  -- The route's part of the loop, after its path and its method fit.
  unfoldable pub serve_route : App → Request → Route → Groups → Result Turn
  unfolding make_call look take_returned
  serve_route a q r groups = do
    c ← make_call a q r groups
    generates ← look r.ident a.route_is_asyncgen
    if generates then ok (stream c) else take_returned q r (env.run r c)

  -- The loop over the candidates; `allowed` is empty as long as no path fits.
  unfoldable pub dispatch_loop : App → Request → List Route → List Text → Result Turn
  unfolding is_proxied path_params serve_route after_turn
  dispatch_loop a q [] allowed =
      if is_empty allowed then raise path_not_found else raise method_not_allowed
  dispatch_loop a q (r ∷ l) allowed =
      let skip = dispatch_loop a q l allowed in
      let pass = dispatch_loop a q l (r.method ∷ allowed) in
      if is_proxied env.same_route r q.proxy_list
      then skip
      else elim (path_params env.fullmatch a (build_path_candidates q.path) r) [
        | none ↦ skip
        | some groups ↦
            if not (r.method == q.caller.method) && not (r.method == codes "*")
            then pass
            else serve_route a q r groups >>= λ t. after_turn pass t
      ]

  -- `dispatchRequest`, up to the call of itself for a request that is handed on
  unfoldable pub dispatch_once : App → Request → Result Turn
  unfolding dispatch_loop collect_candidate_routes build_path_candidates
  dispatch_once a q =
      dispatch_loop a q (collect_candidate_routes a q.route (build_path_candidates q.path)) []

  -- `dispatchRequest`, with the depth of the calls of itself that Python allows.
  unfoldable pub dispatch_request : ℕ → App → Request → Result Turn
  unfolding dispatch_once
  dispatch_request zero a q = raise recursion_error
  dispatch_request (suc depth) a q = dispatch_once a q >>= λ t. elim t [
    | forward next ↦ dispatch_request depth a next
    | go_on ↦ ok go_on
    | answer n ↦ ok (answer n)
    | answer_ok n ↦ ok (answer_ok n)
    | stream c ↦ ok (stream c)
  ]
