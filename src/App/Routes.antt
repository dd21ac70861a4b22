-- ===== src/App/Routes.antt =====
-- server/_routes.py: `Route`; server/_app.py: the tables of routes of `App`, and how a route is
-- registered. `id(route)` is a field of the route. A handler is told by its identity, its style and
-- the parameters that `inspect.signature` gives. Where registration raises, the state that it leaves
-- behind is not modelled. `compiles` is whether `re.compile` takes a pattern.
pub mod Indexed
pub mod Registered
pub mod Candidates
pub mod Matching
pub mod Scan
use gnserver.Base.{
  ℕ, ◌+◌, Bool, true, false, not, Option, none, some, List, [], ◌∷◌, ◌++◌, map, is_empty,
  if◌then◌else◌, Text, codes, ◌==◌, list_eq, nat_eq, option_eq, Result, ok, raise, raise_if,
  regex_error, ◌>>=◌, ◌>>◌, is_none,
}
use gnserver.Base.Dict.{Dict, get, put, has, remove}
use gnserver.Base.Sorted.{sorted}
use gnserver.Params.{Annotation, empty}
use gnserver.Params.Schema.{
  Parameter, Kind, named, var_positional, var_keyword, Schema, build_schema, contains,
}
use gnserver.App.Paths.{
  is_static_route_path, extract_first_literal_segment, build_path_candidates, path_first_segment,
  slash,
}
use gnserver.App.Patterns.{Pattern, ParamTypes, compile_path}
use gnserver.App.Cors.{Cors}

pub data Style : Type 0 where
  coroutine async_generator plain : Style

pub record Handler : Type 0 where
  pub ident : ℕ
  pub style : Style
  pub signature : List Parameter

pub record Route : Type 0 where
  pub ident : ℕ
  pub route : Text
  pub method : Text
  pub path_expr : Text
  pub regex : Pattern
  pub param_types : ParamTypes
  pub handler : Handler
  pub name : Text
  pub cors : Option Cors

-- The part of `App` that routes are kept in.
pub record App : Type 0 where
  pub routes : List Route
  pub cors : Option Cors
  pub route_group_cors : Dict Text Cors
  pub route_order_seq : ℕ
  pub route_order : Dict ℕ ℕ
  pub route_is_static : Dict ℕ Bool
  pub route_static_index : Dict Text (Dict Text (List Route))
  pub route_dynamic_prefix_index : Dict Text (Dict Text (List Route))
  pub route_dynamic_fallback_index : Dict Text (List Route)
  pub route_param_names : Dict ℕ (List Text)
  pub route_annotations : Dict ℕ (Dict Text Annotation)
  pub route_is_asyncgen : Dict ℕ Bool
  pub route_schema : Dict ℕ Schema

-- `App.__init__`
abbrev pub new_app : Option Cors → App
new_app cors = record {
  routes = [];
  cors = cors;
  route_group_cors = [];
  route_order_seq = 0;
  route_order = [];
  route_is_static = [];
  route_static_index = [];
  route_dynamic_prefix_index = [];
  route_dynamic_fallback_index = [];
  route_param_names = [];
  route_annotations = [];
  route_is_asyncgen = [];
  route_schema = [];
}

-- The signature of `_ensure_async`'s wrapper, `(*args, **kw)`
abbrev pub wrapper_signature : List Parameter
wrapper_signature =
    record { name = codes "args"; kind = var_positional; annotation = empty; has_default = false }
    ∷ record { name = codes "kw"; kind = var_keyword; annotation = empty; has_default = false }
    ∷ []

unfoldable pub ensure_style : Style → Handler → Handler
ensure_style plain h = record h { style = coroutine; signature = wrapper_signature }
ensure_style coroutine h = h
ensure_style async_generator h = h

-- `_ensure_async`
unfoldable pub ensure_async : Handler → Handler
unfolding ensure_style
ensure_async h = ensure_style h.style h

unfoldable pub is_async_generator : Style → Bool
is_async_generator async_generator = true
is_async_generator coroutine = false
is_async_generator plain = false

unfoldable pub parameter_names : List Parameter → List Text
parameter_names [] = []
parameter_names (p ∷ l) = p.name ∷ parameter_names l

unfoldable pub parameter_annotations : List Parameter → Dict Text Annotation
parameter_annotations [] = []
parameter_annotations (p ∷ l) = (p.name, p.annotation) ∷ parameter_annotations l

module _ {V : Type 0} where
  -- What `m.get(k, ())` gives.
  unfoldable pub bucket : Text → Dict Text (List V) → List V
  unfolding get
  bucket k m = elim (get k m) [ none ↦ [] | some l ↦ l ]

  -- `m.setdefault(k, []).append(v)`
  unfoldable pub append_at : Text → V → Dict Text (List V) → Dict Text (List V)
  unfolding bucket put
  append_at k v m = put k (bucket k m ++ v ∷ []) m

-- The three indexes.
unfoldable pub add_static : Route → App → App
unfolding append_at bucket put
add_static r a = record a {
  route_static_index =
      put r.route (append_at r.path_expr r (bucket r.route a.route_static_index))
        a.route_static_index;
}

unfoldable pub add_prefix : Text → Route → App → App
unfolding append_at bucket put
add_prefix seg r a = record a {
  route_dynamic_prefix_index =
      put r.route (append_at seg r (bucket r.route a.route_dynamic_prefix_index))
        a.route_dynamic_prefix_index;
}

unfoldable pub add_fallback : Route → App → App
unfolding append_at
add_fallback r a = record a {
  route_dynamic_fallback_index = append_at r.route r a.route_dynamic_fallback_index;
}

unfoldable pub add_dynamic : Option Text → Route → App → App
unfolding add_prefix add_fallback
add_dynamic none r a = add_fallback r a
add_dynamic (some seg) r a = add_prefix seg r a

-- What is kept for a route before it goes to an index.
unfoldable pub note_route : Route → Schema → App → App
unfolding parameter_names parameter_annotations is_async_generator put is_static_route_path
note_route r schema a = record a {
  route_order = put r.ident a.route_order_seq a.route_order;
  route_order_seq = a.route_order_seq + 1;
  route_param_names = put r.ident (parameter_names r.handler.signature) a.route_param_names;
  route_annotations = put r.ident (parameter_annotations r.handler.signature) a.route_annotations;
  route_is_asyncgen = put r.ident (is_async_generator r.handler.style) a.route_is_asyncgen;
  route_schema = put r.ident schema a.route_schema;
  route_is_static = put r.ident (is_static_route_path r.path_expr) a.route_is_static;
}

unfoldable pub place_route : Route → App → App
unfolding add_static add_dynamic is_static_route_path extract_first_literal_segment
place_route r a =
    if is_static_route_path r.path_expr
    then add_static r a
    else add_dynamic (extract_first_literal_segment r.path_expr) r a

-- `_index_route`
unfoldable pub index_route : Route → App → Result App
unfolding note_route place_route build_schema
index_route r a = do
  schema ← build_schema r.handler.signature
  ok (place_route r (note_route r schema a))

-- The arguments of the decorator `route`, the function under it, and the identity of the new route.
pub record Registration : Type 0 where
  pub ident : ℕ
  pub route : Text
  pub method : Text
  pub path : Text
  pub cors : Option Cors
  pub fn : Handler
  pub fn_name : Text

abbrev pub root_or : Text → Text
root_or [] = slash ∷ []
root_or (c ∷ t) = c ∷ t

-- The route that the decorator makes.
unfoldable pub make_route : Registration → Pattern → ParamTypes → Route
unfolding ensure_async
make_route s regex types = record {
  ident = s.ident;
  route = s.route;
  method = s.method;
  path_expr = root_or s.path;
  regex = regex;
  param_types = types;
  handler = ensure_async s.fn;
  name = s.fn_name;
  cors = s.cors;
}

-- The statements of the decorator after the route is made.
unfoldable pub keep_route : Handler → Route → App → Result App
unfolding index_route build_schema
keep_route fn r a = do
  b ← index_route r (record a { routes = a.routes ++ r ∷ [] })
  schema ← build_schema fn.signature
  ok b

module _ (compiles : Pattern → Bool) where
  -- `App.route` and its decorator
  unfoldable pub route : Registration → App → Result App
  unfolding compile_path make_route keep_route
  route s a = do
    (regex, types) ← compile_path (root_or s.path)
    raise_if (not (compiles regex)) regex_error
    keep_route s.fn (make_route s regex types) a

-- `_route_scopes`; the scope of a request without a route is not the key of any index
unfoldable pub route_scopes : Option Text → List (Option Text)
route_scopes request_route =
    if request_route == some (codes "*")
    then some (codes "*") ∷ []
    else request_route ∷ some (codes "*") ∷ []

unfoldable pub add_segment : Option Text → List Text → List Text
unfolding contains
add_segment none l = l
add_segment (some seg) l = if contains seg l then l else seg ∷ l

-- The set `first_segments`; what is made of it does not depend on the order of the loop over it.
unfoldable pub first_segments : List Text → List Text
unfolding add_segment path_first_segment
first_segments [] = []
first_segments (p ∷ l) = add_segment (path_first_segment p) (first_segments l)

-- `for r in l: by_id.setdefault(id(r), r)`
unfoldable pub add_routes : List Route → Dict ℕ Route → Dict ℕ Route
unfolding has put
add_routes [] by_id = by_id
add_routes (r ∷ l) by_id = add_routes l (if has r.ident by_id then by_id else put r.ident r by_id)

-- The routes of the keys, one key after another.
unfoldable pub add_buckets : List Text → Dict Text (List Route) → Dict ℕ Route → Dict ℕ Route
unfolding add_routes bucket
add_buckets [] m by_id = by_id
add_buckets (k ∷ l) m by_id = add_buckets l m (add_routes (bucket k m) by_id)

unfoldable pub add_scope : App → List Text → List Text → Option Text → Dict ℕ Route → Dict ℕ Route
unfolding add_buckets add_routes bucket
add_scope a candidates segments none by_id = by_id
add_scope a candidates segments (some scope) by_id =
    add_routes (bucket scope a.route_dynamic_fallback_index) (
      add_buckets segments (bucket scope a.route_dynamic_prefix_index)
        (add_buckets candidates (bucket scope a.route_static_index) by_id))

unfoldable pub add_scopes :
    App → List Text → List Text → List (Option Text) → Dict ℕ Route → Dict ℕ Route
unfolding add_scope
add_scopes a candidates segments [] by_id = by_id
add_scopes a candidates segments (scope ∷ l) by_id =
    add_scopes a candidates segments l (add_scope a candidates segments scope by_id)

-- `self._route_order.get(id(r), 0)`
unfoldable pub order_of : App → Route → ℕ
unfolding get
order_of a r = elim (get r.ident a.route_order) [ none ↦ 0 | some n ↦ n ]

unfoldable pub values : Dict ℕ Route → List Route
values [] = []
values ((k, r) ∷ m) = r ∷ values m

-- `_collect_candidate_routes`
unfoldable pub collect_candidate_routes : App → Option Text → List Text → List Route
unfolding add_scopes first_segments route_scopes order_of values sorted
collect_candidate_routes a request_route candidates =
    sorted (order_of a)
      (values (add_scopes a candidates (first_segments candidates) (route_scopes request_route) []))
