-- ===== src/App/Routes/Matching.antt =====
-- server/_app.py: which routes a path reaches: `_match_route_path`, and the test in `dispatchRequest`.
-- `fullmatch` is the one of `re`; its groups are what `groupdict` gives.
use gnserver.Base.{
  Bool, false, not, ◌||◌, Option, none, some, List, [], ◌∷◌, is_none, if◌then◌else◌, Text, codes,
  ◌==◌, list_eq, nat_eq, option_eq,
}
use gnserver.Base.Dict.{get}
use gnserver.Params.Schema.{contains}
use gnserver.App.Patterns.{Pattern, Groups}
use gnserver.App.Routes.{App, Route}

-- `self._route_is_static.get(rid, False)`
unfoldable pub is_flagged : App → Route → Bool
unfolding get
is_flagged a r = elim (get r.ident a.route_is_static) [ none ↦ false | some b ↦ b ]

module _ (fullmatch : Pattern → Text → Option Groups) where
  -- `_match_route_path`
  unfoldable pub match_route_path : Route → List Text → Option Groups
  match_route_path r [] = none
  match_route_path r (c ∷ l) =
      let rest = match_route_path r l in
      elim (fullmatch r.regex c) [ none ↦ rest | some g ↦ some g ]

  -- `path_params`, or none where the loop of `dispatchRequest` goes on with the next route
  unfoldable pub path_params : App → List Text → Route → Option Groups
  unfolding is_flagged match_route_path contains
  path_params a candidates r =
      if is_flagged a r
      then (if contains r.path_expr candidates then some [] else none)
      else match_route_path r candidates

  abbrev pub reaches : App → List Text → Route → Bool
  reaches a candidates r = not (is_none (path_params a candidates r))

-- The routes of the two scopes of a request.
abbrev pub in_scope : Option Text → Route → Bool
in_scope request_route r = r.route == codes "*" || request_route == some r.route
