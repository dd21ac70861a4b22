-- ===== src/App/Dispatch/Found.antt =====
-- server/_app.py: which routes `dispatchRequest` tries, and its errors where none serves the request.
use gnserver.Base.{
  ◌≡◌, refl, sym, ap, ◌∙◌, ◌⊎◌, inl, inr, Bool, true, false, not, ◌&&◌, ◌||◌, Option, some, List,
  [], ◌∷◌, All, is_none, is_empty, if◌then◌else◌, Bool-cases, Option-cases, Text, codes, ◌==◌,
  list_eq, nat_eq, option_eq, Result, raise, ◌>>=◌, method_not_allowed, path_not_found,
}
use gnserver.Base.Sorted.{filter}
use gnserver.App.Paths.{build_path_candidates}
use gnserver.App.Paths.Segments.{LiteralFirst}
use gnserver.App.Patterns.{Pattern}
use gnserver.App.Routes.{App, Route, collect_candidate_routes}
use gnserver.App.Routes.Matching.{path_params, reaches, in_scope}
use gnserver.App.Routes.Registered.{Registered}
use gnserver.App.Routes.Scan.{collect-scan}
use gnserver.App.Dispatch.{Env, Request, Turn, is_proxied, dispatch_loop, dispatch_once, after_turn}

filter-and :
    (p q : Route → Bool) (l : List Route) → filter q (filter p l) ≡ filter (λ r. p r && q r) l
unfolding filter
filter-and p q [] = refl
filter-and p q (r ∷ l) = elim (Bool-cases (p r)) [
  | inl t ↦ rw (t, filter-and p q l)
  | inr f ↦ rw (f, filter-and p q l)
]

turn_eq :
    (proxied other : Bool) (m : Result Turn) (s t p r : Result Turn)
    → s ≡ t
    → p ≡ r
    → (if proxied then s else if other then p else m >>= λ x. after_turn p x)
      ≡ (if proxied then t else if other then r else m >>= λ x. after_turn r x)
turn_eq proxied other m s t p r e f = rw (e, f)

or_true : (b c : Bool) → b || (true || c) ≡ true
or_true true c = refl
or_true false c = refl

reach_of {ℓ} : {A : Type ℓ} (o : Option A) {g : A} → o ≡ some g → not (is_none o) ≡ true
reach_of o e = rw e

other_method : (b c : Bool) (P : Type 0) → b ≡ false → c ≡ true → (b ≡ true) ⊎ (c ≡ false) ⊎ P → P
other_method b c P f t (inl e) = absurd (cc (f, e))
other_method b c P f t (inr (inl e)) = absurd (cc (t, e))
other_method b c P f t (inr (inr p)) = p

module _ (env : Env) (a : App) (q : Request) where
  abbrev pub reached : Route → Bool
  reached = reaches env.fullmatch a (build_path_candidates q.path)

  -- The loop passes over the routes that the path does not reach.
  dispatch_loop-filter :
      (l : List Route) (allowed : List Text)
      → dispatch_loop env a q l allowed ≡ dispatch_loop env a q (filter reached l) allowed
  unfolding dispatch_loop filter
  dispatch_loop-filter [] allowed = refl
  dispatch_loop-filter (r ∷ l) allowed =
      let ih = dispatch_loop-filter l allowed in
      let ih' = dispatch_loop-filter l (r.method ∷ allowed) in
      elim (Option-cases (path_params env.fullmatch a (build_path_candidates q.path) r)) [
        | inl n ↦
            rw (n, dispatch_loop)
              (elim (Bool-cases (is_proxied env.same_route r q.proxy_list)) [
                | inl t ↦ rw t ih
                | inr f ↦ rw f ih
              ])
        | inr (g, s) ↦ rw (s, s, dispatch_loop) (turn_eq _ _ _ _ _ _ _ ih ih')
      ]

  -- A route that does not serve the request: it is excluded, the path does not reach it, or it has
  -- another method.
  abbrev pub IsUnserved : Route → Type 0
  IsUnserved r =
      (is_proxied env.same_route r q.proxy_list ≡ true)
      ⊎ (reached r ≡ false)
      ⊎ (((r.method == q.caller.method) ≡ false) × ((r.method == codes "*") ≡ false))

  -- A route that the path reaches and that is not excluded.
  abbrev pub is_tried : Route → Bool
  is_tried r = not (is_proxied env.same_route r q.proxy_list) && reached r

  -- Whether there is such a route.
  unfoldable pub any_tried : List Route → Bool
  any_tried [] = false
  any_tried (r ∷ l) = is_tried r || any_tried l

  abbrev pub not_served : Bool → Result Turn
  not_served true = raise method_not_allowed
  not_served false = raise path_not_found

  dispatch_loop-unserved :
      (l : List Route) (allowed : List Text)
      → All IsUnserved l
      → dispatch_loop env a q l allowed ≡ not_served (not (is_empty allowed) || any_tried l)
  unfolding dispatch_loop any_tried
  dispatch_loop-unserved [] [] h = refl
  dispatch_loop-unserved [] (m ∷ allowed) h = refl
  dispatch_loop-unserved (r ∷ l) allowed h =
      let ih = dispatch_loop-unserved l allowed h.1 in
      let ih' = dispatch_loop-unserved l (r.method ∷ allowed) h.1 in
      elim (Bool-cases (is_proxied env.same_route r q.proxy_list)) [
        | inl t ↦ rw (t, dispatch_loop) ih
        | inr f ↦
            elim (Option-cases (path_params env.fullmatch a (build_path_candidates q.path) r)) [
              | inl n ↦ rw (f, n, dispatch_loop) ih
              | inr (g, s) ↦
                  let (x, y) = other_method _ _ _ f (reach_of _ s) h.0 in
                  rw (f, s, x, y, dispatch_loop)
                    (ih' ∙ ap not_served (sym (or_true (not (is_empty allowed)) (any_tried l))))
            ]
      ]

  -- The loop over the candidates of the indexes does what a loop over all routes of the request's
  -- scopes, in the order of their registration, does.
  pub dispatch_once-scan :
      (compiles : Pattern → Bool)
      → Registered compiles a
      → LiteralFirst env.fullmatch
      → dispatch_once env a q ≡ dispatch_loop env a q (filter (in_scope q.route) a.routes) []
  unfolding dispatch_once
  dispatch_once-scan compiles registered lit =
      let found =
        collect-scan env.fullmatch lit compiles a q.route (build_path_candidates q.path)
          registered in
      dispatch_loop-filter (collect_candidate_routes a q.route (build_path_candidates q.path)) []
      ∙ ap (λ l. dispatch_loop env a q l [])
          (found ∙ sym (filter-and (in_scope q.route) reached a.routes))
      ∙ sym (dispatch_loop-filter (filter (in_scope q.route) a.routes) [])

  -- Where no route of the request's scopes serves the request, the answer is MethodNotAllowed if one of
  -- them is reached by the path and is not excluded, and PathNotFound otherwise.
  pub dispatch_once-unserved :
      (compiles : Pattern → Bool)
      → Registered compiles a
      → LiteralFirst env.fullmatch
      → All IsUnserved (filter (in_scope q.route) a.routes)
      → dispatch_once env a q ≡ not_served (any_tried (filter (in_scope q.route) a.routes))
  dispatch_once-unserved compiles registered lit h =
      dispatch_once-scan compiles registered lit
      ∙ dispatch_loop-unserved (filter (in_scope q.route) a.routes) [] h
