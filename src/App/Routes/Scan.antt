-- ===== src/App/Routes/Scan.antt =====
-- server/_app.py: the indexed search for routes against a scan of all routes.
use gnserver.Base.{
  ◌≡◌, refl, sym, ap, ◌∙◌, ◌↔◌, ◌⊎◌, inl, inr, Bool, true, false, not, ◌&&◌, ◌||◌, Option, none,
  some, List, [], ◌∷◌, All, is_none, if◌then◌else◌, Bool-cases, Option-cases, Text, codes, ◌==◌,
  list_eq, nat_eq, option_eq, list_beq_iff, option_beq_iff, arith,
}
use gnserver.Base.Sorted.{
  filter, Member, Member-filter, All-Member, All-of_Member, Increasing, filter-Increasing,
  Increasing-ext,
}
use gnserver.Params.Schema.{contains}
use gnserver.App.Paths.{path_first_segment}
use gnserver.App.Paths.Segments.{LiteralFirst, path_first_segment-match}
use gnserver.App.Patterns.{Pattern, Groups}
use gnserver.App.Routes.{
  App, Route, order_of, route_scopes, add_segment, first_segments, collect_candidate_routes,
}
use gnserver.App.Routes.Indexed.{AreIndexed, is_static, segment, in_static, in_prefix, in_fallback}
use gnserver.App.Routes.Registered.{
  IsConsistent, HasFlag, IsCompiled, Registered, Registered-IsConsistent,
}
use gnserver.App.Routes.Candidates.{AreKnown, InScope, InScopes, collect_lem}
use gnserver.App.Routes.Matching.{is_flagged, match_route_path, path_params, reaches, in_scope}

contains-Member : (x : Text) (l : List Text) → (contains x l ≡ true) ↔ Member x l
unfolding contains
contains-Member x [] = (λ h. absurd (cc h), λ m. absurd m)
contains-Member x (y ∷ l) =
    let ih = contains-Member x l in
    (
      λ h. elim (Bool-cases (y == x)) [
        | inl t ↦ inl (sym ((list_beq_iff y x).0 t))
        | inr f ↦ inr (ih.0 (rw f at h))
      ],
      λ s. elim s [ inl e ↦ rw ((list_beq_iff y x).1 (sym e)) | inr m ↦ ground (arith, ih.1 m) ],
    )

add_segment-Member :
    (g : Text) (o : Option Text) (l : List Text) → Member g l → Member g (add_segment o l)
unfolding add_segment
add_segment-Member g none l m = m
add_segment-Member g (some h) l m = elim (Bool-cases (contains h l)) [
  | inl t ↦ rw t m
  | inr f ↦ rw f (inr m)
]

add_segment_self : (g : Text) (l : List Text) → Member g (add_segment (some g) l)
unfolding add_segment
add_segment_self g l = elim (Bool-cases (contains g l)) [
  | inl t ↦ rw t ((contains-Member g l).0 t)
  | inr f ↦ rw f (inl refl)
]

Member-first_segments :
    (g : Text) (c : Text) (l : List Text)
    → Member c l
    → path_first_segment c ≡ some g
    → Member g (first_segments l)
unfolding first_segments
Member-first_segments g c [] m e = absurd m
Member-first_segments g c (x ∷ l) (inl same) e =
    rw (← same, e) (add_segment_self g (first_segments l))
Member-first_segments g c (x ∷ l) (inr m) e =
    add_segment-Member g (path_first_segment x) (first_segments l) (Member-first_segments g c l m e)

-- What a match says.
match_inv :
    (fullmatch : Pattern → Text → Option Groups) (r : Route) (l : List Text) {g : Groups}
    → match_route_path fullmatch r l ≡ some g
    → (c : Text) × Member c l × (fullmatch r.regex c ≡ some g)
unfolding match_route_path
match_inv fullmatch r [] e = absurd (cc e)
match_inv fullmatch r (x ∷ l) {g} e = elim (Option-cases (fullmatch r.regex x)) [
  | inl n ↦ let (c, m, f) = match_inv fullmatch r l (rw (n, match_route_path) at e) in (c, inr m, f)
  | inr (h, s) ↦ (x, inl refl, s ∙ rw (s, match_route_path) at e)
]

filtered_known :
    (test : Route → Bool) (routes : List Route) → All (λ r. Member r routes) (filter test routes)
filtered_known test routes =
    All-of_Member (λ r. Member r routes) (filter test routes)
      (λ x m. ((Member-filter test x routes).0 m).0)

AreKnown-of :
    (a : App) (routes : List Route) (rising : Increasing (order_of a) routes)
    → AreIndexed a routes
    → AreKnown a routes rising
AreKnown-of a routes rising h = record {
  statics = λ s k. rw (h.statics s k) (filtered_known (in_static s k) routes);
  prefixes = λ s k. rw (h.prefixes s k) (filtered_known (in_prefix s k) routes);
  fallbacks = λ s. rw (h.fallbacks s) (filtered_known (in_fallback s) routes);
}

-- A test of three parts.
three : (p q r : Bool) → p && (q && r) ≡ true → (p ≡ true) × (q ≡ true) × (r ≡ true)
three p q r h = ground arith

both_true : (p q : Bool) → p && q ≡ true → (p ≡ true) × (q ≡ true)
both_true p q h = ground arith

or_true : (p q : Bool) → q ≡ true → p || q ≡ true
or_true p q h = ground arith

or_cases : (p q : Bool) → p || q ≡ true → (p ≡ true) ⊎ (q ≡ true)
or_cases true q h = inl refl
or_cases false q h = inr h

-- What the tables say of a route, in one direction and in the other.
module _ (a : App) (routes : List Route) (rising : Increasing (order_of a) routes)
    (h : AreIndexed a routes) (candidates segments : List Text) where
  from_scope :
      (s : Text) (x : Route)
      → InScope a routes rising candidates segments (some s) x
      → Member x routes × ((x.route == s) ≡ true)
  from_scope s x (inl (k, n, i)) =
      let (m, t) = (Member-filter (in_static s k) x routes).0 (rw (h.statics s k) at i) in
      (m, (three (is_static x) (x.route == s) (x.path_expr == k) t).1)
  from_scope s x (inr (inl (k, n, i))) =
      let (m, t) = (Member-filter (in_prefix s k) x routes).0 (rw (h.prefixes s k) at i) in
      (m, (three (not (is_static x)) (x.route == s) (segment x == some k) t).1)
  from_scope s x (inr (inr i)) =
      let (m, t) = (Member-filter (in_fallback s) x routes).0 (rw (h.fallbacks s) at i) in
      (m, (three (not (is_static x)) (x.route == s) (is_none (segment x)) t).1)

  -- A route in the scope is in the bucket that its path says.
  to_static :
      (x : Route)
      → Member x routes
      → is_static x ≡ true
      → Member x.path_expr candidates
      → InScope a routes rising candidates segments (some x.route) x
  to_static x m t c = inl (
    x.path_expr,
    c,
    rw (h.statics x.route x.path_expr) (
        (Member-filter (in_static x.route x.path_expr) x routes).1 (
          m,
          rw
              (
                t,
                (list_beq_iff x.route x.route).1 refl,
                (list_beq_iff x.path_expr x.path_expr).1 refl,
              )
              refl,
        )),
  )

  to_prefix :
      (x : Route) (g : Text)
      → Member x routes
      → is_static x ≡ false
      → segment x ≡ some g
      → Member g segments
      → InScope a routes rising candidates segments (some x.route) x
  to_prefix x g m f e c = inr (
      inl (
        g,
        c,
        rw (h.prefixes x.route g) (
            (Member-filter (in_prefix x.route g) x routes).1 (
              m,
              rw (f, e, (list_beq_iff x.route x.route).1 refl, (list_beq_iff g g).1 refl) refl,
            )),
      ))

  to_fallback :
      (x : Route)
      → Member x routes
      → is_static x ≡ false
      → segment x ≡ none
      → InScope a routes rising candidates segments (some x.route) x
  to_fallback x m f e = inr (
      inr (
        rw (h.fallbacks x.route) (
          (Member-filter (in_fallback x.route) x routes).1
            (m, rw (f, e, (list_beq_iff x.route x.route).1 refl) refl))))

  along :
      {o p : Option Text} (x : Route)
      → InScope a routes rising candidates segments o x
      → o ≡ p
      → InScope a routes rising candidates segments p x
  along x i e = rw (← e) i

  -- The two lists of scopes, by the test.
  module _ (b : Bool) (l m : List (Option Text)) (x : Route) where
    pick :
        b ≡ true
        → InScopes a routes rising candidates segments (if b then l else m) x
        → InScopes a routes rising candidates segments l x
    pick t i = rw t at i

    leave :
        b ≡ false
        → InScopes a routes rising candidates segments (if b then l else m) x
        → InScopes a routes rising candidates segments m x
    leave f i = rw f at i

    pick_back :
        b ≡ true
        → InScopes a routes rising candidates segments l x
        → InScopes a routes rising candidates segments (if b then l else m) x
    pick_back t i = rw t i

    leave_back :
        b ≡ false
        → InScopes a routes rising candidates segments m x
        → InScopes a routes rising candidates segments (if b then l else m) x
    leave_back f i = rw f i

  from_star :
      (request_route : Option Text) (x : Route)
      → InScope a routes rising candidates segments (some (codes "*")) x
      → Member x routes × (in_scope request_route x ≡ true)
  from_star request_route x i = let (m, t) = from_scope (codes "*") x i in (m, rw t refl)

  from_own :
      (request_route : Option Text) (x : Route)
      → InScope a routes rising candidates segments request_route x
      → Member x routes × (in_scope request_route x ≡ true)
  from_own none x i = absurd i
  from_own (some s) x i =
      let (m, t) = from_scope s x i in
      (m, or_true _ _ ((list_beq_iff s x.route).1 (sym ((list_beq_iff x.route s).0 t))))

  -- The scopes of a request.
  from_scopes :
      (request_route : Option Text) (x : Route)
      → InScopes a routes rising candidates segments (route_scopes request_route) x
      → Member x routes × (in_scope request_route x ≡ true)
  unfolding route_scopes
  from_scopes request_route x i = elim (Bool-cases (request_route == some (codes "*"))) [
    | inl t ↦ elim (pick _ _ _ x t i) [ inl j ↦ from_star request_route x j | inr n ↦ absurd n ]
    | inr f ↦ elim (leave _ _ _ x f i) [
      | inl j ↦ from_own request_route x j
      | inr k ↦ elim k [ inl j ↦ from_star request_route x j | inr n ↦ absurd n ]
    ]
  ]

  to_scopes :
      (request_route : Option Text) (x : Route)
      → in_scope request_route x ≡ true
      → InScope a routes rising candidates segments (some x.route) x
      → InScopes a routes rising candidates segments (route_scopes request_route) x
  unfolding route_scopes
  to_scopes request_route x t i = elim (Bool-cases (request_route == some (codes "*"))) [
    | inl star ↦ pick_back _ _ _ x star (
        inl (elim (or_cases _ _ t) [
          | inl e ↦ along x i (ap some ((list_beq_iff x.route (codes "*")).0 e))
          | inr e ↦ along x i (
              sym ((option_beq_iff request_route (some x.route)).0 e)
              ∙ (option_beq_iff request_route (some (codes "*"))).0 star)
        ]))
    | inr other ↦ leave_back _ _ _ x other (elim (or_cases _ _ t) [
      | inl e ↦ inr (inl (along x i (ap some ((list_beq_iff x.route (codes "*")).0 e))))
      | inr e ↦ inl (along x i (sym ((option_beq_iff request_route (some x.route)).0 e)))
    ])
  ]

flag_lem : (a : App) (x : Route) → HasFlag a x → is_flagged a x ≡ is_static x
unfolding is_flagged
flag_lem a x e = rw (e, is_flagged)

some_of_reach : (o : Option Groups) → not (is_none o) ≡ true → (g : Groups) × (o ≡ some g)
some_of_reach none h = absurd (cc h)
some_of_reach (some g) h = (g, refl)

if_static : (b : Bool) {g : Groups} → (if b then some [] else none) ≡ some g → b ≡ true
if_static true e = refl
if_static false e = absurd (cc e)

module _ (fullmatch : Pattern → Text → Option Groups) (lit : LiteralFirst fullmatch) where
  -- A route of the scope that the path reaches is found by the indexes.
  found :
      (a : App) (h : IsConsistent a) (candidates : List Text) (request_route : Option Text)
      (x : Route)
      → Member x a.routes
      → in_scope request_route x ≡ true
      → reaches fullmatch a candidates x ≡ true
      → InScopes a a.routes h.rising candidates
          (first_segments candidates)
          (route_scopes request_route)
          x
  unfolding path_params
  found a h candidates request_route x m s r =
      let flag = flag_lem a x (All-Member (HasFlag a) x a.routes h.flagged m) in
      let (g, e) = some_of_reach (path_params fullmatch a candidates x) r in
      to_scopes a a.routes h.rising h.indexed candidates (first_segments candidates) request_route x
        s
        (elim (Bool-cases (is_static x)) [
          | inl t ↦
              to_static a a.routes h.rising h.indexed candidates _ x m t
                ((contains-Member x.path_expr candidates).0 (if_static _ (rw (flag, t) at e)))
          | inr f ↦ elim (Option-cases (segment x)) [
            | inl n ↦ to_fallback a a.routes h.rising h.indexed candidates _ x m f n
            | inr (seg, here) ↦
                let (c, i, k) = match_inv fullmatch x candidates (rw (flag, f) at e) in
                let (types, made) = All-Member IsCompiled x a.routes h.compiled m in
                to_prefix a a.routes h.rising h.indexed candidates _ x seg m f here (
                  Member-first_segments seg c candidates i (
                    path_first_segment-match fullmatch x.path_expr seg c x.regex types g lit f here
                      made k))
          ]
        ])

  -- The indexed search finds, of the routes that the path reaches, the ones that a scan of all
  -- routes of the request's scopes finds, in the order of their registration.
  pub collect-scan :
      (compiles : Pattern → Bool) (a : App) (request_route : Option Text) (candidates : List Text)
      → Registered compiles a
      → filter
          (reaches fullmatch a candidates)
          (collect_candidate_routes a request_route candidates)
        ≡ filter (λ r. in_scope request_route r && reaches fullmatch a candidates r) a.routes
  collect-scan compiles a request_route candidates registered =
      let h = Registered-IsConsistent compiles registered in
      let (rising, members) =
        collect_lem a a.routes h.rising request_route candidates
          (AreKnown-of a a.routes h.rising h.indexed) in
      Increasing-ext (order_of a) _ _
        (filter-Increasing (order_of a) (reaches fullmatch a candidates) _ rising)
        (filter-Increasing (order_of a) _ a.routes h.rising)
        (λ x i.
          let (j, t) = (Member-filter (reaches fullmatch a candidates) x _).0 i in
          let (m, s) =
            from_scopes a a.routes h.rising h.indexed candidates _ request_route x
              ((members x).0 j) in
          (Member-filter _ x a.routes).1 (m, rw (s, t) refl))
        (λ x i.
          let (m, t) = (Member-filter _ x a.routes).0 i in
          let (s, r) = both_true _ _ t in
          (Member-filter (reaches fullmatch a candidates) x _).1
            ((members x).1 (found a h candidates request_route x m s r), r))
