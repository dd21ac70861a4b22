-- ===== src/App/Routes/Indexed.antt =====
-- server/_app.py: what the tables of routes hold after any sequence of registrations.
use gnserver.Base.{
  ◌≡◌, refl, sym, ap, Bool, true, false, not, ◌&&◌, Option, none, some, List, [], ◌∷◌, ◌++◌, Text,
  ◌==◌, list_eq, nat_eq, option_eq, list_beq_iff, is_none, if◌then◌else◌, Bool-cases, Option-cases,
  arith, inl, inr, not,
}
use mathlib.Core.List.{append-nil}
use gnserver.Base.Dict.{Dict, put, get-put}
use gnserver.Base.Sorted.{filter, filter-append}
use gnserver.App.Paths.{is_static_route_path, extract_first_literal_segment}
use gnserver.App.Routes.{
  App, Route, bucket, append_at, add_static, add_prefix, add_fallback, add_dynamic, place_route,
}

-- The routes of each index, as a test on a route.
abbrev pub is_static : Route → Bool
is_static r = is_static_route_path r.path_expr

abbrev pub segment : Route → Option Text
segment r = extract_first_literal_segment r.path_expr

abbrev pub in_static : Text → Text → Route → Bool
in_static scope path r = is_static r && (r.route == scope && r.path_expr == path)

abbrev pub in_prefix : Text → Text → Route → Bool
in_prefix scope seg r = not (is_static r) && (r.route == scope && segment r == some seg)

abbrev pub in_fallback : Text → Route → Bool
in_fallback scope r = not (is_static r) && (r.route == scope && is_none (segment r))

-- Each index holds the routes of its kind, in the order of registration.
pub record AreIndexed (a : App) (routes : List Route) : Type 0 where
  pub statics :
      (s p : Text) → bucket p (bucket s a.route_static_index) ≡ filter (in_static s p) routes
  pub prefixes :
      (s g : Text)
      → bucket g (bucket s a.route_dynamic_prefix_index) ≡ filter (in_prefix s g) routes
  pub fallbacks :
      (s : Text) → bucket s a.route_dynamic_fallback_index ≡ filter (in_fallback s) routes

module _ {V : Type 0} where
  bucket-put :
      (k j : Text) (l : List V) (m : Dict Text (List V))
      → bucket j (put k l m) ≡ (if k == j then l else bucket j m)
  unfolding bucket
  bucket-put k j l m = ground (arith, get-put k j l m)

module _ {V : Type 0} where
  bucket-append_at :
      (k j : Text) (v : V) (m : Dict Text (List V))
      → bucket j (append_at k v m) ≡ bucket j m ++ (if k == j then v ∷ [] else [])
  unfolding append_at
  bucket-append_at k j v m = elim (Bool-cases (k == j)) [
    | inl same ↦
        let e : k ≡ j = (list_beq_iff k j).0 same in
        rw (bucket-put k j _ m) (rw same (ap (λ x. bucket x m ++ v ∷ []) e))
    | inr other ↦ rw (bucket-put k j _ m) (rw other (sym (append-nil (bucket j m))))
  ]

module _ {V : Type 0} where
  -- The two levels of an index.
  bucket-bucket :
      (s k t j : Text) (v : V) (m : Dict Text (Dict Text (List V)))
      → bucket j (bucket t (put s (append_at k v (bucket s m)) m))
        ≡ bucket j (bucket t m) ++ (if s == t && k == j then v ∷ [] else [])
  bucket-bucket s k t j v m = elim (Bool-cases (s == t)) [
    | inl same ↦
        let e : s ≡ t = (list_beq_iff s t).0 same in
        rw (bucket-put s t _ m) (
          rw (same, bucket-append_at k j v (bucket s m))
            (ap (λ x. bucket j (bucket x m) ++ (if k == j then v ∷ [] else [])) e))
    | inr other ↦ rw (bucket-put s t _ m) (rw other (sym (append-nil _)))
  ]

-- One more route at the end.
filter_last :
    (test : Route → Bool) (r : Route) (l : List Route)
    → filter test (l ++ r ∷ []) ≡ filter test l ++ (if test r then r ∷ [] else [])
unfolding filter
filter_last test r l = filter-append test l (r ∷ [])

place_static :
    (r : Route) (a : App) (routes : List Route)
    → is_static r ≡ true
    → AreIndexed a routes
    → AreIndexed (add_static r a) (routes ++ r ∷ [])
unfolding add_static
place_static r a routes e h = record {
  statics = λ s p.
      rw (filter_last (in_static s p) r routes, e, ← h.statics s p)
        (bucket-bucket r.route r.path_expr s p r a.route_static_index);
  prefixes = λ s g. rw (filter_last (in_prefix s g) r routes, e, append-nil) (h.prefixes s g);
  fallbacks = λ s. rw (filter_last (in_fallback s) r routes, e, append-nil) (h.fallbacks s);
}

place_prefix :
    (r : Route) (seg : Text) (a : App) (routes : List Route)
    → is_static r ≡ false
    → segment r ≡ some seg
    → AreIndexed a routes
    → AreIndexed (add_prefix seg r a) (routes ++ r ∷ [])
unfolding add_prefix
place_prefix r seg a routes e f h = record {
  statics = λ s p. rw (filter_last (in_static s p) r routes, e, append-nil) (h.statics s p);
  prefixes = λ s g.
      rw (filter_last (in_prefix s g) r routes, e, f, ← h.prefixes s g)
        (bucket-bucket r.route seg s g r a.route_dynamic_prefix_index);
  fallbacks = λ s.
      rw (filter_last (in_fallback s) r routes, e, f)
        (elim (Bool-cases (r.route == s)) [
          | inl t ↦ rw (t, append-nil) (h.fallbacks s)
          | inr t ↦ rw (t, append-nil) (h.fallbacks s)
        ]);
}

place_fallback :
    (r : Route) (a : App) (routes : List Route)
    → is_static r ≡ false
    → segment r ≡ none
    → AreIndexed a routes
    → AreIndexed (add_fallback r a) (routes ++ r ∷ [])
unfolding add_fallback
place_fallback r a routes e f h = record {
  statics = λ s p. rw (filter_last (in_static s p) r routes, e, append-nil) (h.statics s p);
  prefixes = λ s g.
      rw (filter_last (in_prefix s g) r routes, e, f)
        (elim (Bool-cases (r.route == s)) [
          | inl t ↦ rw (t, append-nil) (h.prefixes s g)
          | inr t ↦ rw (t, append-nil) (h.prefixes s g)
        ]);
  fallbacks = λ s.
      rw (filter_last (in_fallback s) r routes, e, f, ← h.fallbacks s)
        (rw (bucket-append_at r.route s r a.route_dynamic_fallback_index)
          (elim (Bool-cases (r.route == s)) [ inl t ↦ rw t | inr t ↦ rw t ]));
}

pub place_route-AreIndexed :
    (r : Route) (a : App) (routes : List Route)
    → AreIndexed a routes
    → AreIndexed (place_route r a) (routes ++ r ∷ [])
unfolding place_route add_dynamic
place_route-AreIndexed r a routes h = elim (Bool-cases (is_static r)) [
  | inl t ↦ rw t (place_static r a routes t h)
  | inr f ↦ elim (Option-cases (segment r)) [
    | inl n ↦ rw (f, n) (place_fallback r a routes f n h)
    | inr (seg, e) ↦ rw (f, e) (place_prefix r seg a routes f e h)
  ]
]

-- To place a route touches the indexes only.
pub place_route-same :
    (r : Route) (a : App)
    → ((place_route r a).routes ≡ a.routes)
      × ((place_route r a).route_order ≡ a.route_order)
      × ((place_route r a).route_order_seq ≡ a.route_order_seq)
      × ((place_route r a).route_is_static ≡ a.route_is_static)
unfolding place_route add_static add_dynamic add_prefix add_fallback
place_route-same r a = elim (Bool-cases (is_static r)) [
  | inl t ↦ rw t (refl, refl, refl, refl)
  | inr f ↦ elim (Option-cases (segment r)) [
    | inl n ↦ rw (f, n) (refl, refl, refl, refl)
    | inr (seg, e) ↦ rw (f, e) (refl, refl, refl, refl)
  ]
]
