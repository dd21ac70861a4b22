-- ===== src/App/Routes/Registered.antt =====
-- server/_app.py: the tables of an `App` after any sequence of registrations: the indexes, the order of
-- the routes, and their patterns.
use gnserver.Base.{
  ℕ, ◌<◌, ◌≡◌, refl, sym, ap, Bool, false, not, Option, none, some, List, [], ◌∷◌, ◌++◌, All,
  All-append, ◌==◌, nat_eq, nat_beq_iff, Bool-cases, arith, ok, >>=-eq-ok, ok-injective, raise_if,
  regex_error, inl, inr, ◌∙◌, ◌>>=◌, ◌>>◌,
}
use gnserver.Base.Dict.{get, get-put}
use gnserver.Base.Sorted.{filter, Increasing}
use gnserver.Params.Schema.{Schema, build_schema}
use gnserver.App.Patterns.{Pattern, ParamTypes, compile_path}
use gnserver.App.Cors.{Cors}
use gnserver.App.Routes.{
  App, Route, Registration, new_app, note_route, place_route, index_route, make_route, route,
  bucket, Handler, keep_route, root_or, order_of,
}
use gnserver.App.Routes.Indexed.{AreIndexed, is_static, place_route-AreIndexed, place_route-same}

-- The order of a route is in the table, and is below the next one.
abbrev pub HasOrder : App → Route → Type 0
HasOrder a r = (n : ℕ) × (get r.ident a.route_order ≡ some n) × (n < a.route_order_seq)

-- The table says whether a route is static.
abbrev pub HasFlag : App → Route → Type 0
HasFlag a r = get r.ident a.route_is_static ≡ some (is_static r)

-- The pattern of a route is that of its path.
abbrev pub IsCompiled : Route → Type 0
IsCompiled r = (types : ParamTypes) × (compile_path r.path_expr ≡ ok (r.regex, types))

-- The tables describe a list of routes.
pub record Describes (a : App) (routes : List Route) : Type 0 where
  pub indexed : AreIndexed a routes
  pub ordered : All (HasOrder a) routes
  pub rising : Increasing (order_of a) routes
  pub flagged : All (HasFlag a) routes
  pub compiled : All IsCompiled routes

abbrev pub IsConsistent : App → Type 0
IsConsistent a = Describes a a.routes

order_of_lem : (a : App) (r : Route) {n : ℕ} → get r.ident a.route_order ≡ some n → order_of a r ≡ n
unfolding order_of
order_of_lem a r e = rw (order_of, e)

module _ {A : Type 0} where
  Increasing-append :
      (f : A → ℕ) (l : List A) (x : A)
      → Increasing f l
      → All (λ y. f y < f x) l
      → Increasing f (l ++ x ∷ [])
  Increasing-append f [] x h k = (tt, tt)
  Increasing-append f (y ∷ l) x h k =
      (All-append (λ z. f y < f z) l (x ∷ []) h.0 (k.0, tt), Increasing-append f l x h.1 k.1)

  All-map {κ μ} :
      (P : A → Type κ) (Q : A → Type μ) (l : List A) → ((x : A) → P x → Q x) → All P l → All Q l
  All-map P Q [] f h = tt
  All-map P Q (x ∷ l) f h = (f x h.0, All-map P Q l f h.1)

  All-both {κ μ} :
      (P : A → Type κ) (Q : A → Type μ) (l : List A) → All P l → All Q l → All (λ x. P x × Q x) l
  All-both P Q [] h k = tt
  All-both P Q (x ∷ l) h k = ((h.0, k.0), All-both P Q l h.1 k.1)

  Increasing-eq :
      (f g : A → ℕ) (l : List A) → All (λ x. f x ≡ g x) l → Increasing f l → Increasing g l
  Increasing-eq f g [] e h = tt
  Increasing-eq f g (x ∷ l) e h = (
    All-map _ _ l (λ y (p : (f y ≡ g y) × (f x < f y)). omega (arith, e.0))
        (All-both _ _ l e.1 h.0),
    Increasing-eq f g l e.1 h.1,
  )

-- A route that is not in the tables yet.
abbrev pub IsNew : App → Route → Type 0
IsNew a r = get r.ident a.route_order ≡ none

abbrev noted : Route → Schema → App → App
noted r schema a = note_route r schema (record a { routes = a.routes ++ r ∷ [] })

-- Another route's entries stay.
other_ident : (a : App) (r x : Route) → IsNew a r → HasOrder a x → (r.ident == x.ident) ≡ false
other_ident a r x new (n, e, b) = elim (Bool-cases (r.ident == x.ident)) [
  | inr f ↦ f
  | inl t ↦ absurd (
      let same : r.ident ≡ x.ident = (nat_beq_iff _ _).0 t in
      let clash : none ≡ some n = rw (same, e) at (sym new) in cc)
]

get-note_other :
    (a : App) (r x : Route) (schema : Schema)
    → IsNew a r
    → HasOrder a x
    → (get x.ident (noted r schema a).route_order ≡ get x.ident a.route_order)
      × (get x.ident (noted r schema a).route_is_static ≡ get x.ident a.route_is_static)
unfolding note_route
get-note_other a r x schema new h =
    let f = other_ident a r x new h in
    (
      rw (get-put r.ident x.ident _ a.route_order, f),
      rw (get-put r.ident x.ident _ a.route_is_static, f),
    )

order_of_new :
    (a : App) (r : Route) (schema : Schema)
    → get r.ident (noted r schema a).route_order ≡ some a.route_order_seq
unfolding note_route
order_of_new a r schema =
    rw (
      get-put r.ident r.ident a.route_order_seq a.route_order,
      (nat_beq_iff r.ident r.ident).1 refl,
    )

flag_of_new : (a : App) (r : Route) (schema : Schema) → HasFlag (noted r schema a) r
unfolding note_route
flag_of_new a r schema =
    rw (
      get-put r.ident r.ident (is_static r) a.route_is_static,
      (nat_beq_iff r.ident r.ident).1 refl,
    )

seq_lt :
    (a : App) (r : Route) (schema : Schema) → a.route_order_seq < (noted r schema a).route_order_seq
unfolding note_route
seq_lt a r schema = omega arith

routes_of_new :
    (a : App) (r : Route) (schema : Schema) → (noted r schema a).routes ≡ a.routes ++ r ∷ []
unfolding note_route
routes_of_new a r schema = refl

noted_indexed :
    (a : App) (r : Route) (schema : Schema)
    → AreIndexed a a.routes
    → AreIndexed (noted r schema a) a.routes
unfolding note_route
noted_indexed a r schema h = record {
  statics = h.statics;
  prefixes = h.prefixes;
  fallbacks = h.fallbacks;
}

-- An old route's facts in the new tables.
HasOrder-kept :
    (a : App) (r x : Route) (schema : Schema)
    → IsNew a r
    → HasOrder a x
    → HasOrder (noted r schema a) x
unfolding note_route
HasOrder-kept a r x schema new (n, e, b) =
    (n, (get-note_other a r x schema new (n, e, b)).0 ∙ e, omega arith)

order_kept :
    (a : App) (r x : Route) (schema : Schema)
    → IsNew a r
    → HasOrder a x
    → order_of a x ≡ order_of (noted r schema a) x
order_kept a r x schema new (n, e, b) =
    let k = (get-note_other a r x schema new (n, e, b)).0 ∙ e in
    order_of_lem a x e ∙ sym (order_of_lem (noted r schema a) x k)

order_below :
    (a : App) (r x : Route) (schema : Schema)
    → IsNew a r
    → HasOrder a x
    → order_of (noted r schema a) x < order_of (noted r schema a) r
order_below a r x schema new (n, e, b) =
    let k = (get-note_other a r x schema new (n, e, b)).0 ∙ e in
    rw
      (
        order_of_lem (noted r schema a) x k,
        order_of_lem (noted r schema a) r (order_of_new a r schema),
      )
      b

move {κ} : {A : Type 0} (P : A → Type κ) {x y : A} → x ≡ y → P x → P y
move P e p = rw (← e) p

-- The facts, with the three tables of an app that they read.
transfer :
    (a b : App) (routes : List Route)
    → AreIndexed b routes
    → b.route_order ≡ a.route_order
    → b.route_order_seq ≡ a.route_order_seq
    → b.route_is_static ≡ a.route_is_static
    → All (HasOrder a) routes
    → Increasing (order_of a) routes
    → All (HasFlag a) routes
    → All IsCompiled routes
    → Describes b routes
transfer a b routes ix o s f ho inc fl c = record {
  indexed = ix;
  ordered =
      All-map _ _ routes
        (λ x (p : HasOrder a x). (p.0, ap (get x.ident) o ∙ p.1, move (λ k. p.0 < k) (sym s) p.2))
        ho;
  rising =
      Increasing-eq (order_of a) (order_of b) routes
        (All-map _ _ routes
          (λ x (p : HasOrder a x).
            order_of_lem a x p.1 ∙ sym (order_of_lem b x (ap (get x.ident) o ∙ p.1)))
          ho)
        inc;
  flagged = All-map _ _ routes (λ x (p : HasFlag a x). ap (get x.ident) f ∙ p) fl;
  compiled = c;
}

-- One registration keeps the tables consistent.
index_route-IsConsistent :
    (a : App) (r : Route) (schema : Schema)
    → IsNew a r
    → IsCompiled r
    → IsConsistent a
    → IsConsistent (place_route r (noted r schema a))
index_route-IsConsistent a r schema new made h =
    let n = noted r schema a in
    let (e, o, s, f) = place_route-same r n in
    move (Describes (place_route r n)) (sym (e ∙ routes_of_new a r schema)) (
      transfer n (place_route r n) (a.routes ++ r ∷ [])
        (place_route-AreIndexed r n a.routes (noted_indexed a r schema h.indexed)) o s f
        (All-append (HasOrder n) a.routes (r ∷ [])
          (All-map _ _ a.routes (λ x k. HasOrder-kept a r x schema new k) h.ordered)
          ((a.route_order_seq, order_of_new a r schema, seq_lt a r schema), tt))
        (Increasing-append (order_of n) a.routes r
          (Increasing-eq (order_of a) (order_of n) a.routes
            (All-map _ _ a.routes (λ x k. order_kept a r x schema new k) h.ordered) h.rising)
          (All-map _ _ a.routes (λ x k. order_below a r x schema new k) h.ordered))
        (All-append (HasFlag n) a.routes (r ∷ [])
          (All-map _ _ a.routes
            (λ x (p : HasOrder a x × HasFlag a x). (get-note_other a r x schema new p.0).1 ∙ p.1)
            (All-both _ _ a.routes h.ordered h.flagged))
          (flag_of_new a r schema, tt))
        (All-append IsCompiled a.routes (r ∷ []) h.compiled (made, tt)))

keep_route-IsConsistent :
    (fn : Handler) (r : Route) (a : App) {b : App}
    → IsNew a r
    → IsCompiled r
    → keep_route fn r a ≡ ok b
    → IsConsistent a
    → IsConsistent b
unfolding keep_route index_route
keep_route-IsConsistent fn r a new made done h =
    let (c, indexed, rest) =
      >>=-eq-ok (index_route r (record a { routes = a.routes ++ r ∷ [] }))
        (λ x. build_schema fn.signature >>= λ y. ok x) done in
    let (_, _, last) = >>=-eq-ok (build_schema fn.signature) (λ y. ok c) rest in
    let (schema, _, placed) =
      >>=-eq-ok (build_schema r.handler.signature) (λ x. ok (place_route r (noted r x a)))
        indexed in
    move IsConsistent (ok-injective placed ∙ ok-injective last)
      (index_route-IsConsistent a r schema new made h)

-- The empty tables, and any registrations of new routes.
module _ (compiles : Pattern → Bool) where
  pub data Registered : App → Type 0 where
    start : (cors : Option Cors) → Registered (new_app cors)
    add :
        {a b : App} (s : Registration)
        → Registered a
        → get s.ident a.route_order ≡ none
        → route compiles s a ≡ ok b
        → Registered b

  route-IsConsistent :
      (s : Registration) (a : App) {b : App}
      → get s.ident a.route_order ≡ none
      → route compiles s a ≡ ok b
      → IsConsistent a
      → IsConsistent b
  unfolding route make_route
  route-IsConsistent s a new done h =
      let ((regex, types), compiled, rest) =
        >>=-eq-ok (compile_path (root_or s.path))
          (λ p.
            raise_if (not (compiles p.0)) regex_error >> keep_route s.fn (make_route s p.0 p.1) a)
          done in
      let (_, _, kept) =
        >>=-eq-ok (raise_if (not (compiles regex)) regex_error)
          (λ u. keep_route s.fn (make_route s regex types) a) rest in
      keep_route-IsConsistent s.fn (make_route s regex types) a new (types, compiled) kept h

  new_app-IsConsistent : (cors : Option Cors) → IsConsistent (new_app cors)
  unfolding bucket get filter
  new_app-IsConsistent cors = record {
    indexed = record { statics = λ s p. refl; prefixes = λ s g. refl; fallbacks = λ s. refl };
    ordered = tt;
    rising = tt;
    flagged = tt;
    compiled = tt;
  }

  -- The tables are consistent after any registrations.
  pub Registered-IsConsistent : {a : App} → Registered a → IsConsistent a
  Registered-IsConsistent (start cors) = new_app-IsConsistent cors
  Registered-IsConsistent (add s before new done) =
      route-IsConsistent s _ new done (Registered-IsConsistent before)
