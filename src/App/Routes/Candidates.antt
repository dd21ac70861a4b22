-- ===== src/App/Routes/Candidates.antt =====
-- server/_app.py: `_collect_candidate_routes` against a scan of all routes. `fullmatch` is the one of `re`.
use gnserver.Base.{
  ℕ, ◌≡◌, ◌<◌, refl, sym, ap, ◌∙◌, ◌↔◌, ◌⊎◌, inl, inr, true, Option, none, some, List, [], ◌∷◌,
  ◌++◌, All, All-append, Text, ◌==◌, list_eq, nat_eq, option_eq, nat_beq_iff, if◌then◌else◌,
  Bool-cases, Option-cases, arith,
}
use gnserver.Base.Dict.{Dict, get, put, has, put-append, has-get, has-get_held}
use gnserver.Base.Sorted.{
  Member, Member-append, All-Member, All-of_Member, Increasing, Distinct, Member-sorted,
  sorted-Increasing,
}
use gnserver.App.Routes.{
  App, Route, bucket, add_routes, add_buckets, add_scope, add_scopes, values, order_of,
  route_scopes, first_segments, collect_candidate_routes,
}

-- A key tells the members of a list with rising keys apart.
key_injective :
    {A : Type 0} (f : A → ℕ) (l : List A) (x y : A)
    → Increasing f l
    → Member x l
    → Member y l
    → f x ≡ f y
    → x ≡ y
key_injective f [] x y h m n e = absurd m
key_injective f (z ∷ l) x y h (inl p) (inl q) e = p ∙ sym q
key_injective f (z ∷ l) x y h (inl p) (inr n) e =
    absurd (let up = All-Member (λ w. f z < f w) y l h.0 n in let k = ap f p in omega arith)
key_injective f (z ∷ l) x y h (inr m) (inl q) e =
    absurd (let up = All-Member (λ w. f z < f w) x l h.0 m in let k = ap f q in omega arith)
key_injective f (z ∷ l) x y h (inr m) (inr n) e = key_injective f l x y h.1 m n e

Distinct-append :
    {A : Type 0} (f : A → ℕ) (l : List A) (x : A)
    → Distinct f l
    → All (λ y. ¬ (f y ≡ f x)) l
    → Distinct f (l ++ x ∷ [])
Distinct-append f [] x h k = (tt, tt)
Distinct-append f (y ∷ l) x h k =
    (All-append (λ z. ¬ (f y ≡ f z)) l (x ∷ []) h.0 (k.0, tt), Distinct-append f l x h.1 k.1)

values-append :
    (m : Dict ℕ Route) (k : ℕ) (r : Route) → values (m ++ (k, r) ∷ []) ≡ values m ++ r ∷ []
unfolding values
values-append [] k r = refl
values-append ((j, x) ∷ m) k r = ap (◌∷◌ x) (values-append m k r)

-- One round of the loops, `by_id.setdefault(id(r), r)`.
abbrev add_one : Route → Dict ℕ Route → Dict ℕ Route
add_one r m = if has r.ident m then m else put r.ident r m

-- The routes of the app, told apart by their identities.
module _ (a : App) (routes : List Route) (rising : Increasing (order_of a) routes) where
  ident_injective : (r s : Route) → Member r routes → Member s routes → r.ident ≡ s.ident → r ≡ s
  unfolding order_of
  ident_injective r s m n e = key_injective (order_of a) routes r s rising m n (rw e)

  -- The keys are the identities of routes of the app, and no route stands twice.
  record IsTable (m : Dict ℕ Route) : Type 0 where
    keyed : All (λ (p : ℕ × Route). (p.0 ≡ p.1.ident) × Member p.1 routes) m
    distinct : Distinct (order_of a) (values m)

  get-Member :
      (k : ℕ) (m : Dict ℕ Route) {r : Route}
      → All (λ (p : ℕ × Route). (p.0 ≡ p.1.ident) × Member p.1 routes) m
      → get k m ≡ some r
      → Member r (values m) × (r.ident ≡ k) × Member r routes
  unfolding get values
  get-Member k [] h e = absurd (cc e)
  get-Member k ((j, x) ∷ m) h e = elim (Bool-cases (j == k)) [
    | inl t ↦
        let same : x ≡ _ = ground arith in
        (inl (sym same), rw (← same) (sym h.0.0 ∙ (nat_beq_iff j k).0 t), rw (← same) h.0.1)
    | inr f ↦ let (p, q, s) = get-Member k m h.1 (rw f at e) in (inr p, q, s)
  ]

  values-Member :
      (r : Route) (m : Dict ℕ Route)
      → All (λ (p : ℕ × Route). (p.0 ≡ p.1.ident) × Member p.1 routes) m
      → Member r (values m)
      → Member r routes × (¬ (get r.ident m ≡ none))
  unfolding get values
  values-Member r [] h v = absurd v
  values-Member r ((j, x) ∷ m) h (inl e) = (
    rw e h.0.1,
    λ n.
        let t : (j == r.ident) ≡ true =
          (nat_beq_iff j r.ident).1 (h.0.0 ∙ ap (λ s. s.ident) (sym e)) in
        cc (rw t at n),
  )
  values-Member r ((j, x) ∷ m) h (inr v) =
      let (p, q) = values-Member r m h.1 v in
      (p, λ n. elim (Bool-cases (j == r.ident)) [ inl t ↦ cc (rw t at n) | inr f ↦ q (rw f at n) ])

  add_one-IsTable :
      (r : Route) (m : Dict ℕ Route) → Member r routes → IsTable m → IsTable (add_one r m)
  add_one-IsTable r m k h = elim (Option-cases (get r.ident m)) [
    | inr (x, e) ↦ rw (has-get_held r.ident x m e) h
    | inl e ↦
        rw (has-get r.ident m e, put-append r.ident r m e)
          (record {
            keyed = All-append _ m ((r.ident, r) ∷ []) h.keyed ((refl, k), tt);
            distinct = rw (values-append m r.ident r) (
                Distinct-append (order_of a) (values m) r h.distinct (
                  All-of_Member _ (values m) (λ v i same.
                    let (p, q) = values-Member v m h.keyed i in
                    let eq = key_injective (order_of a) routes v r rising p k same in
                    q (ap (λ s. get s.ident m) eq ∙ e))));
          })
  ]

  Member-add_one :
      (x r : Route) (m : Dict ℕ Route)
      → Member r routes
      → IsTable m
      → Member x (values (add_one r m)) ↔ (Member x (values m) ⊎ (x ≡ r))
  Member-add_one x r m k h = elim (Option-cases (get r.ident m)) [
    | inr (y, e) ↦
        let (p, q, s) = get-Member r.ident m h.keyed e in
        let same = ident_injective y r s k q in
        rw (has-get_held r.ident y m e)
          ((λ i. inl i, λ s. elim s [ inl i ↦ i | inr f ↦ rw (f ∙ sym same) p ]))
    | inl e ↦
        let both = Member-append x (values m) (r ∷ []) in
        rw (has-get r.ident m e, put-append r.ident r m e, values-append m r.ident r)
          ((
            λ i. elim (both.0 i) [
              | inl j ↦ inl j
              | inr j ↦ elim j [ inl f ↦ inr f | inr n ↦ absurd n ]
            ],
            λ s. both.1 (elim s [ inl j ↦ inl j | inr f ↦ inr (inl f) ]),
          ))
  ]

  -- What a loop adds: from here on, `Adds m n P` is that the table n holds m and the routes with P.
  record Adds (m n : Dict ℕ Route) (P : Route → Type 0) : Type 0 where
    table : IsTable n
    members : (x : Route) → Member x (values n) ↔ (Member x (values m) ⊎ P x)

  add_routes-Adds :
      (l : List Route) (m : Dict ℕ Route)
      → All (λ r. Member r routes) l
      → IsTable m
      → Adds m (add_routes l m) (λ x. Member x l)
  unfolding add_routes
  add_routes-Adds [] m k h = record {
    table = h;
    members = λ x. (λ i. inl i, λ s. elim s [ inl i ↦ i | inr n ↦ absurd n ]);
  }
  add_routes-Adds (r ∷ l) m k h =
      let ih = add_routes-Adds l (add_one r m) k.1 (add_one-IsTable r m k.0 h) in
      record {
        table = ih.table;
        members = λ x.
            let one = Member-add_one x r m k.0 h in
            let all = ih.members x in
            (
              λ i. elim (all.0 i) [
                | inl j ↦ elim (one.0 j) [ inl p ↦ inl p | inr e ↦ inr (inl e) ]
                | inr j ↦ inr (inr j)
              ],
              λ s. all.1 (elim s [
                | inl p ↦ inl (one.1 (inl p))
                | inr q ↦ elim q [ inl e ↦ inl (one.1 (inr e)) | inr j ↦ inr j ]
              ]),
            );
      }

  -- In one of the buckets.
  abbrev pub InBuckets : List Text → Dict Text (List Route) → Route → Type 0
  InBuckets keys b x = (k : Text) × Member k keys × Member x (bucket k b)

  Adds-trans :
      (m n o : Dict ℕ Route) (P Q R : Route → Type 0)
      → Adds m n P
      → Adds n o Q
      → ((x : Route) → (P x ⊎ Q x) ↔ R x)
      → Adds m o R
  Adds-trans m n o P Q R f g join = record {
    table = g.table;
    members = λ x.
        let first = f.members x in
        let second = g.members x in
        let both = join x in
        (
          λ i. elim (second.0 i) [
            | inl j ↦ elim (first.0 j) [ inl p ↦ inl p | inr q ↦ inr (both.0 (inl q)) ]
            | inr q ↦ inr (both.0 (inr q))
          ],
          λ s. second.1 (elim s [
            | inl p ↦ inl (first.1 (inl p))
            | inr r ↦ elim (both.1 r) [ inl p ↦ inl (first.1 (inr p)) | inr q ↦ inr q ]
          ]),
        );
  }

  add_buckets-Adds :
      (keys : List Text) (b : Dict Text (List Route)) (m : Dict ℕ Route)
      → ((k : Text) → All (λ r. Member r routes) (bucket k b))
      → IsTable m
      → Adds m (add_buckets keys b m) (InBuckets keys b)
  unfolding add_buckets
  add_buckets-Adds [] b m known h = record {
    table = h;
    members = λ x. (λ i. inl i, λ s. elim s [ inl i ↦ i | inr (k, n, i) ↦ absurd n ]);
  }
  add_buckets-Adds (k ∷ keys) b m known h =
      let here = add_routes-Adds (bucket k b) m (known k) h in
      let ih = add_buckets-Adds keys b (add_routes (bucket k b) m) known here.table in
      Adds-trans m _ _ (λ x. Member x (bucket k b)) (InBuckets keys b) (InBuckets (k ∷ keys) b) here
        ih
        (λ x. (
          λ s. elim s [ inl i ↦ (k, inl refl, i) | inr (j, n, i) ↦ (j, inr n, i) ],
          λ (j, n, i). elim n [ inl e ↦ inl (rw (← e) i) | inr n' ↦ inr (j, n', i) ],
        ))

  -- In one of the three indexes, under a scope.
  abbrev pub InScope : List Text → List Text → Option Text → Route → Type 0
  InScope candidates segments none x = ⊥
  InScope candidates segments (some s) x =
      InBuckets candidates (bucket s a.route_static_index) x
      ⊎ InBuckets segments (bucket s a.route_dynamic_prefix_index) x
      ⊎ Member x (bucket s a.route_dynamic_fallback_index)

  -- What the indexes hold are routes of the app.
  pub record AreKnown : Type 0 where
    pub statics :
        (s k : Text) → All (λ r. Member r routes) (bucket k (bucket s a.route_static_index))
    pub prefixes :
        (s k : Text) → All (λ r. Member r routes) (bucket k (bucket s a.route_dynamic_prefix_index))
    pub fallbacks :
        (s : Text) → All (λ r. Member r routes) (bucket s a.route_dynamic_fallback_index)

  add_scope-Adds :
      (candidates segments : List Text) (scope : Option Text) (m : Dict ℕ Route)
      → AreKnown
      → IsTable m
      → Adds m (add_scope a candidates segments scope m) (InScope candidates segments scope)
  unfolding add_scope
  add_scope-Adds candidates segments none m known h = record {
    table = h;
    members = λ x. (λ i. inl i, λ s. elim s [ inl i ↦ i | inr n ↦ absurd n ]);
  }
  add_scope-Adds candidates segments (some s) m known h =
      let st = add_buckets-Adds candidates (bucket s a.route_static_index) m (known.statics s) h in
      let pr =
        add_buckets-Adds segments (bucket s a.route_dynamic_prefix_index) _ (known.prefixes s)
          st.table in
      let fb =
        add_routes-Adds (bucket s a.route_dynamic_fallback_index) _ (known.fallbacks s) pr.table in
      Adds-trans m _ _ _ _ _ st (Adds-trans _ _ _ _ _ _ pr fb (λ x. (λ z. z, λ z. z)))
        (λ x. (λ z. z, λ z. z))

  abbrev pub InScopes : List Text → List Text → List (Option Text) → Route → Type 0
  InScopes candidates segments [] x = ⊥
  InScopes candidates segments (scope ∷ l) x =
      InScope candidates segments scope x ⊎ InScopes candidates segments l x

  add_scopes-Adds :
      (candidates segments : List Text) (scopes : List (Option Text)) (m : Dict ℕ Route)
      → AreKnown
      → IsTable m
      → Adds m (add_scopes a candidates segments scopes m) (InScopes candidates segments scopes)
  unfolding add_scopes
  add_scopes-Adds candidates segments [] m known h = record {
    table = h;
    members = λ x. (λ i. inl i, λ s. elim s [ inl i ↦ i | inr n ↦ absurd n ]);
  }
  add_scopes-Adds candidates segments (scope ∷ l) m known h =
      let here = add_scope-Adds candidates segments scope m known h in
      let rest = add_scopes-Adds candidates segments l _ known here.table in
      Adds-trans m _ _ _ _ _ here rest (λ x. (λ z. z, λ z. z))

  -- The candidates: routes with rising orders, those that the scopes' indexes give.
  pub collect_lem :
      (request_route : Option Text) (candidates : List Text)
      → AreKnown
      → Increasing (order_of a) (collect_candidate_routes a request_route candidates)
        × ((x : Route)
            → Member x (collect_candidate_routes a request_route candidates)
              ↔ InScopes candidates (first_segments candidates) (route_scopes request_route) x)
  unfolding collect_candidate_routes values
  collect_lem request_route candidates known =
      let all =
        add_scopes-Adds candidates (first_segments candidates) (route_scopes request_route) [] known
          (record { keyed = tt; distinct = tt }) in
      (
        sorted-Increasing (order_of a) _ all.table.distinct,
        λ x.
            let s = Member-sorted (order_of a) x _ in
            let t = all.members x in
            (λ i. elim (t.0 (s.0 i)) [ inl n ↦ absurd n | inr p ↦ p ], λ p. s.1 (t.1 (inr p))),
      )
