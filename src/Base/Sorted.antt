-- ===== src/Base/Sorted.antt =====
-- Python's `sorted` with a key, and the lists that it makes.
use gnserver.Base.{
  ℕ, ◌<◌, ◌≡◌, refl, sym, ap, ◌↔◌, ◌⊎◌, inl, inr, Bool, true, List, [], ◌∷◌, ◌++◌, All, ltb, ltb→lt,
  if◌then◌else◌, Bool-cases, arith,
}

module _ {A : Type 0} where
  -- A comprehension `[x for x in l if test(x)]`.
  unfoldable pub filter : (A → Bool) → List A → List A
  filter test [] = []
  filter test (x ∷ l) = let rest = filter test l in if test x then x ∷ rest else rest

  abbrev pub Member : A → List A → Type 0
  Member a [] = ⊥
  Member a (x ∷ l) = (a ≡ x) ⊎ Member a l

  pub filter-append :
      (test : A → Bool) (xs ys : List A) → filter test (xs ++ ys) ≡ filter test xs ++ filter test ys
  unfolding filter
  filter-append test [] ys = refl
  filter-append test (x ∷ xs) ys = ground (arith, filter-append test xs ys)

  pub Member-append : (a : A) (xs ys : List A) → Member a (xs ++ ys) ↔ (Member a xs ⊎ Member a ys)
  Member-append a [] ys = (λ m. inr m, λ s. elim s [ inl m ↦ absurd m | inr m ↦ m ])
  Member-append a (x ∷ xs) ys =
      let ih = Member-append a xs ys in
      (
        λ s. elim s [
          | inl e ↦ inl (inl e)
          | inr m ↦ elim (ih.0 m) [ inl p ↦ inl (inr p) | inr q ↦ inr q ]
        ],
        λ s. elim s [
          | inl m ↦ elim m [ inl e ↦ inl e | inr p ↦ inr (ih.1 (inl p)) ]
          | inr q ↦ inr (ih.1 (inr q))
        ],
      )

  pub Member-filter :
      (test : A → Bool) (a : A) (l : List A)
      → Member a (filter test l) ↔ (Member a l × (test a ≡ true))
  unfolding filter
  Member-filter test a [] = (λ m. absurd m, λ p. p.0)
  Member-filter test a (x ∷ l) =
      let ih = Member-filter test a l in
      elim (Bool-cases (test x)) [
        | inl t ↦ rw t (
            (
              λ s. elim s [ inl e ↦ (inl e, rw e t) | inr m ↦ let p = ih.0 m in (inr p.0, p.1) ],
              λ (s, h). elim s [ inl e ↦ inl e | inr m ↦ inr (ih.1 (m, h)) ],
            ))
        | inr f ↦ rw f (
            (
              λ m. let p = ih.0 m in (inr p.0, p.1),
              λ (s, h). elim s [ inl e ↦ absurd (cc (f, h, e)) | inr m ↦ ih.1 (m, h) ],
            ))
      ]

  pub All-Member {κ} : (P : A → Type κ) (a : A) (l : List A) → All P l → Member a l → P a
  All-Member P a [] h m = absurd m
  All-Member P a (x ∷ l) h (inl e) = rw e h.0
  All-Member P a (x ∷ l) h (inr m) = All-Member P a l h.1 m

  pub All-of_Member {κ} : (P : A → Type κ) (l : List A) → ((a : A) → Member a l → P a) → All P l
  All-of_Member P [] h = tt
  All-of_Member P (x ∷ l) h = (h x (inl refl), All-of_Member P l (λ a m. h a (inr m)))

  module _ (key : A → ℕ) where
    -- The keys rise.
    abbrev pub Increasing : List A → Type 0
    Increasing [] = Unit
    Increasing (x ∷ l) = All (λ y. key x < key y) l × Increasing l

    -- No two places have the same key.
    abbrev pub Distinct : List A → Type 0
    Distinct [] = Unit
    Distinct (x ∷ l) = All (λ y. ¬ (key x ≡ key y)) l × Distinct l

    unfoldable pub insert_by : A → List A → List A
    insert_by x [] = x ∷ []
    insert_by x (y ∷ l) =
        let rest = insert_by x l in if ltb (key y) (key x) then y ∷ rest else x ∷ y ∷ l

    -- `sorted(l, key=key)`
    unfoldable pub sorted : List A → List A
    unfolding insert_by
    sorted [] = []
    sorted (x ∷ l) = insert_by x (sorted l)

    Member-insert_by : (a x : A) (l : List A) → Member a (insert_by x l) ↔ Member a (x ∷ l)
    unfolding insert_by
    Member-insert_by a x [] = (λ m. m, λ m. m)
    Member-insert_by a x (y ∷ l) =
        let ih = Member-insert_by a x l in
        elim (Bool-cases (ltb (key y) (key x))) [
          | inl t ↦ rw t (
              (
                λ s. elim s [
                  | inl e ↦ inr (inl e)
                  | inr m ↦ elim (ih.0 m) [ inl e ↦ inl e | inr p ↦ inr (inr p) ]
                ],
                λ s. elim s [
                  | inl e ↦ inr (ih.1 (inl e))
                  | inr m ↦ elim m [ inl e ↦ inl e | inr p ↦ inr (ih.1 (inr p)) ]
                ],
              ))
          | inr f ↦ rw f ((λ m. m, λ m. m))
        ]

    pub Member-sorted : (a : A) (l : List A) → Member a (sorted l) ↔ Member a l
    unfolding sorted
    Member-sorted a [] = (λ m. m, λ m. m)
    Member-sorted a (x ∷ l) =
        let first = Member-insert_by a x (sorted l) in
        let ih = Member-sorted a l in
        (
          λ m. elim (first.0 m) [ inl e ↦ inl e | inr p ↦ inr (ih.0 p) ],
          λ s. first.1 (elim s [ inl e ↦ inl e | inr p ↦ inr (ih.1 p) ]),
        )

    insert_by-Increasing :
        (x : A) (l : List A)
        → All (λ y. ¬ (key x ≡ key y)) l
        → Increasing l
        → Increasing (insert_by x l)
    unfolding insert_by
    insert_by-Increasing x [] d h = (tt, tt)
    insert_by-Increasing x (y ∷ l) d h = elim (Bool-cases (ltb (key y) (key x))) [
      | inl t ↦ rw t (
        All-of_Member _ (insert_by x l) (λ a m. elim ((Member-insert_by a x l).0 m) [
          | inl e ↦ rw e (ltb→lt _ _ t)
          | inr p ↦ All-Member (λ z. key y < key z) a l h.0 p
        ]),
        insert_by-Increasing x l d.1 h.1,
      )
      | inr f ↦
          let low : key x < key y = ground (arith, d.0) in
          rw f (
            (
              low,
              All-of_Member _ l
                  (λ a m. let up = All-Member (λ z. key y < key z) a l h.0 m in omega arith),
            ),
            h,
          )
    ]

    pub sorted-Increasing : (l : List A) → Distinct l → Increasing (sorted l)
    unfolding sorted
    sorted-Increasing [] d = tt
    sorted-Increasing (x ∷ l) d =
        insert_by-Increasing x (sorted l)
          (All-of_Member _ (sorted l)
            (λ a m. All-Member (λ y. ¬ (key x ≡ key y)) a l d.0 ((Member-sorted a l).0 m)))
          (sorted-Increasing l d.1)

    pub filter-Increasing :
        (test : A → Bool) (l : List A) → Increasing l → Increasing (filter test l)
    unfolding filter
    filter-Increasing test [] h = tt
    filter-Increasing test (x ∷ l) h =
        let ih = filter-Increasing test l h.1 in
        elim (Bool-cases (test x)) [
          | inl t ↦ rw t (
            All-of_Member _ (filter test l)
                (λ a m. All-Member (λ z. key x < key z) a l h.0 ((Member-filter test a l).0 m).0),
            ih,
          )
          | inr n ↦ rw n ih
        ]

    -- The members of the tails, where the heads are equal.
    tail-Member :
        (x : A) (xs ys : List A)
        → All (λ z. key x < key z) xs
        → ((a : A) → Member a (x ∷ xs) → Member a (x ∷ ys))
        → (a : A) → Member a xs
        → Member a ys
    tail-Member x xs ys h f a m =
        let up = All-Member (λ z. key x < key z) a xs h m in
        elim (f a (inr m)) [
          | inl e ↦ absurd (let k : key a ≡ key x = ap key e in omega arith)
          | inr p ↦ p
        ]

    heads_eq :
        (x y : A) (xs ys : List A)
        → All (λ z. key x < key z) xs
        → All (λ z. key y < key z) ys
        → Member x (y ∷ ys)
        → Member y (x ∷ xs)
        → x ≡ y
    heads_eq x y xs ys h k (inl e) n = e
    heads_eq x y xs ys h k (inr m) (inl e) = sym e
    heads_eq x y xs ys h k (inr m) (inr n) =
        let up = All-Member (λ z. key y < key z) x ys k m in
        let down = All-Member (λ z. key x < key z) y xs h n in absurd (omega arith)

    -- Two lists with rising keys and the same members are equal.
    pub Increasing-ext :
        (xs ys : List A)
        → Increasing xs
        → Increasing ys
        → ((a : A) → Member a xs → Member a ys)
        → ((a : A) → Member a ys → Member a xs)
        → xs ≡ ys
    Increasing-ext [] [] h k f g = refl
    Increasing-ext [] (y ∷ ys) h k f g = absurd (g y (inl refl))
    Increasing-ext (x ∷ xs) [] h k f g = absurd (f x (inl refl))
    Increasing-ext (x ∷ xs) (y ∷ ys) h k f g =
        let e = heads_eq x y xs ys h.0 k.0 (f x (inl refl)) (g y (inl refl)) in
        let f' = rw (← e) at f in
        let g' = rw (← e) at g in
        let k' = rw (← e) at k in
        rw (
          e,
          Increasing-ext xs ys h.1 k.1 (tail-Member x xs ys h.0 f') (tail-Member x ys xs k'.0 g'),
        )
