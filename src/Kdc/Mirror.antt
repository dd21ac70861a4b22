-- ===== src/Kdc/Mirror.antt =====
-- Two dictionaries that mirror one another: values under a name, and the names under a key that
-- each value has. What the program does to a pair of such tables, for any names and keys.
use gnserver.Base.{
  ◌≡◌, none, some, [], ◌∷◌, ◌++◌, arith, if◌then◌else◌, Bool-cases, inl, inr, Eq, ◌==◌,
}
use mathlib.Core.Path.{subst}
use gnserver.Base.Dict.{
  Dict, get, put, remove, get-put, get-remove, get-remove_self, IsUnique, put-IsUnique,
  remove-IsUnique, put-append, remove_head,
}

pub record IsMirror {ℓ κ μ} {D : Type ℓ} {K : Type κ} {S : Type μ} ⦃e : Eq D⦄ ⦃f : Eq K⦄
    (own : S → D) (key : S → K) (P : S → Type μ) (sessions : Dict D S) (domains : Dict K D)
    : Type (ℓ ⊔ κ ⊔ μ) where
  pub unique : IsUnique sessions
  pub own_domain : (d : D) (s : S) → get d sessions ≡ some s → own s ≡ d
  pub key_of_session : (d : D) (s : S) → get d sessions ≡ some s → get (key s) domains ≡ some d
  pub valid : (d : D) (s : S) → get d sessions ≡ some s → P s
  pub session_of_key :
      (k : K) (d : D) → get k domains ≡ some d → (s : S) × (get d sessions ≡ some s) × (key s ≡ k)

module _ {ℓ κ μ} {D : Type ℓ} {K : Type κ} {S : Type μ} ⦃e : Eq D⦄ ⦃f : Eq K⦄ (own : S → D)
    (key : S → K) (P : S → Type μ) where
  pub IsMirror-empty : IsMirror own key P [] []
  unfolding get
  IsMirror-empty = record {
    unique = tt;
    own_domain = λ d s h. absurd (cc);
    key_of_session = λ d s h. absurd (cc);
    valid = λ d s h. absurd (cc);
    session_of_key = λ k d h. absurd (cc);
  }

  module _ (sessions : Dict D S) (domains : Dict K D)
      (c : IsMirror own key P sessions domains) where
    -- A name and the key of its value go together.
    pub remove-IsMirror :
        (d : D) (s : S)
        → get d sessions ≡ some s
        → IsMirror own key P (remove d sessions) (remove (key s) domains)
    remove-IsMirror d s at = record {
      unique = remove-IsUnique d sessions c.unique;
      own_domain = λ d' t h. ground (arith, get-remove d d' sessions, c.own_domain d' t);
      valid = λ d' t h. c.valid d' t (ground (arith, get-remove d d' sessions));
      key_of_session = λ d' t h. ground (
        arith,
        get-remove d d' sessions,
        get-remove (key s) (key t) domains,
        e.beq_iff d d',
        f.beq_iff (key s) (key t),
        c.key_of_session d' t,
        c.key_of_session d s,
      );
      session_of_key = λ k d' h.
          let old : get k domains ≡ some d' = ground (arith, get-remove (key s) k domains) in
          let (t, at', same) = c.session_of_key k d' old in
          (
            t,
            ground (
              arith,
              get-remove d d' sessions,
              get-remove (key s) k domains,
              e.beq_iff d d',
              f.beq_iff (key s) k,
              c.key_of_session d s,
            ),
            same,
          );
    }

    pub put-IsMirror :
        (s : S)
        → P s
        → get (own s) sessions ≡ none
        → get (key s) domains ≡ none
        → IsMirror own key P (put (own s) s sessions) (put (key s) (own s) domains)
    put-IsMirror s p free unused = record {
      unique = put-IsUnique (own s) s sessions c.unique;
      own_domain = λ d t h.
          ground (arith, get-put (own s) d s sessions, e.beq_iff (own s) d, c.own_domain d t);
      valid = λ d t h. elim (Bool-cases (own s == d)) [
        | inl same ↦ let e : s ≡ t = ground (arith, get-put (own s) d s sessions) in subst P e p
        | inr other ↦ c.valid d t (ground (arith, get-put (own s) d s sessions))
      ];
      key_of_session = λ d t h. ground (
        arith,
        get-put (own s) d s sessions,
        get-put (key s) (key t) (own s) domains,
        e.beq_iff (own s) d,
        f.beq_iff (key s) (key t),
        c.key_of_session d t,
      );
      session_of_key = λ k d h. elim (Bool-cases (key s == k)) [
        | inl same ↦ (
          s,
          ground (
            arith,
            get-put (key s) k (own s) domains,
            get-put (own s) d s sessions,
            e.beq_iff (own s) d,
          ),
          (f.beq_iff (key s) k).0 same,
        )
        | inr other ↦
            let old : get k domains ≡ some d = ground (arith, get-put (key s) k (own s) domains) in
            let (t, at, same) = c.session_of_key k d old in
            (t, ground (arith, get-put (own s) d s sessions, e.beq_iff (own s) d), same)
      ];
    }

    -- `move_to_end` of a name that is there
    pub move-IsMirror :
        (d : D) (s : S)
        → get d sessions ≡ some s
        → IsMirror own key P (remove d sessions ++ (d, s) ∷ []) domains
    move-IsMirror d s at =
        rw (← put-append d s (remove d sessions) (get-remove_self d sessions)) (record {
          unique = put-IsUnique d s (remove d sessions) (remove-IsUnique d sessions c.unique);
          own_domain = λ d' t h. ground (arith, moved d', e.beq_iff d d', c.own_domain d' t);
          valid = λ d' t h. c.valid d' t (ground (arith, moved d', e.beq_iff d d'));
          key_of_session =
              λ d' t h. ground (arith, moved d', e.beq_iff d d', c.key_of_session d' t);
          session_of_key = λ k d' h.
              let (t, at', same) = c.session_of_key k d' h in
              (t, ground (arith, moved d', e.beq_iff d d'), same);
        })
      where
        moved :
            (d' : D)
            → get d' (put d s (remove d sessions)) ≡ (if d == d' then some s else get d' sessions)
        moved d' = ground (arith, get-put d d' s (remove d sessions), get-remove d d' sessions)

  -- The oldest value goes.
  pub tail-IsMirror :
      (d : D) (s : S) (rest : Dict D S) (domains : Dict K D)
      → IsMirror own key P ((d, s) ∷ rest) domains
      → IsMirror own key P rest (remove (key s) domains)
  unfolding get
  tail-IsMirror d s rest domains c =
      rw (remove_head d s rest c.unique.0) at
        (remove-IsMirror ((d, s) ∷ rest) domains c d s (ground (arith, e.beq_iff d d)))
