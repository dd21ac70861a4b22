-- ===== src/Kdc/Inactive/Order.antt =====
-- The order of the inactive sessions: a new one is the last, and the oldest go first.
use gnserver.Base.{
  sym, ap, Bool, true, not, ◌&&◌, ℕ, zero, suc, ◌-◌, ◌≤◌, ◌≡◌, refl, ◌∙◌, false, none, some, [],
  ◌∷◌, ◌++◌, arith, ltb, length, length-append, length-drop, drop, Bool-cases, Option-cases,
  list_beq_iff, pair_beq_iff, inl, inr, Text, ◌==◌, nat_eq, list_eq, pair_eq,
}
use gnserver.Base.Dict.{Dict, IsUnique, remove, remove_absent, get, put-append, get-put_self}
use gnserver.Base.Sorted.{filter}
use gnserver.Base.Int.{ℤ}
use gnserver.Kdc.Types.{KeyId}
use gnserver.Kdc.Inactive.{
  Session, Inactive, pop_existing, pop_previous, insert, expire, evict, placed, session_limit,
  remember_inactive_transport_session, get_inactive_transport_session_by_domain,
  get_inactive_transport_session_by_keyid,
}
use gnserver.Kdc.Inactive.Consistent.{
  IsUsable, IsConsistent, pop_existing-IsConsistent, pop_previous-IsConsistent, remember-evict,
  remember-IsConsistent, by_keyid-by_domain,
}

evict-drop :
    (limit : ℕ) (sessions : Dict Text Session) (domains : Dict KeyId Text)
    → (evict limit sessions domains).sessions ≡ drop (length sessions - limit) sessions
unfolding evict
evict-drop limit [] domains = ground arith
evict-drop limit ((d, s) ∷ rest) domains = elim (Bool-cases (ltb limit (suc (length rest)))) [
  | inl over ↦
      let n : suc (length rest) - limit ≡ suc (length rest - limit) = ground arith in
      rw (over, n) (evict-drop limit rest (expire d s domains))
  | inr fits ↦ let n : suc (length rest) - limit ≡ zero = ground arith in rw (fits, n)
]

-- The sessions that stay when `s` is stored: those of other domains and other keys, in their order.
abbrev pub is_other : Session → Text × Session → Bool
is_other s (d, t) = not (d == s.domain) && not (t.keyid == s.keyid)

abbrev pub others : Session → Inactive → Dict Text Session
others s i = filter (is_other s) i.sessions

-- The table that the new session is put into.
cleared : Session → Inactive → Dict Text Session
cleared s i = (pop_previous s.domain s.keyid (pop_existing s.domain i)).sessions

-- What stays where one key is removed, of entries that a test tells from it.
remove-filter :
    (p : Text) (test : Text × Session → Bool) (m : Dict Text Session)
    → IsUnique m
    → ((d : Text) (t : Session) → get d m ≡ some t → test (d, t) ≡ not (d == p))
    → remove p m ≡ filter test m
unfolding get remove filter
remove-filter p test [] u h = refl
remove-filter p test ((d, t) ∷ m) u h =
    let here : test (d, t) ≡ not (d == p) = h d t (ground (arith, list_beq_iff d d)) in
    let ih = remove-filter p test m u.1 (λ j s at. h j s (elim (Bool-cases (d == j)) [
      | inl same ↦ absurd (let e = (list_beq_iff d j).0 same in cc (u.0, rw (sym e) at at))
      | inr other ↦ rw other at
    ])) in
    ground arith

sessions-pop_existing :
    (d : Text) (i : Inactive)
    → IsUnique i.sessions
    → (pop_existing d i).sessions ≡ filter (λ x. not (x.0 == d)) i.sessions
unfolding pop_existing
sessions-pop_existing d i u =
    let all = remove-filter d (λ x. not (x.0 == d)) i.sessions u (λ j s at. refl) in
    elim (Option-cases (get d i.sessions)) [
      | inl gone ↦ rw (gone, pop_existing) (sym (remove_absent d i.sessions gone) ∙ all)
      | inr (s, at) ↦ rw (at, pop_existing) all
    ]

filter-all :
    (test : Text × Session → Bool) (m : Dict Text Session)
    → IsUnique m
    → ((d : Text) (t : Session) → get d m ≡ some t → test (d, t) ≡ true)
    → filter test m ≡ m
unfolding get filter
filter-all test [] u h = refl
filter-all test ((d, t) ∷ m) u h =
    let here : test (d, t) ≡ true = h d t (ground (arith, list_beq_iff d d)) in
    let ih = filter-all test m u.1 (λ j s at. h j s (elim (Bool-cases (d == j)) [
      | inl same ↦ absurd (let e = (list_beq_iff d j).0 same in cc (u.0, rw (sym e) at at))
      | inr other ↦ rw other at
    ])) in
    ground arith

-- On consistent tables the session that holds a key is that of the key's domain.
holds_key :
    (i : Inactive) (k : KeyId) (p d : Text) (t : Session)
    → IsConsistent i
    → get k i.domains ≡ some p
    → get d i.sessions ≡ some t
    → not (t.keyid == k) ≡ not (d == p)
holds_key i k p d t c held at =
    let (s, stored, same) = c.session_of_key k p held in
    let back = c.key_of_session d t at in
    elim (Bool-cases (t.keyid == k)) [
      | inl same_key ↦
          let e = (pair_beq_iff t.keyid k).0 same_key in
          let f : get k i.domains ≡ some d = rw e at back in ground (arith, list_beq_iff d p)
      | inr new_key ↦ elim (Bool-cases (d == p)) [
        | inl same_domain ↦
            let e = (list_beq_iff d p).0 same_domain in
            let f : get p i.sessions ≡ some t = rw e at at in
            absurd (ground (arith, pair_beq_iff t.keyid k))
        | inr different ↦ rw (new_key, different) refl
      ]
    ]

sessions-pop_previous :
    (x : Text) (k : KeyId) (i : Inactive)
    → IsConsistent i
    → get x i.sessions ≡ none
    → (pop_previous x k i).sessions ≡ filter (λ e. not (e.1.keyid == k)) i.sessions
unfolding pop_previous
sessions-pop_previous x k i c free =
    let test : Text × Session → Bool = λ e. not (e.1.keyid == k) in
    elim (Option-cases (get k i.domains)) [
      | inl gone ↦
          rw (gone, pop_previous)
            (sym (
              filter-all test i.sessions c.unique
                (λ d t at. ground (arith, pair_beq_iff t.keyid k, c.key_of_session d t at))))
      | inr (p, held) ↦
          let (s, stored, same) = c.session_of_key k p held in
          let other : (p == x) ≡ false = ground (arith, list_beq_iff p x) in
          rw (held, pop_previous, other)
            (remove-filter p test i.sessions c.unique (λ d t at. holds_key i k p d t c held at))
    ]

filter-filter :
    (s : Session) (m : Dict Text Session)
    → filter (λ e. not (e.1.keyid == s.keyid)) (filter (λ x. not (x.0 == s.domain)) m)
      ≡ filter (is_other s) m
unfolding filter
filter-filter s [] = refl
filter-filter s (e ∷ m) = let ih = filter-filter s m in ground arith

cleared-others : (s : Session) (i : Inactive) → IsConsistent i → cleared s i ≡ others s i
unfolding cleared
cleared-others s i c =
    let (c', free) = pop_existing-IsConsistent s.domain i c in
    sessions-pop_previous s.domain s.keyid (pop_existing s.domain i) c' free
    ∙ ap (filter (λ e. not (e.1.keyid == s.keyid))) (sessions-pop_existing s.domain i c.unique)
    ∙ filter-filter s i.sessions

placed-append :
    (s : Session) (i : Inactive)
    → IsConsistent i
    → (placed s i).sessions ≡ others s i ++ (s.domain, s) ∷ []
unfolding insert cleared
placed-append s i c =
    let (c', free) = pop_existing-IsConsistent s.domain i c in
    let (_, free', _) =
      pop_previous-IsConsistent s.domain s.keyid (pop_existing s.domain i) c' free in
    put-append s.domain s (cleared s i) free'
    ∙ ap (λ m. m ++ (s.domain, s) ∷ []) (cleared-others s i c)

-- The last entry of a dictionary is found, whatever is dropped before it.
get-drop_last :
    (n : ℕ) (m : Dict Text Session) (d : Text) (s : Session)
    → n ≤ length m
    → get d (m ++ (d, s) ∷ []) ≡ some s
    → (get d m ≡ none)
    → get d (drop n (m ++ (d, s) ∷ [])) ≡ some s
unfolding get
get-drop_last zero m d s h e g = e
get-drop_last (suc n) [] d s h e g = absurd (omega arith)
get-drop_last (suc n) ((d', t) ∷ m) d s h e g =
    get-drop_last n m d s (omega arith) (ground arith) (ground arith)

sessions-remember :
    (s : Session) (max_sessions : ℤ) (i : Inactive)
    → IsUsable s
    → IsConsistent i
    → (remember_inactive_transport_session s max_sessions i).sessions
      ≡ drop
          (suc (length (others s i)) - session_limit max_sessions)
          (others s i ++ (s.domain, s) ∷ [])
sessions-remember s max_sessions i u c =
    let limit = session_limit max_sessions in
    let size : length (others s i ++ (s.domain, s) ∷ []) ≡ suc (length (others s i)) =
      omega (arith, length-append (others s i) ((s.domain, s) ∷ [])) in
    rw (remember-evict s max_sessions i u) (
      evict-drop limit (placed s i).sessions (placed s i).domains
      ∙ rw (placed-append s i c, size) refl)

get-remember :
    (s : Session) (max_sessions : ℤ) (i : Inactive)
    → IsUsable s
    → IsConsistent i
    → get s.domain (remember_inactive_transport_session s max_sessions i).sessions ≡ some s
unfolding insert cleared
get-remember s max_sessions i u c =
    let (c', gone) = pop_existing-IsConsistent s.domain i c in
    let (_, free', _) =
      pop_previous-IsConsistent s.domain s.keyid (pop_existing s.domain i) c' gone in
    let free : get s.domain (others s i) ≡ none = rw (cleared-others s i c) at free' in
    let last : get s.domain (others s i ++ (s.domain, s) ∷ []) ≡ some s =
      rw (← put-append s.domain s (others s i) free) (get-put_self s.domain s (others s i)) in
    rw (sessions-remember s max_sessions i u c) (
      get-drop_last (suc (length (others s i)) - session_limit max_sessions) (others s i) s.domain s
        (omega arith) last free)

pub found_by_domain :
    (d : Text) (s : Session) (j : Inactive)
    → get d j.sessions ≡ some s
    → (get_inactive_transport_session_by_domain d j).1 ≡ some s
unfolding get_inactive_transport_session_by_domain
found_by_domain d s j at = rw (at, get_inactive_transport_session_by_domain)

-- On consistent tables `rememberInactiveTransportSession` keeps, of the sessions of other domains
-- and other keys and then the new one, in this order, the last ones that fit the limit; and the new
-- session is found by its domain and by its key.
pub remember_lem :
    (s : Session) (max_sessions : ℤ) (i : Inactive)
    → IsUsable s
    → IsConsistent i
    → let j = remember_inactive_transport_session s max_sessions i in
      (j.sessions
        ≡ drop
            (suc (length (others s i)) - session_limit max_sessions)
            (others s i ++ (s.domain, s) ∷ []))
      × (length j.sessions ≤ session_limit max_sessions)
      × ((get_inactive_transport_session_by_domain s.domain j).1 ≡ some s)
      × ((get_inactive_transport_session_by_keyid s.keyid j).1 ≡ some s)
remember_lem s max_sessions i u c =
    let j = remember_inactive_transport_session s max_sessions i in
    let shape = sessions-remember s max_sessions i u c in
    let at = get-remember s max_sessions i u c in
    let cj = remember-IsConsistent s max_sessions i c in
    let found : (get_inactive_transport_session_by_domain s.domain j).1 ≡ some s =
      found_by_domain s.domain s j at in
    (
      shape,
      rw shape (
          omega (
            arith,
            length-drop (suc (length (others s i)) - session_limit max_sessions)
                (others s i ++ (s.domain, s) ∷ []),
            length-append (others s i) ((s.domain, s) ∷ []),
          )),
      found,
      rw (by_keyid-by_domain s.keyid s.domain j cj (cj.key_of_session s.domain s at)) found,
    )
