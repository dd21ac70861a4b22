-- ===== src/Kdc/Inactive/Consistent.antt =====
-- The two tables of inactive sessions mirror one another, whatever the program does with them.
use gnserver.Base.{
  ℕ, ◌≡◌, Bool, true, false, ◌||◌, not, ◌⊎◌, none, some, [], ◌∷◌, arith, ltb, length, nat_beq,
  Bool-cases, Option-cases, inl, inr, is_empty, Text, ◌==◌, nat_eq, list_eq, pair_eq, option_eq,
  ==_refl, list_beq_iff,
}
use mathlib.Core.Path.{subst}
use gnserver.Base.Dict.{Dict, get, remove, get-remove, get-remove_self}
use gnserver.Base.Int.{ℤ}
use gnserver.Kdc.Types.{KeyId, Item, domain, keyid}
use gnserver.Kdc.Mirror.{IsMirror, remove-IsMirror, put-IsMirror, move-IsMirror, tail-IsMirror}
use gnserver.Kdc.Inactive.{
  Session, Inactive, pop_existing, pop_previous, insert, expire, evict,
  remember_inactive_transport_session, get_inactive_transport_session_by_domain,
  get_inactive_transport_session_by_keyid, delete_inactive_transport_session, session_limit, placed,
}

abbrev pub own : Session → Text
own s = s.domain

abbrev pub key : Session → KeyId
key s = s.keyid

-- What can be resumed: a session of a named peer, encrypted, with a root of 64 bytes.
pub record IsUsable (s : Session) : Type 0 where
  pub named : is_empty s.domain ≡ false
  pub encrypted : nat_beq s.encryption_type 0 ≡ false
  pub root : length s.root64 ≡ 64

abbrev pub IsConsistent : Inactive → Type 0
IsConsistent i = IsMirror own key IsUsable i.sessions i.domains

pub pop_existing-IsConsistent :
    (d : Text) (i : Inactive)
    → IsConsistent i
    → IsConsistent (pop_existing d i) × (get d (pop_existing d i).sessions ≡ none)
unfolding pop_existing
pop_existing-IsConsistent d i c = elim (Option-cases (get d i.sessions)) [
  | inl gone ↦ rw (gone, pop_existing) (c, gone)
  | inr (s, at) ↦
      rw (at, pop_existing)
        (
          remove-IsMirror own key IsUsable i.sessions i.domains c d s at,
          get-remove_self d i.sessions,
        )
]

pub pop_previous-IsConsistent :
    (d : Text) (k : KeyId) (i : Inactive)
    → IsConsistent i
    → get d i.sessions ≡ none
    → IsConsistent (pop_previous d k i)
      × (get d (pop_previous d k i).sessions ≡ none)
      × (get k (pop_previous d k i).domains ≡ none)
unfolding pop_previous
pop_previous-IsConsistent d k i c free = elim (Option-cases (get k i.domains)) [
  | inl gone ↦ rw (gone, pop_previous) (c, free, gone)
  | inr (p, at) ↦
      let (s, stored, same) = c.session_of_key k p at in
      let other : (p == d) ≡ false = ground (arith, list_beq_iff p d) in
      let smaller : IsMirror own key IsUsable (remove p i.sessions) (remove k i.domains) =
        subst
          (λ (k' : KeyId). IsMirror own key IsUsable (remove p i.sessions) (remove k' i.domains))
          same (remove-IsMirror own key IsUsable i.sessions i.domains c p s stored) in
      rw (at, pop_previous, other)
        (smaller, ground (arith, get-remove p d i.sessions), get-remove_self k i.domains)
]

expire-remove :
    (d : Text) (s : Session) (domains : Dict KeyId Text)
    → get s.keyid domains ≡ some d
    → expire d s domains ≡ remove s.keyid domains
expire-remove d s domains h = rw (h, ==_refl d)

get-head : (d : Text) (s : Session) (rest : Dict Text Session) → get d ((d, s) ∷ rest) ≡ some s
unfolding get
get-head d s rest = rw (==_refl d)

evict-IsConsistent :
    (limit : ℕ) (sessions : Dict Text Session) (domains : Dict KeyId Text)
    → IsMirror own key IsUsable sessions domains
    → IsConsistent (evict limit sessions domains)
unfolding evict
evict-IsConsistent limit [] domains c = c
evict-IsConsistent limit ((d, s) ∷ rest) domains c =
    elim (Bool-cases (ltb limit (length ((d, s) ∷ rest)))) [
      | inl over ↦
          let gone = expire-remove d s domains (c.key_of_session d s (get-head d s rest)) in
          rw (over, gone)
            (evict-IsConsistent limit rest (remove s.keyid domains)
              (tail-IsMirror own key IsUsable d s rest domains c))
      | inr fits ↦ rw fits c
    ]

pub placed-IsConsistent :
    (s : Session) (i : Inactive) → IsUsable s → IsConsistent i → IsConsistent (placed s i)
unfolding insert
placed-IsConsistent s i usable c =
    let (c', free) = pop_existing-IsConsistent s.domain i c in
    let (c'', free', unused) =
      pop_previous-IsConsistent s.domain s.keyid (pop_existing s.domain i) c' free in
    put-IsMirror own key IsUsable _ _ c'' s usable free' unused

-- The test at the head of `rememberInactiveTransportSession`.
abbrev pub refused : Session → Bool
refused s = is_empty s.domain || (nat_beq s.encryption_type 0 || not (nat_beq (length s.root64) 64))

pub refused-cases : (s : Session) → (refused s ≡ true) ⊎ ((refused s ≡ false) × IsUsable s)
refused-cases s = elim (Bool-cases (refused s)) [
  | inl r ↦ inl r
  | inr r ↦ inr (r, record { named = ground arith; encrypted = ground arith; root = ground arith })
]

pub remember-evict :
    (s : Session) (max_sessions : ℤ) (i : Inactive)
    → IsUsable s
    → remember_inactive_transport_session s max_sessions i
      ≡ evict (session_limit max_sessions) (placed s i).sessions (placed s i).domains
unfolding remember_inactive_transport_session
remember-evict s max_sessions i u = rw (u.named, u.encrypted, u.root)

pub remember-IsConsistent :
    (s : Session) (max_sessions : ℤ) (i : Inactive)
    → IsConsistent i
    → IsConsistent (remember_inactive_transport_session s max_sessions i)
unfolding remember_inactive_transport_session
remember-IsConsistent s max_sessions i c = elim (refused-cases s) [
  | inl r ↦ rw (r, remember_inactive_transport_session) c
  | inr (r, usable) ↦
      rw (r, remember_inactive_transport_session)
        (evict-IsConsistent (session_limit max_sessions) (placed s i).sessions (placed s i).domains
          (placed-IsConsistent s i usable c))
]

pub by_domain-IsConsistent :
    (d : Text) (i : Inactive)
    → IsConsistent i
    → IsConsistent (get_inactive_transport_session_by_domain d i).0
unfolding get_inactive_transport_session_by_domain
by_domain-IsConsistent d i c = elim (Option-cases (get d i.sessions)) [
  | inl gone ↦ rw (gone, get_inactive_transport_session_by_domain) c
  | inr (s, at) ↦
      rw (at, get_inactive_transport_session_by_domain)
        (move-IsMirror own key IsUsable i.sessions i.domains c d s at)
]

-- The branch that repairs a key without a session is not taken on consistent tables.
pub by_keyid-by_domain :
    (k : KeyId) (d : Text) (i : Inactive)
    → IsConsistent i
    → get k i.domains ≡ some d
    → get_inactive_transport_session_by_keyid k i ≡ get_inactive_transport_session_by_domain d i
unfolding get_inactive_transport_session_by_keyid get_inactive_transport_session_by_domain
by_keyid-by_domain k d i c at =
    let (s, stored, same) = c.session_of_key k d at in
    rw (
      at, get_inactive_transport_session_by_keyid, stored, get_inactive_transport_session_by_domain,
    )

pub by_keyid-IsConsistent :
    (k : KeyId) (i : Inactive)
    → IsConsistent i
    → IsConsistent (get_inactive_transport_session_by_keyid k i).0
unfolding get_inactive_transport_session_by_keyid
by_keyid-IsConsistent k i c = elim (Option-cases (get k i.domains)) [
  | inl gone ↦ rw (gone, get_inactive_transport_session_by_keyid) c
  | inr (d, at) ↦ rw (by_keyid-by_domain k d i c at) (by_domain-IsConsistent d i c)
]

-- On consistent tables a session is deleted by its key as by its domain.
delete_by_keyid :
    (k : KeyId) (d : Text) (i : Inactive)
    → IsConsistent i
    → get k i.domains ≡ some d
    → delete_inactive_transport_session (keyid k) i ≡ delete_inactive_transport_session (domain d) i
unfolding delete_inactive_transport_session
delete_by_keyid k d i c at =
    let (s, stored, same) = c.session_of_key k d at in
    let gone = expire-remove d s i.domains (c.key_of_session d s stored) in
    rw (at, delete_inactive_transport_session, stored, gone, same)

delete_domain-IsConsistent :
    (d : Text) (i : Inactive)
    → IsConsistent i
    → IsConsistent (delete_inactive_transport_session (domain d) i)
unfolding delete_inactive_transport_session
delete_domain-IsConsistent d i c = elim (Option-cases (get d i.sessions)) [
  | inl gone ↦ rw (gone, delete_inactive_transport_session) c
  | inr (s, at) ↦
      let gone = expire-remove d s i.domains (c.key_of_session d s at) in
      rw (at, delete_inactive_transport_session, gone)
        (remove-IsMirror own key IsUsable i.sessions i.domains c d s at)
]

pub delete-IsConsistent :
    (x : Item) (i : Inactive)
    → IsConsistent i
    → IsConsistent (delete_inactive_transport_session x i)
unfolding delete_inactive_transport_session
delete-IsConsistent (domain d) i c = delete_domain-IsConsistent d i c
delete-IsConsistent (keyid k) i c = elim (Option-cases (get k i.domains)) [
  | inl gone ↦ rw (gone, delete_inactive_transport_session) c
  | inr (d, at) ↦ rw (delete_by_keyid k d i c at) (delete_domain-IsConsistent d i c)
]
