-- ===== src/Kdc/Inactive/Runs.antt =====
-- Sequences of operations on the inactive sessions, with the limit of the endpoint's configuration.
use gnserver.Base.{
  ◌≤◌, List, [], ◌∷◌, arith, length, length-append, Text, nat_eq, list_eq, pair_eq, Option-cases,
  inl, inr,
}
use gnserver.Base.Dict.{get, remove, length-remove, length-remove_held}
use gnserver.Base.Int.{ℤ}
use gnserver.Kdc.Types.{KeyId, Item, domain, keyid}
use gnserver.Kdc.Inactive.{
  Session, Inactive, empty, session_limit, remember_inactive_transport_session,
  get_inactive_transport_session_by_domain, get_inactive_transport_session_by_keyid,
  delete_inactive_transport_session, clear_inactive_transport_sessions,
}
use gnserver.Kdc.Mirror.{IsMirror-empty}
use gnserver.Kdc.Inactive.Order.{remember_lem}
use gnserver.Kdc.Inactive.Consistent.{
  IsConsistent, IsUsable, own, key, remember-IsConsistent, by_domain-IsConsistent,
  by_keyid-IsConsistent, delete-IsConsistent, by_keyid-by_domain, refused-cases,
}

pub data Call : Type 0 where
  remember : Session → Call
  by_domain : Text → Call
  by_keyid : KeyId → Call
  delete : Item → Call
  clear : Call

unfoldable pub step : ℤ → Inactive → Call → Inactive
step max_sessions i (remember s) = remember_inactive_transport_session s max_sessions i
step max_sessions i (by_domain d) = (get_inactive_transport_session_by_domain d i).0
step max_sessions i (by_keyid k) = (get_inactive_transport_session_by_keyid k i).0
step max_sessions i (delete x) = delete_inactive_transport_session x i
step max_sessions i clear = clear_inactive_transport_sessions i

unfoldable pub run : ℤ → Inactive → List Call → Inactive
run max_sessions i [] = i
run max_sessions i (c ∷ cs) = run max_sessions (step max_sessions i c) cs

step-IsConsistent :
    (max_sessions : ℤ) (i : Inactive) (c : Call)
    → IsConsistent i
    → IsConsistent (step max_sessions i c)
unfolding step clear_inactive_transport_sessions
step-IsConsistent m i (remember s) h = remember-IsConsistent s m i h
step-IsConsistent m i (by_domain d) h = by_domain-IsConsistent d i h
step-IsConsistent m i (by_keyid k) h = by_keyid-IsConsistent k i h
step-IsConsistent m i (delete x) h = delete-IsConsistent x i h
step-IsConsistent m i clear h = IsMirror-empty {D = Text} {K = KeyId} {S = Session} own key IsUsable

abbrev Fits : ℤ → Inactive → Type 0
Fits max_sessions i = length i.sessions ≤ session_limit max_sessions

by_domain-Fits :
    (m : ℤ) (d : Text) (i : Inactive)
    → Fits m i
    → Fits m (get_inactive_transport_session_by_domain d i).0
unfolding get_inactive_transport_session_by_domain
by_domain-Fits m d i h = elim (Option-cases (get d i.sessions)) [
  | inl gone ↦ rw (gone, get_inactive_transport_session_by_domain) h
  | inr (s, at) ↦
      rw (at, get_inactive_transport_session_by_domain)
        (omega (
          arith,
          length-append (remove d i.sessions) ((d, s) ∷ []),
          length-remove_held d s i.sessions at,
        ))
]

by_keyid-Fits :
    (m : ℤ) (k : KeyId) (i : Inactive)
    → IsConsistent i
    → Fits m i
    → Fits m (get_inactive_transport_session_by_keyid k i).0
unfolding get_inactive_transport_session_by_keyid
by_keyid-Fits m k i c h = elim (Option-cases (get k i.domains)) [
  | inl gone ↦ rw (gone, get_inactive_transport_session_by_keyid) h
  | inr (d, at) ↦ rw (by_keyid-by_domain k d i c at) (by_domain-Fits m d i h)
]

delete-Fits :
    (m : ℤ) (x : Item) (i : Inactive) → Fits m i → Fits m (delete_inactive_transport_session x i)
unfolding delete_inactive_transport_session
delete-Fits m (domain d) i h = ground (arith, length-remove d i.sessions)
delete-Fits m (keyid k) i h = elim (Option-cases (get k i.domains)) [
  | inl gone ↦ rw (gone, delete_inactive_transport_session) h
  | inr (d, at) ↦
      rw (at, delete_inactive_transport_session) (omega (arith, length-remove d i.sessions))
]

remember-Fits :
    (m : ℤ) (s : Session) (i : Inactive)
    → IsConsistent i
    → Fits m i
    → Fits m (remember_inactive_transport_session s m i)
unfolding remember_inactive_transport_session
remember-Fits m s i c h = elim (refused-cases s) [
  | inl r ↦ rw (r, remember_inactive_transport_session) h
  | inr (r, usable) ↦ (remember_lem s m i usable c).1
]

step-Fits : (m : ℤ) (i : Inactive) (c : Call) → IsConsistent i → Fits m i → Fits m (step m i c)
unfolding step clear_inactive_transport_sessions
step-Fits m i (remember s) k h = remember-Fits m s i k h
step-Fits m i (by_domain d) k h = by_domain-Fits m d i h
step-Fits m i (by_keyid x) k h = by_keyid-Fits m x i k h
step-Fits m i (delete x) k h = delete-Fits m x i h
step-Fits m i clear k h = omega arith

run-Fits :
    (m : ℤ) (i : Inactive) (cs : List Call)
    → IsConsistent i
    → Fits m i
    → IsConsistent (run m i cs) × Fits m (run m i cs)
unfolding run
run-Fits m i [] k h = (k, h)
run-Fits m i (c ∷ cs) k h =
    run-Fits m (step m i c) cs (step-IsConsistent m i c k) (step-Fits m i c k h)

-- After any sequence of operations on empty tables the two tables mirror one another, every session
-- can be resumed, and there are never more sessions than the limit.
pub run_invariant :
    (max_sessions : ℤ) (cs : List Call)
    → IsConsistent (run max_sessions empty cs)
      × (length (run max_sessions empty cs).sessions ≤ session_limit max_sessions)
run_invariant m cs =
    run-Fits m empty cs (IsMirror-empty {D = Text} {K = KeyId} {S = Session} own key IsUsable)
      (omega arith)
