-- ===== src/Kdc/Inactive.antt =====
-- _kdc_object.py: the inactive transport sessions, the least recently used first, and the table
-- from key identifiers to the domains of the sessions.
pub mod Consistent
pub mod Order
pub mod Runs
use gnserver.Base.{
  ℕ, zero, max, Bool, true, false, ◌||◌, not, Option, none, some, List, [], ◌∷◌, ◌++◌, ltb, nat_beq,
  length, is_empty, if◌then◌else◌, Bytes, Text, ◌==◌, nat_eq, list_eq, pair_eq, option_eq,
}
use gnserver.Base.Dict.{Dict, get, put, remove}
use gnserver.Base.Int.{ℤ, pos_part}
use gnserver.Kdc.Types.{KeyId, Item, domain, keyid}

-- InactiveTransportSession
pub record Session : Type 0 where
  pub domain : Text
  pub keyid : KeyId
  pub encryption_type : ℕ
  pub root64 : Bytes

-- `_inactive_transport_sessions` and `_inactive_transport_sessions_keyid_domain`
pub record Inactive : Type 0 where
  pub sessions : Dict Text Session
  pub domains : Dict KeyId Text

abbrev pub empty : Inactive
empty = record { sessions = []; domains = [] }

-- The session of the domain goes, and the entry of its key with it.
unfoldable pub pop_existing : Text → Inactive → Inactive
pop_existing d i = elim (get d i.sessions) [
  | none ↦ i
  | some s ↦ record { sessions = remove d i.sessions; domains = remove s.keyid i.domains }
]

-- The entry of the key goes, and the session of another domain that held it.
unfoldable pub pop_previous : Text → KeyId → Inactive → Inactive
pop_previous d k i = elim (get k i.domains) [
  | none ↦ i
  | some p ↦ record {
    sessions = if p == d then i.sessions else remove p i.sessions;
    domains = remove k i.domains;
  }
]

unfoldable pub insert : Session → Inactive → Inactive
insert s i = record {
  sessions = put s.domain s i.sessions;
  domains = put s.keyid s.domain i.domains;
}

-- The table of keys after the session `s` of the domain `d` has expired.
abbrev pub expire : Text → Session → Dict KeyId Text → Dict KeyId Text
expire d s domains = if get s.keyid domains == some d then remove s.keyid domains else domains

-- The tables with the session in them, before the limit is enforced.
abbrev pub placed : Session → Inactive → Inactive
placed s i = insert s (pop_previous s.domain s.keyid (pop_existing s.domain i))

-- The `while` loop: it drops sessions from the front until the limit holds.
unfoldable pub evict : ℕ → Dict Text Session → Dict KeyId Text → Inactive
evict limit [] domains = record { sessions = []; domains = domains }
evict limit ((d, s) ∷ rest) domains =
    let next = evict limit rest (expire d s domains) in
    if ltb limit (length ((d, s) ∷ rest))
    then next
    else record { sessions = (d, s) ∷ rest; domains = domains }

-- `max(1, int(max_sessions or 1))`
abbrev pub session_limit : ℤ → ℕ
session_limit max_sessions = max 1 (pos_part max_sessions)

-- The parameters are those of a session, with `max_sessions` behind.
unfoldable pub remember_inactive_transport_session : Session → ℤ → Inactive → Inactive
remember_inactive_transport_session s max_sessions i =
    if is_empty s.domain || (nat_beq s.encryption_type 0 || not (nat_beq (length s.root64) 64))
    then i
    else evict (session_limit max_sessions) (placed s i).sessions (placed s i).domains

-- `move_to_end`, of a key that is there
unfoldable pub move_to_end : Text → Session → Dict Text Session → Dict Text Session
move_to_end d s sessions = remove d sessions ++ (d, s) ∷ []

unfoldable pub get_inactive_transport_session_by_domain :
    Text → Inactive → Inactive × Option Session
unfolding move_to_end
get_inactive_transport_session_by_domain d i = elim (get d i.sessions) [
  | none ↦ (i, none)
  | some s ↦ (record i { sessions = move_to_end d s i.sessions }, some s)
]

unfoldable pub get_inactive_transport_session_by_keyid :
    KeyId → Inactive → Inactive × Option Session
unfolding move_to_end
get_inactive_transport_session_by_keyid k i = elim (get k i.domains) [
  | none ↦ (i, none)
  | some d ↦ elim (get d i.sessions) [
    | none ↦ (record i { domains = remove k i.domains }, none)
    | some s ↦ (record i { sessions = move_to_end d s i.sessions }, some s)
  ]
]

unfoldable pub delete_inactive_transport_session : Item → Inactive → Inactive
delete_inactive_transport_session (domain d) i = elim (get d i.sessions) [
  | none ↦ i
  | some s ↦ record { sessions = remove d i.sessions; domains = expire d s i.domains }
]
delete_inactive_transport_session (keyid k) i = elim (get k i.domains) [
  | none ↦ i
  | some d ↦ record { sessions = remove d i.sessions; domains = remove k i.domains }
]

unfoldable pub clear_inactive_transport_sessions : Inactive → Inactive
clear_inactive_transport_sessions i = empty
