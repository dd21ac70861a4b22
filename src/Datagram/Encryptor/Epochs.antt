-- ===== src/Datagram/Encryptor/Epochs.antt =====
-- `setSessionRoot64_receive_only`: both keys of incoming packets are accepted, and the key of outgoing
-- packets is queued.
use gnserver.Base.{
  ◌≡◌, refl, ap, ◌∙◌, ◌⊎◌, Option-cases, Bool, true, false, Option, none, some, List, [], ◌∷◌, ltb,
  length, ◌||◌, if◌then◌else◌, Bool-cases, Result-cases, inl, inr, Bytes, Text, Result, ok, raise,
  Error, value_error,
}
use gnserver.Session.Keys.{Hashes, derive_transport_keys_from_root64}
use gnserver.Datagram.Encryptor.{
  Cipher, Encryptor, decrypt, confirm, apply_pending_key_out, unseal,
  set_session_root64_receive_only, home,
}

-- What happens after a root was set for receiving: a packet comes in, or the call of
-- `applyPendingKeyOut` that was scheduled for the next turn of the event loop, which only a server does, is run.
pub data Event : Type 0 where
  packet_in : Bytes → Event
  tick : Event

unfoldable pub receive : Cipher → List Event → Encryptor → Encryptor
receive c [] e = e
receive c (packet_in packet ∷ events) e = receive c events (decrypt c packet e).0
receive c (tick ∷ events) e = receive c events (apply_pending_key_out e)

-- Whether a packet opens under a key.
abbrev is_ok : {A : Type 0} → Result A → Bool
is_ok (ok a) = true
is_ok (raise err) = false

abbrev pub opens : Cipher → Bytes → Bytes → Bool
opens c k packet = if ltb (length packet) 31 then false else is_ok (unseal c (some k) packet)

-- What makes an encryptor send under the new key.
abbrev pub switches : Cipher → Bytes → Event → Bool
switches c k (packet_in packet) = opens c k packet
switches c k tick = true

abbrev pub any_switches : Cipher → Bytes → List Event → Bool
any_switches c k [] = false
any_switches c k (event ∷ events) = switches c k event || any_switches c k events

-- An encryptor between two keys: `new` is accepted and queued, `old` still accepted.
record IsBetween (e : Encryptor) (old new old_out new_out : Bytes) : Type 0 where
  pub key_in_eq : e.key_in ≡ some new
  pub key_out_eq : e.key_out ≡ some old_out
  pub prev_eq : e.prev_key_in ≡ some old
  pub pending_eq : e.pending_key_out ≡ some new_out

decrypt_short :
    (c : Cipher) (packet : Bytes) (e : Encryptor)
    → ltb (length packet) 31 ≡ true
    → decrypt c packet e ≡ (e, raise value_error)
unfolding decrypt
decrypt_short c packet e short = rw (decrypt, short)

decrypt_new :
    (c : Cipher) (packet p : Bytes) (e : Encryptor)
    → ltb (length packet) 31 ≡ false
    → unseal c e.key_in packet ≡ ok p
    → decrypt c packet e ≡ (confirm e, ok p)
unfolding decrypt
decrypt_new c packet p e long opened = rw (decrypt, long, opened)

decrypt_old :
    (c : Cipher) (packet : Bytes) (e : Encryptor) (err : Error) (old : Bytes)
    → ltb (length packet) 31 ≡ false
    → unseal c e.key_in packet ≡ raise err
    → e.prev_key_in ≡ some old
    → decrypt c packet e ≡ (e, unseal c (some old) packet)
unfolding decrypt
decrypt_old c packet e err old long refused prev = simp (decrypt, long, refused, prev)

confirm_settled : (e : Encryptor) → e.prev_key_in ≡ none → confirm e ≡ e
unfolding confirm
confirm_settled e settled = simp (confirm, settled)

confirm_between :
    (e : Encryptor) (old new old_out new_out : Bytes)
    → IsBetween e old new old_out new_out
    → confirm e ≡ record e { key_out = some new_out; pending_key_out = none; prev_key_in = none }
unfolding confirm apply_pending_key_out
confirm_between e old new old_out new_out between =
    simp (confirm, apply_pending_key_out, between.prev_eq, between.pending_eq)

decrypt_settled :
    (c : Cipher) (packet : Bytes) (e : Encryptor)
    → e.prev_key_in ≡ none
    → (decrypt c packet e).0 ≡ e
unfolding decrypt confirm
decrypt_settled c packet e settled = elim (Bool-cases (ltb (length packet) 31)) [
  | inl short ↦ ap (λ x. x.0) (decrypt_short c packet e short)
  | inr long ↦ elim (Result-cases (unseal c e.key_in packet)) [
    | inl (p, opened) ↦
        ap (λ x. x.0) (decrypt_new c packet p e long opened) ∙ confirm_settled e settled
    | inr (err, refused) ↦ simp (decrypt, long, refused, settled)
  ]
]

-- Where no key is queued, an incoming packet does not change the key that packets go out under.
confirm_idle : (e : Encryptor) → e.pending_key_out ≡ none → (confirm e).key_out ≡ e.key_out
unfolding confirm apply_pending_key_out
confirm_idle e idle = elim (Option-cases e.prev_key_in) [
  | inl settled ↦ simp (confirm, settled)
  | inr (prev, held) ↦ simp (confirm, apply_pending_key_out, held, idle)
]

confirm_idle_pending :
    (e : Encryptor) → e.pending_key_out ≡ none → (confirm e).pending_key_out ≡ none
unfolding confirm apply_pending_key_out
confirm_idle_pending e idle = elim (Option-cases e.prev_key_in) [
  | inl settled ↦ simp (confirm, settled, idle)
  | inr (prev, held) ↦ simp (confirm, apply_pending_key_out, held, idle)
]

-- A packet confirms the key or leaves the state.
decrypt-cases :
    (c : Cipher) (packet : Bytes) (e : Encryptor)
    → ((decrypt c packet e).0 ≡ e) ⊎ ((decrypt c packet e).0 ≡ confirm e)
unfolding decrypt
decrypt-cases c packet e = elim (Bool-cases (ltb (length packet) 31)) [
  | inl short ↦ inl (ap (λ x. x.0) (decrypt_short c packet e short))
  | inr long ↦ elim (Result-cases (unseal c e.key_in packet)) [
    | inl (p, opened) ↦ inr (ap (λ x. x.0) (decrypt_new c packet p e long opened))
    | inr (err, refused) ↦ elim (Option-cases e.prev_key_in) [
      | inl settled ↦ inl (simp (decrypt, long, refused, settled))
      | inr (prev, held) ↦ inl (simp (decrypt, long, refused, held))
    ]
  ]
]

receive_idle :
    (c : Cipher) (events : List Event) (e : Encryptor)
    → e.pending_key_out ≡ none
    → (receive c events e).key_out ≡ e.key_out
unfolding receive apply_pending_key_out
receive_idle c [] e idle = refl
receive_idle c (packet_in packet ∷ events) e idle = elim (decrypt-cases c packet e) [
  | inl same ↦ rw (receive, same) (receive_idle c events e idle)
  | inr confirmed ↦
      rw (receive, confirmed)
        (receive_idle c events (confirm e) (confirm_idle_pending e idle) ∙ confirm_idle e idle)
]
receive_idle c (tick ∷ events) e idle =
    rw (receive, idle, apply_pending_key_out) (receive_idle c events e idle)

-- While between two keys, a packet of the old key is read and changes nothing, and one of the new
-- key is read and switches to it.
decrypt_between :
    (c : Cipher) (packet : Bytes) (e : Encryptor) (old new old_out new_out : Bytes)
    → IsBetween e old new old_out new_out
    → ltb (length packet) 31 ≡ false
    → decrypt c packet e ≡ (elim (unseal c (some new) packet) [
      | ok p ↦
          (record e { key_out = some new_out; pending_key_out = none; prev_key_in = none }, ok p)
      | raise err ↦ (e, unseal c (some old) packet)
    ])
unfolding decrypt confirm apply_pending_key_out
decrypt_between c packet e old new old_out new_out between long =
    elim (Result-cases (unseal c (some new) packet)) [
      | inl (p, opened) ↦
          let step = decrypt_new c packet p e long (rw between.key_in_eq opened) in
          step ∙ rw (opened, confirm_between e old new old_out new_out between)
      | inr (err, refused) ↦
          let step =
            decrypt_old c packet e err old long (rw between.key_in_eq refused) between.prev_eq in
          step ∙ rw (refused)
    ]

-- Between two keys, the first event that switches settles the key of outgoing packets.
receive-IsBetween :
    (c : Cipher) (events : List Event) (e : Encryptor) (old new old_out new_out : Bytes)
    → IsBetween e old new old_out new_out
    → (receive c events e).key_out
      ≡ (if any_switches c new events then some new_out else some old_out)
unfolding receive apply_pending_key_out
receive-IsBetween c [] e old new old_out new_out between = between.key_out_eq
receive-IsBetween c (tick ∷ events) e old new old_out new_out between =
    rw (receive, between.pending_eq, apply_pending_key_out)
      (receive_idle c events (record e { key_out = some new_out; pending_key_out = none }) refl)
receive-IsBetween c (packet_in packet ∷ events) e old new old_out new_out between =
    elim (Bool-cases (ltb (length packet) 31)) [
      | inl short ↦
          rw (receive, decrypt_short c packet e short, short)
            (receive-IsBetween c events e old new old_out new_out between)
      | inr long ↦
          let step =
            ap (λ x. x.0) (decrypt_between c packet e old new old_out new_out between long) in
          elim (Result-cases (unseal c (some new) packet)) [
            | inl (p, opened) ↦
                rw (receive, step, long, opened)
                  (receive_idle c events
                    (record e {
                      key_out = some new_out;
                      pending_key_out = none;
                      prev_key_in = none;
                    })
                    refl)
            | inr (err, refused) ↦
                rw (receive, step, long, refused)
                  (receive-IsBetween c events e old new old_out new_out between)
          ]
    ]

-- Setting a root for receiving, with a key already in use, brings an encryptor between its keys
-- and those of the root.
receive_only-IsBetween :
    (h : Hashes) (self_domain peer_domain : Text) (local_domain : Option Text)
    (root64 old old_out new new_out : Bytes) (e : Encryptor)
    → e.key_in ≡ some old
    → e.key_out ≡ some old_out
    → derive_transport_keys_from_root64 h root64 (home local_domain self_domain) peer_domain
      ≡ ok (new, new_out)
    → IsBetween
        (set_session_root64_receive_only h self_domain root64 peer_domain local_domain e).0
        old
        new
        old_out
        new_out
unfolding set_session_root64_receive_only
receive_only-IsBetween h self_domain peer_domain local_domain root64 old old_out new new_out e inn
      out derived =
    record {
      key_in_eq = rw (set_session_root64_receive_only, derived);
      key_out_eq = rw (set_session_root64_receive_only, derived) out;
      prev_eq = rw (set_session_root64_receive_only, derived, inn);
      pending_eq = rw (set_session_root64_receive_only, derived);
    }

-- With a key in use in both directions and a root that gives keys, after the root was set for
-- receiving: packets go out under the root's key exactly if, since then, a packet under the root's
-- key has come in or the scheduled `applyPendingKeyOut` has run; else they go out under the old key.
pub receive_between :
    (h : Hashes) (c : Cipher) (self_domain peer_domain : Text) (local_domain : Option Text)
    (root64 old old_out new new_out : Bytes) (e : Encryptor) (events : List Event)
    → e.key_in ≡ some old
    → e.key_out ≡ some old_out
    → derive_transport_keys_from_root64 h root64 (home local_domain self_domain) peer_domain
      ≡ ok (new, new_out)
    → (receive c events
        (set_session_root64_receive_only h self_domain root64 peer_domain local_domain e).0).key_out
      ≡ (if any_switches c new events then some new_out else some old_out)
receive_between h c self_domain peer_domain local_domain root64 old old_out new new_out e events inn
      out derived =
    receive-IsBetween c events _ old new old_out new_out (
      receive_only-IsBetween h self_domain peer_domain local_domain root64 old old_out new new_out e
        inn out derived)
