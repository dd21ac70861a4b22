-- ===== src/Datagram/Encryptor/Nonces.antt =====
-- The nonces that `encrypt` gives the cipher, in any sequence of the operations of an encryptor.
use mathlib.Core.List.{append-nil}
use gnserver.Base.{
  refl, Option-cases, none, drop, drop-append, ok, raise, value_error, ◌⊎◌, nat_beq, Bool-cases,
  false, ℕ, zero, suc, ◌+◌, ◌%◌, ◌^◌, ◌<◌, ◌≡◌, ◌≢◌, sym, ap, ◌∙◌, Bool, Option, some, List, [],
  ◌∷◌, ◌++◌, arith, get_elem?, slice, slice-append, Bytes, Text, Result-cases, inl, inr, not,
}
use gnserver.Base.BigEndian.{be_bytes, length-be_bytes, from_bytes, from_bytes-be_bytes}
use gnserver.Kdc.Types.{KeyId, domain, keyid}
use gnserver.Kdc.Keys.{Kdc}
use gnserver.Kdc.Request.{Sync, one, request_key_if_not_exist}
use gnserver.Datagram.Encryptor.Seal.{length-nonce}
use gnserver.Datagram.Encryptor.Bootstrap.{
  init_known_keyid, init_by_keyid, init_known_domain, init_by_domain,
}
use gnserver.Session.Keys.{Hashes, derive_transport_keys_from_root64}
use gnserver.Datagram.Encryptor.{
  Cipher, Encryptor, encrypt, decrypt, confirm, make_nonce, nonce, next_counter, set_transport_keys,
  set_session_root64, set_session_root64_receive_only, apply_pending_key_out,
  restore_inactive_session, init_raw, init_type2, derive_bootstrap_transport_keys, marker,
}

-- The operations of an encryptor.
pub data Op : Type 0 where
  set_root : Bytes → Text → Op
  set_root_receive_only : Bytes → Text → Option Text → Op
  apply_pending raw : Op
  restore : ℕ → KeyId → Bytes → Text → Op
  type2 : Option Text → Bool → Op
  by_keyid : Sync → Bool → Text → ℕ → KeyId → Kdc → Op
  by_domain : Sync → Option Text → Text → ℕ → Text → Kdc → Op
  set_keys : Bytes → Bytes → Op
  seal : ℕ → ℕ → Bytes → Op
  unseal_packet : Bytes → Op

-- A cipher whose ciphertext is the nonce that it is given: it shows what `encrypt` hands to AES.
abbrev probe : Cipher
probe = record {
  encrypt_and_digest = λ k n p. ok (n, []);
  decrypt_and_verify = λ k n ct tag. raise value_error;
}

-- The nonce that `encrypt` gives the cipher, where it comes to that.
abbrev pub given_nonce : ℕ → ℕ → Bytes → Encryptor → Option Bytes
given_nonce now rand2 packet e = elim (encrypt probe now rand2 packet e).1 [
  | ok sealed ↦ some (drop 15 sealed)
  | raise err ↦ none
]

module _ (h : Hashes) (c : Cipher) (self_domain : Text) where
  -- The state after an operation, which may have raised.
  unfoldable pub step : Op → Encryptor → Encryptor
  step (set_root root64 peer) e = (set_session_root64 h self_domain root64 peer e).0
  step (set_root_receive_only root64 peer own) e =
      (set_session_root64_receive_only h self_domain root64 peer own e).0
  step apply_pending e = apply_pending_key_out e
  step raw e = init_raw e
  step (restore t i root64 peer) e = (restore_inactive_session h self_domain t i root64 peer e).0
  step (type2 own is_server) e = (init_type2 h own is_server e).0
  step (by_keyid s is_server own t i k) e = (init_by_keyid h s is_server own t i k e).1.0
  step (by_domain s here own t peer k) e = (init_by_domain h s here own t peer k e).1.0
  step (set_keys key_in key_out) e = (set_transport_keys key_in key_out e).0
  step (seal now rand2 packet) e = (encrypt c now rand2 packet e).0
  step (unseal_packet packet) e = (decrypt c packet e).0

  -- What the calls of `encrypt` give the cipher, in their order.
  abbrev pub given : Op → Encryptor → List (Option Bytes)
  given (seal now rand2 packet) e = given_nonce now rand2 packet e ∷ []
  given op e = []

  unfoldable pub nonces : List Op → Encryptor → List (Option Bytes)
  nonces [] e = []
  nonces (op ∷ ops) e = given op e ++ nonces ops (step op e)

counter-set_transport_keys :
    (key_in key_out : Bytes) (e : Encryptor)
    → (set_transport_keys key_in key_out e).0.counter ≡ e.counter
unfolding set_transport_keys
counter-set_transport_keys key_in key_out e = ground arith

counter-set_session_root64 :
    (h : Hashes) (self_domain : Text) (root64 : Bytes) (peer : Text) (e : Encryptor)
    → (set_session_root64 h self_domain root64 peer e).0.counter ≡ e.counter
unfolding set_session_root64 set_transport_keys
counter-set_session_root64 h self_domain root64 peer e =
    elim (Result-cases (derive_transport_keys_from_root64 h root64 self_domain peer)) [
      | inl (keys, derived) ↦ ground arith
      | inr (err, refused) ↦ ground arith
    ]

counter-receive_only :
    (h : Hashes) (self_domain : Text) (root64 : Bytes) (peer : Text) (own : Option Text)
    (e : Encryptor)
    → (set_session_root64_receive_only h self_domain root64 peer own e).0.counter ≡ e.counter
unfolding set_session_root64_receive_only
counter-receive_only h self_domain root64 peer own e = ground arith

counter-apply : (e : Encryptor) → (apply_pending_key_out e).counter ≡ e.counter
unfolding apply_pending_key_out
counter-apply e = ground arith

counter-confirm : (e : Encryptor) → (confirm e).counter ≡ e.counter
unfolding confirm
counter-confirm e = ground (arith, counter-apply e)

counter-init_type2 :
    (h : Hashes) (own : Option Text) (is_server : Bool) (e : Encryptor)
    → (init_type2 h own is_server e).0.counter ≡ e.counter
unfolding init_type2 set_transport_keys
counter-init_type2 h own is_server e =
    elim (Result-cases
      (derive_bootstrap_transport_keys h [] (marker is_server) (marker (not is_server)))) [
        | inl (keys, derived) ↦ ground arith
        | inr (err, refused) ↦ ground arith
      ]

counter-init_known_keyid :
    (h : Hashes) (is_server : Bool) (own : Text) (i : KeyId) (k : Kdc) (e : Encryptor)
    → (init_known_keyid h is_server own i k e).0.counter ≡ e.counter
unfolding init_known_keyid set_transport_keys
counter-init_known_keyid h is_server own i k e = ground arith

counter-init_by_keyid :
    (h : Hashes) (s : Sync) (is_server : Bool) (own : Text) (t : ℕ) (i : KeyId) (k : Kdc)
    (e : Encryptor)
    → (init_by_keyid h s is_server own t i k e).1.0.counter ≡ e.counter
unfolding init_by_keyid
counter-init_by_keyid h s is_server own t i k e =
    elim (Result-cases (request_key_if_not_exist s (one (keyid i)) k).1) [
      | inl (u, known) ↦ rw (known, init_by_keyid) (counter-init_known_keyid h is_server own i _ _)
      | inr (err, unknown) ↦ rw (unknown, init_by_keyid) refl
    ]

counter-init_known_domain :
    (h : Hashes) (own peer : Text) (k : Kdc) (e : Encryptor)
    → (init_known_domain h own peer k e).0.counter ≡ e.counter
unfolding init_known_domain set_transport_keys
counter-init_known_domain h own peer k e = ground arith

counter-init_by_domain :
    (h : Hashes) (s : Sync) (here : Option Text) (own : Text) (t : ℕ) (peer : Text) (k : Kdc)
    (e : Encryptor)
    → (init_by_domain h s here own t peer k e).1.0.counter ≡ e.counter
unfolding init_by_domain init_raw
counter-init_by_domain h s here own t peer k e =
    let e' : Encryptor = record e { encryption_type = t; session_root64 = none } in
    elim (Bool-cases (nat_beq t 0)) [
      | inl plain ↦ rw (plain, init_by_domain) refl
      | inr sealed ↦ elim (Bool-cases (nat_beq t 2)) [
        | inl two ↦ rw (sealed, two, init_by_domain) (counter-init_type2 h here false e')
        | inr other ↦ elim (Result-cases (request_key_if_not_exist s (one (domain peer)) k).1) [
          | inl (u, known) ↦
              rw (sealed, other, known, init_by_domain) (counter-init_known_domain h own peer _ e')
          | inr (err, unknown) ↦ rw (sealed, other, unknown, init_by_domain) refl
        ]
      ]
    ]

counter-decrypt :
    (c : Cipher) (packet : Bytes) (e : Encryptor) → (decrypt c packet e).0.counter ≡ e.counter
unfolding decrypt
counter-decrypt c packet e = ground (arith, counter-confirm e)

counter_of : ℕ → ℕ → ℕ
counter_of c i = (c + i + 1) % 2 ^ 64

-- The nonces hold the numbers after `c`, one after the other.
IsNumbered : ℕ → List (Option Bytes) → Type 0
IsNumbered c [] = Unit
IsNumbered c (none ∷ ns) = IsNumbered (next_counter c) ns
IsNumbered c (some n ∷ ns) =
    (slice 5 13 n ≡ be_bytes 8 (next_counter c)) × IsNumbered (next_counter c) ns

slice-nonce : (now counter rand2 : ℕ) → slice 5 13 (nonce now counter rand2) ≡ be_bytes 8 counter
unfolding nonce
slice-nonce now counter rand2 =
    let front = length-be_bytes 5 (now % 2 ^ 40) in
    let middle = length-be_bytes 8 counter in
    slice-append 5 13 (be_bytes 5 (now % 2 ^ 40)) (be_bytes 8 counter) (be_bytes 2 rand2)
      (omega arith) (omega arith)

-- What the probe is given is the nonce with the next number, if it is called.
given_nonce-cases :
    (now rand2 : ℕ) (packet : Bytes) (e : Encryptor)
    → (given_nonce now rand2 packet e ≡ none)
      ⊎ (given_nonce now rand2 packet e ≡ some (nonce now (next_counter e.counter) rand2))
unfolding encrypt make_nonce
given_nonce-cases now rand2 packet e = elim (Option-cases e.key_out) [
  | inl missing ↦ inl (rw (missing, encrypt) refl)
  | inr (k, held) ↦
      let n = nonce now (next_counter e.counter) rand2 in
      inr (
        rw (held, encrypt)
          (ap (λ x. some x)
            (drop-append 15 n (n ++ []) (sym (length-nonce now (next_counter e.counter) rand2))
              ∙ append-nil n)))
]

IsNumbered-next :
    (c : ℕ) (o : Option Bytes) (n : Bytes) (ns : List (Option Bytes))
    → (o ≡ none) ⊎ (o ≡ some n)
    → slice 5 13 n ≡ be_bytes 8 (next_counter c)
    → IsNumbered (next_counter c) ns
    → IsNumbered c (o ∷ ns)
unfolding IsNumbered
IsNumbered-next c o n ns (inl e) h rest = rw e rest
IsNumbered-next c o n ns (inr e) h rest = rw e (h, rest)

nonces-IsNumbered :
    (h : Hashes) (c : Cipher) (self_domain : Text) (ops : List Op) (e : Encryptor)
    → IsNumbered e.counter (nonces h c self_domain ops e)
unfolding nonces step IsNumbered encrypt make_nonce init_raw restore_inactive_session
    apply_pending_key_out
nonces-IsNumbered h c d [] e = tt
nonces-IsNumbered h c d (set_root root64 peer ∷ ops) e =
    let ih = nonces-IsNumbered h c d ops (set_session_root64 h d root64 peer e).0 in
    rw counter-set_session_root64 at ih
nonces-IsNumbered h c d (set_root_receive_only root64 peer own ∷ ops) e =
    let ih =
      nonces-IsNumbered h c d ops (set_session_root64_receive_only h d root64 peer own e).0 in
    rw counter-receive_only at ih
nonces-IsNumbered h c d (apply_pending ∷ ops) e =
    let ih = nonces-IsNumbered h c d ops (apply_pending_key_out e) in rw counter-apply at ih
nonces-IsNumbered h c d (raw ∷ ops) e = nonces-IsNumbered h c d ops (init_raw e)
nonces-IsNumbered h c d (restore t i root64 peer ∷ ops) e =
    let ih = nonces-IsNumbered h c d ops (restore_inactive_session h d t i root64 peer e).0 in
    rw counter-set_session_root64 at ih
nonces-IsNumbered h c d (type2 own is_server ∷ ops) e =
    let ih = nonces-IsNumbered h c d ops (init_type2 h own is_server e).0 in
    rw counter-init_type2 at ih
nonces-IsNumbered h c d (set_keys key_in key_out ∷ ops) e =
    let ih = nonces-IsNumbered h c d ops (set_transport_keys key_in key_out e).0 in
    rw counter-set_transport_keys at ih
nonces-IsNumbered h c d (by_keyid s is_server own t i k ∷ ops) e =
    let ih = nonces-IsNumbered h c d ops (init_by_keyid h s is_server own t i k e).1.0 in
    rw counter-init_by_keyid at ih
nonces-IsNumbered h c d (by_domain s here own t peer k ∷ ops) e =
    let ih = nonces-IsNumbered h c d ops (init_by_domain h s here own t peer k e).1.0 in
    rw counter-init_by_domain at ih
nonces-IsNumbered h c d (seal now rand2 packet ∷ ops) e =
    IsNumbered-next e.counter _ (nonce now (next_counter e.counter) rand2) _
      (given_nonce-cases now rand2 packet e) (slice-nonce now (next_counter e.counter) rand2)
      (nonces-IsNumbered h c d ops (encrypt c now rand2 packet e).0)
nonces-IsNumbered h c d (unseal_packet packet ∷ ops) e =
    let ih = nonces-IsNumbered h c d ops (decrypt c packet e).0 in rw counter-decrypt at ih

get-IsNumbered :
    (c : ℕ) (ns : List (Option Bytes)) (i : ℕ) (n : Bytes)
    → IsNumbered c ns
    → get_elem? ns i ≡ some (some n)
    → slice 5 13 n ≡ be_bytes 8 (counter_of c i)
unfolding IsNumbered counter_of
get-IsNumbered c [] i n h at = absurd (ground arith)
get-IsNumbered c (none ∷ ns) zero n h at = absurd (ground arith)
get-IsNumbered c (some m ∷ ns) zero n h at =
    let same : m ≡ n = ground arith in
    let next : next_counter c ≡ (c + 0 + 1) % 2 ^ 64 = omega arith in
    ap (slice 5 13) (sym same) ∙ h.0 ∙ ap (be_bytes 8) next
get-IsNumbered c (none ∷ ns) (suc i) n h at =
    let same : (next_counter c + i + 1) % 2 ^ 64 ≡ (c + suc i + 1) % 2 ^ 64 = omega arith in
    get-IsNumbered (next_counter c) ns i n h at ∙ ap (be_bytes 8) same
get-IsNumbered c (some m ∷ ns) (suc i) n h at =
    let same : (next_counter c + i + 1) % 2 ^ 64 ≡ (c + suc i + 1) % 2 ^ 64 = omega arith in
    get-IsNumbered (next_counter c) ns i n h.1 at ∙ ap (be_bytes 8) same

counter_of-injective :
    (c i j : ℕ) → i < j → j < 2 ^ 64 → be_bytes 8 (counter_of c i) ≢ be_bytes 8 (counter_of c j)
unfolding counter_of
counter_of-injective c i j lt bound same =
    let a = from_bytes-be_bytes 8 ((c + i + 1) % 2 ^ 64) (omega arith) in
    let b = from_bytes-be_bytes 8 ((c + j + 1) % 2 ^ 64) (omega arith) in
    let eq : (c + i + 1) % 2 ^ 64 ≡ (c + j + 1) % 2 ^ 64 = sym a ∙ ap from_bytes same ∙ b in
    omega arith

-- Of the nonces that the first 2 ^ 64 calls of `encrypt` give the cipher from any state on, no two are
-- the same, whatever operations stand between them and whatever the clock and the random numbers are.
pub nonces-distinct :
    (h : Hashes) (c : Cipher) (self_domain : Text) (ops : List Op) (e : Encryptor) (i j : ℕ)
    (n m : Bytes)
    → i < j
    → j < 2 ^ 64
    → get_elem? (nonces h c self_domain ops e) i ≡ some (some n)
    → get_elem? (nonces h c self_domain ops e) j ≡ some (some m)
    → n ≢ m
nonces-distinct h c d ops e i j n m lt bound at_i at_j same =
    let numbered = nonces-IsNumbered h c d ops e in
    let a = get-IsNumbered e.counter (nonces h c d ops e) i n numbered at_i in
    let b = get-IsNumbered e.counter (nonces h c d ops e) j m numbered at_j in
    counter_of-injective e.counter i j lt bound (sym a ∙ ap (slice 5 13) same ∙ b)
