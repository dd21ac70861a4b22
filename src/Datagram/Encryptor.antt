-- ===== src/Datagram/Encryptor.antt =====
-- server/_datagram_enc.py: `ConnectionEncryptor`, the keys of one peer and the sealing of packets.
-- The clock, the random numbers and AES-OCB are arguments.
pub mod Seal
pub mod Epochs
pub mod Nonces
pub mod Bootstrap
use gnserver.Base.{
  ℕ, ◌+◌, ◌-◌, ◌%◌, ◌^◌, Bool, true, false, Option, none, some, List, [], ◌∷◌, ◌++◌, not, ◌||◌,
  nat_beq, ltb, length, take, drop, slice, if◌then◌else◌, Bytes, Text, codes, Result, ok, raise,
  raise_if, value_error, attribute_error, ◌>>=◌, ◌>>◌, is_none,
}
use gnserver.Base.BigEndian.{be_bytes}
use gnserver.Base.Utf8.{encode}
use gnserver.Kdc.Types.{KeyId}
use gnserver.Session.Keys.{Hashes, derive_transport_keys_from_root64}

-- `AES.new(key, AES.MODE_OCB, nonce=nonce, mac_len=16)` with `encrypt_and_digest`, which gives the
-- ciphertext and the tag, and with `decrypt_and_verify`.
pub record Cipher : Type 0 where
  pub encrypt_and_digest : Bytes → Bytes → Bytes → Result (Bytes × Bytes)
  pub decrypt_and_verify : Bytes → Bytes → Bytes → Bytes → Result Bytes

-- The attributes `_key_in` and `_key_out` do not exist before they are first set.
-- `ready` is the truth of the attribute, which `None` has not. The queue and the tasks are left out.
pub record Encryptor : Type 0 where
  pub counter : ℕ
  pub ready : Bool
  pub encryption_type : ℕ
  pub keyid : KeyId
  pub domain : Option Text
  pub session_root64 : Option Bytes
  pub key_in : Option Bytes
  pub key_out : Option Bytes
  pub prev_key_in : Option Bytes
  pub pending_key_out : Option Bytes

abbrev pub new_encryptor : Encryptor
new_encryptor = record {
  counter = 0;
  ready = false;
  encryption_type = 0;
  keyid = (0, 0);
  domain = none;
  session_root64 = none;
  key_in = none;
  key_out = none;
  prev_key_in = none;
  pending_key_out = none;
}

-- `if hasattr(self, '_key_in'): self._prev_key_in = self._key_in`
abbrev pub kept_key : Option Bytes → Option Bytes → Option Bytes
kept_key none prev = prev
kept_key (some k) prev = some k

-- `_set_transport_keys`; a second component of `raise` leaves the state as it was.
unfoldable pub set_transport_keys : Bytes → Bytes → Encryptor → Encryptor × Result (Unit {0})
set_transport_keys key_in key_out e =
    if not (nat_beq (length key_in) 32) || not (nat_beq (length key_out) 32)
    then (e, raise value_error)
    else (
      record e {
        prev_key_in = kept_key e.key_in e.prev_key_in;
        key_in = some key_in;
        key_out = some key_out;
      },
      ok tt,
    )

-- A state and a result, and a next step where the result is no exception.
abbrev pub and_then :
    {A : Type 0}
    → Encryptor × Result A
    → (A → Encryptor → Encryptor × Result (Unit {0}))
    → Encryptor × Result (Unit {0})
and_then (e, raise err) f = (e, raise err)
and_then (e, ok a) f = f a e

unfoldable pub set_session_root64 :
    Hashes → Text → Bytes → Text → Encryptor → Encryptor × Result (Unit {0})
set_session_root64 h self_domain root64 peer_domain e =
    and_then (e, derive_transport_keys_from_root64 h root64 self_domain peer_domain)
      λ keys e.
        and_then (set_transport_keys keys.0 keys.1 e)
          λ u e. (record e { session_root64 = some root64 }, ok tt)

abbrev pub home : Option Text → Text → Text
home none self_domain = self_domain
home (some d) self_domain = d

-- `setSessionRoot64_receive_only`: the key of outgoing packets is only queued.
unfoldable pub set_session_root64_receive_only :
    Hashes → Text → Bytes → Text → Option Text → Encryptor → Encryptor × Result (Unit {0})
set_session_root64_receive_only h self_domain root64 peer_domain local_domain e =
    and_then
      (e, derive_transport_keys_from_root64 h root64 (home local_domain self_domain) peer_domain)
      λ keys e. (
        record e {
          prev_key_in = kept_key e.key_in e.prev_key_in;
          key_in = some keys.0;
          pending_key_out = some keys.1;
          session_root64 = some root64;
        },
        ok tt,
      )

unfoldable pub apply_pending_key_out : Encryptor → Encryptor
apply_pending_key_out e = elim e.pending_key_out [
  | none ↦ e
  | some k ↦ record e { key_out = some k; pending_key_out = none }
]

abbrev pub has_transport_keys : Encryptor → Bool
has_transport_keys e = not (is_none e.key_in || is_none e.key_out)

unfoldable pub restore_inactive_session :
    Hashes → Text → ℕ → KeyId → Bytes → Text → Encryptor → Encryptor × Result (Unit {0})
restore_inactive_session h self_domain encryption_type keyid root64 peer_domain e =
    set_session_root64 h self_domain root64 peer_domain (record e {
      encryption_type = encryption_type;
      keyid = keyid;
      domain = some peer_domain;
      ready = true;
    })

-- The keys before a session has a root: `_derive_bootstrap_transport_keys`.
unfoldable pub derive_bootstrap_transport_keys :
    Hashes → Bytes → Text → Text → Result (Bytes × Bytes)
derive_bootstrap_transport_keys h shared_key local_domain peer_domain = do
  peer ← encode peer_domain
  own ← encode local_domain
  ok (
    h.hkdf shared_key 32 (peer ++ own) (codes "gn:DgEncryptor"),
    h.hkdf shared_key 32 (own ++ peer) (codes "gn:DgEncryptor"),
  )

unfoldable pub init_raw : Encryptor → Encryptor
init_raw e = record e { encryption_type = 0; keyid = (0, 0); session_root64 = none; ready = true }

abbrev pub marker : Bool → Text
marker true = codes "pq:server"
marker false = codes "pq:client"

-- `initType2`, at an endpoint with the domain `own`.
unfoldable pub init_type2 : Hashes → Option Text → Bool → Encryptor → Encryptor × Result (Unit {0})
init_type2 h own is_server e =
    let e' : Encryptor = record e {
      encryption_type = 2;
      keyid = (250, 0);
      session_root64 = none;
    } in
    and_then (e', derive_bootstrap_transport_keys h [] (marker is_server) (marker (not is_server)))
      λ keys e.
        and_then (set_transport_keys keys.0 keys.1 e)
          λ u e. (record e { ready = true; domain = own }, ok tt)

-- The 15 bytes of a nonce: the time, the counter after it has been raised, a random number.
abbrev pub next_counter : ℕ → ℕ
next_counter c = (c + 1) % 2 ^ 64

unfoldable pub nonce : ℕ → ℕ → ℕ → Bytes
nonce now counter rand2 = be_bytes 5 (now % 2 ^ 40) ++ (be_bytes 8 counter ++ be_bytes 2 rand2)

-- `_make_nonce`
unfoldable pub make_nonce : ℕ → ℕ → Encryptor → Encryptor × Bytes
make_nonce now rand2 e =
    let c = next_counter e.counter in (record e { counter = c }, nonce now c rand2)

-- `encrypt`: the counter is raised also where the key is missing or the cipher raises.
unfoldable pub encrypt : Cipher → ℕ → ℕ → Bytes → Encryptor → Encryptor × Result Bytes
encrypt c now rand2 packet e =
    let (e', n) = make_nonce now rand2 e in
    (
      e',
      elim e'.key_out [
        | none ↦ raise attribute_error
        | some k ↦ c.encrypt_and_digest k n packet >>= λ p. ok (n ++ (p.0 ++ p.1))
      ],
    )

-- `packet[:15]`, `packet[15:-16]` and `packet[-16:]`
abbrev pub nonce_of : Bytes → Bytes
nonce_of packet = take 15 packet

abbrev pub ciphertext_of : Bytes → Bytes
ciphertext_of packet = slice 15 (length packet - 16) packet

abbrev pub tag_of : Bytes → Bytes
tag_of packet = drop (length packet - 16) packet

abbrev pub unseal : Cipher → Option Bytes → Bytes → Result Bytes
unseal c none packet = raise attribute_error
unseal c (some k) packet =
    c.decrypt_and_verify k (nonce_of packet) (ciphertext_of packet) (tag_of packet)

-- What the first packet under the new key does: the queued key is applied, and the key before is
-- forgotten.
unfoldable pub confirm : Encryptor → Encryptor
confirm e = elim e.prev_key_in [
  | none ↦ e
  | some prev ↦ record (apply_pending_key_out e) { prev_key_in = none }
]

unfoldable pub decrypt : Cipher → Bytes → Encryptor → Encryptor × Result Bytes
decrypt c packet e =
    if ltb (length packet) 31 then (e, raise value_error) else (elim (unseal c e.key_in packet) [
      | ok result ↦ (confirm e, ok result)
      | raise err ↦ elim e.prev_key_in [
        | none ↦ (e, raise err)
        | some prev ↦ (e, unseal c (some prev) packet)
      ]
    ])
