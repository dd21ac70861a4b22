-- ===== src/Datagram/Encryptor/Bootstrap.antt =====
-- server/_datagram_enc.py: `initByKeyid` and `initByDomain`, which take the first keys of a peer from
-- the KDC object, and what two ends have after `initType2`, without a KDC.
use gnserver.Base.{
  ℕ, ◌≡◌, ◌||◌, refl, ap, Bool, true, false, Option, none, some, [], ◌++◌, not, arith, nat_beq,
  if◌then◌else◌, Bytes, Text, codes, Result, ok, raise, key_domain_not_found, key_id_not_found,
  type_error, ◌>>=◌,
}
use gnserver.Base.Utf8.{encode}
use gnserver.Kdc.Types.{KeyId, domain, keyid}
use gnserver.Kdc.Keys.{Kdc, get_key, get_domain_by_id, get_key_id_by_domain}
use gnserver.Kdc.Request.{Sync, one, request_key_if_not_exist}
use gnserver.Session.Keys.{Hashes, HasLengths}
use gnserver.Datagram.Encryptor.{
  Cipher, Encryptor, set_transport_keys, derive_bootstrap_transport_keys, init_raw, init_type2,
  marker, encrypt, decrypt,
}
use gnserver.Datagram.Encryptor.Seal.{IsCipher, decrypt-encrypt}

-- The domains that `initByKeyid` binds the keys to: a node's keys have a marker for the client.
abbrev pub bound_domains : Bool → ℕ → Text → Text → Text × Text
bound_domains is_server key_type own peer =
    if nat_beq key_type 252 || nat_beq key_type 253
    then (if is_server then (peer, codes "gn:node-client") else (codes "gn:node-client", peer))
    else (own, peer)

-- The key that HKDF gets: `None` is refused by it.
abbrev pub present : Option Bytes → Result Bytes
present none = raise type_error
present (some key) = ok key

-- `initByKeyid` after the KDC object has the key, or not.
unfoldable pub init_known_keyid :
    Hashes → Bool → Text → KeyId → Kdc → Encryptor → Encryptor × Result Text
init_known_keyid h is_server own i k e = elim (get_key (keyid i) k) [
  | raise err ↦ (e, raise err)
  | ok key ↦ elim (get_domain_by_id i k) [
    | none ↦ (e, raise key_domain_not_found)
    | some peer ↦
        let (local, remote) = bound_domains is_server i.0 own peer in
        elim (present key >>= λ key. derive_bootstrap_transport_keys h key local remote) [
          | raise err ↦ (e, raise err)
          | ok keys ↦
              let (e', done) = set_transport_keys keys.0 keys.1 e in
              elim done [
                | raise err ↦ (e', raise err)
                | ok u ↦ (record e' { ready = true; domain = some peer }, ok peer)
              ]
        ]
  ]
]

unfoldable pub init_by_keyid :
    Hashes → Sync → Bool → Text → ℕ → KeyId → Kdc → Encryptor → Kdc × (Encryptor × Result Text)
init_by_keyid h s is_server own encryption_type i k e =
    let e' : Encryptor = record e {
      encryption_type = encryption_type;
      keyid = i;
      session_root64 = none;
    } in
    let (k', asked) = request_key_if_not_exist s (one (keyid i)) k in
    elim asked [
      | raise err ↦ (k', (e', raise err))
      | ok u ↦ (k', init_known_keyid h is_server own i k' e')
    ]

-- `initByDomain` after the KDC object has the key, or not.
unfoldable pub init_known_domain : Hashes → Text → Text → Kdc → Encryptor → Encryptor × Result KeyId
init_known_domain h own peer k e = elim (get_key_id_by_domain peer k) [
  | none ↦ (record e { keyid = (0, 0) }, raise key_id_not_found)
  | some i ↦
      let e' : Encryptor = record e { keyid = i } in
      elim (get_key (keyid i) k >>= present >>= λ key.
      derive_bootstrap_transport_keys h key own peer) [
        | raise err ↦ (e', raise err)
        | ok keys ↦
            let (e'', done) = set_transport_keys keys.0 keys.1 e' in
            elim done [
              | raise err ↦ (e'', raise err)
              | ok u ↦ (record e'' { ready = true; domain = some peer }, ok i)
            ]
      ]
]

-- `initByDomain`, at an endpoint with the domain `here` and a client with the domain `own`.
unfoldable pub init_by_domain :
    Hashes
    → Sync
    → Option Text
    → Text
    → ℕ
    → Text
    → Kdc
    → Encryptor
    → Kdc × (Encryptor × Result KeyId)
init_by_domain h s here own encryption_type peer k e =
    let e' : Encryptor = record e { encryption_type = encryption_type; session_root64 = none } in
    if nat_beq encryption_type 0
    then (k, (init_raw e', ok (0, 0)))
    else if nat_beq encryption_type 2
    then (let (e'', done) = init_type2 h here false e' in
        (k, (e'', elim done [ ok u ↦ ok (250, 0) | raise err ↦ raise err ])))
    else (let (k', asked) = request_key_if_not_exist s (one (domain peer)) k in
        elim asked [
          | raise err ↦ (k', (e', raise err))
          | ok u ↦ (k', init_known_domain h own peer k' e')
        ])

marker_encoded : (is_server : Bool) → encode (marker is_server) ≡ ok (marker is_server)
unfolding encode
marker_encoded true = refl
marker_encoded false = refl

-- The keys of an end without a KDC, whose side is told by a Boolean.
type2_keys : Hashes → Bool → Bytes × Bytes
type2_keys h is_server = (
  h.hkdf [] 32 (marker (not is_server) ++ marker is_server) (codes "gn:DgEncryptor"),
  h.hkdf [] 32 (marker is_server ++ marker (not is_server)) (codes "gn:DgEncryptor"),
)

init_type2-keys :
    (h : Hashes) (own : Option Text) (is_server : Bool) (e : Encryptor)
    → HasLengths h
    → ((init_type2 h own is_server e).0.key_in ≡ some (type2_keys h is_server).0)
      × ((init_type2 h own is_server e).0.key_out ≡ some (type2_keys h is_server).1)
unfolding init_type2 derive_bootstrap_transport_keys set_transport_keys type2_keys
init_type2-keys h own is_server e lengths =
    let mine = marker_encoded is_server in
    let other = marker_encoded (not is_server) in
    let a =
      lengths.length_hkdf [] 32 (marker (not is_server) ++ marker is_server)
        (codes "gn:DgEncryptor") in
    let b =
      lengths.length_hkdf [] 32 (marker is_server ++ marker (not is_server))
        (codes "gn:DgEncryptor") in
    (rw (init_type2, mine, other, a, b), rw (init_type2, mine, other, a, b))

-- A client and a server that begin without a KDC, whatever their domains and states before: a packet
-- that the one seals is opened by the other.
pub init_type2-decrypt :
    (h : Hashes) (c : Cipher) (own own' : Option Text) (is_server : Bool) (now rand2 : ℕ)
    (p : Bytes) (s r : Encryptor)
    → HasLengths h
    → IsCipher c
    → (packet : Bytes) × ((encrypt c now rand2 p (init_type2 h own is_server s).0).1 ≡ ok packet)
      × ((decrypt c packet (init_type2 h own' (not is_server) r).0).1 ≡ ok p)
unfolding type2_keys
init_type2-decrypt h c own own' is_server now rand2 p s r lengths law =
    let out = (init_type2-keys h own is_server s lengths).1 in
    let inn = (init_type2-keys h own' (not is_server) r lengths).0 in
    let size =
      lengths.length_hkdf [] 32 (marker is_server ++ marker (not is_server))
        (codes "gn:DgEncryptor") in
    let back : not (not is_server) ≡ is_server = ground arith in
    let inn' : (init_type2 h own' (not is_server) r).0.key_in ≡ some (type2_keys h is_server).1 =
      rw back at inn in
    let (packet, made, opened) =
      decrypt-encrypt c now rand2 p (init_type2 h own is_server s).0
        (init_type2 h own' (not is_server) r).0 (type2_keys h is_server).1 law size out inn' in
    (packet, made, ap (λ x. x.1) opened)
