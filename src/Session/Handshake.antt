-- ===== src/Session/Handshake.antt =====
-- _gn_pq_handshake.py: the handshake of a client and a server. liboqs, X25519, the wildcard matcher,
-- the clock and `os.urandom` are parameters; what `oqs` and `cryptography` draw at random is passed in.
pub mod Agreement
use gnserver.Base.{
  ℕ, Bool, true, false, Option, none, some, List, [], ◌∷◌, ◌++◌, not, ◌||◌, ◌&&◌, is_empty, length,
  nat_beq, ltb, if◌then◌else◌, is_none, Bytes, Text, codes, Result, ok, raise, raise_if,
  value_error, mechanism_not_supported, ◌>>=◌, ◌>>◌, ◌==◌, Eq, nat_eq, list_eq,
}
use gnserver.Base.Dict.{Dict, get, put, has}
use gnserver.Session.Messages.{
  ClientHello, ClientFinish, Commit, new_client_hello, new_client_finish, client_hello_to_bytes,
  client_finish_to_bytes,
}
use gnserver.Session.Keys.{
  Hashes, build_transcript_hash, build_server_signature_message, derive_session_root64,
  build_commit_payload, verify_commit_payload,
}
use gnserver.Session.Names.{
  cert_name_covers_domain, normalize_name, oqs_name, kem_aliases, kem_algorithm,
  signature_algorithm,
}
use gnserver.Session.Certificate.{
  Serial, Certificate, ServerHello, alias_of, algorithm_name_aliases, get_public_key,
  unsigned_bytes, data_dict, dict, new_server_hello, hello_unsigned_bytes, hello_to_bytes,
}

-- The packages: `Signature` by its algorithm, `KeyEncapsulation`, X25519 on raw keys, the matcher.
pub record Crypto : Type 0 where
  pub sig_mechanisms : List Text
  pub kem_mechanisms : List Text
  pub sign : Text → Bytes → Bytes → Result Bytes
  pub verify : Text → Bytes → Bytes → Bytes → Result Bool
  pub kem_keypair : Text → Bytes → Bytes × Bytes
  pub encap_secret : Text → Bytes → Bytes → Result (Bytes × Bytes)
  pub decap_secret : Text → Bytes → Bytes → Result Bytes
  pub x25519_public : Bytes → Bytes
  pub x25519_exchange : Bytes → Bytes → Result Bytes
  pub match_domain : Text → Text → Bool

-- `build_certificate_signature_message`
unfoldable pub certificate_message : Bytes → Bytes
certificate_message unsigned = unsigned

-- The parameters of a handshake, with the instant that certificates are checked at.
pub record Env : Type 0 where
  pub crypto : Crypto
  pub hashes : Hashes
  pub serial : Serial
  pub strip : Text → Text

module _ (v : Env) where
  open v use {crypto, hashes, serial, strip}

  unfoldable pub normalize_signature_name : Text → Result Text
  normalize_signature_name =
      normalize_name serial.casefold algorithm_name_aliases crypto.sig_mechanisms

  unfoldable pub oqs_signature_name : Text → Result Text
  oqs_signature_name algorithm =
      normalize_signature_name algorithm >>= λ n. oqs_name serial.casefold crypto.sig_mechanisms n

  unfoldable pub oqs_kem_name : Text → Result Text
  oqs_kem_name algorithm =
      normalize_name serial.casefold kem_aliases crypto.kem_mechanisms algorithm >>= λ n.
      oqs_name serial.casefold crypto.kem_mechanisms n

  unfoldable pub covers_domain : Text → Text → Bool
  covers_domain = cert_name_covers_domain strip crypto.match_domain

  -- `_verify_pq_certificate` at an instant. What only the log reads is left out.
  unfoldable pub verify_certificate : Text → Certificate → Bytes → Text → ℕ → Result (Unit {0})
  verify_certificate expected_domain c ca_public_key ca_algorithm now = do
    raise_if (not (covers_domain c.name expected_domain)) value_error
    raise_if (ltb c.expires_at now) value_error
    name ← oqs_signature_name ca_algorithm
    valid ←
        crypto.verify name (certificate_message (unsigned_bytes serial c)) c.signature ca_public_key
    raise_if (not valid) value_error

-- A certificate with the private keys of its algorithms.
pub record Identity : Type 0 where
  pub certificate : Certificate
  pub private_keys : Dict Text Bytes

pub record ClientState : Type 0 where
  pub client_hello : ClientHello
  pub x25519_private_key : Bytes

pub record ServerState : Type 0 where
  pub client_hello : ClientHello
  pub server_hello : ServerHello
  pub ml_kem_private_key : Bytes
  pub x25519_shared_secret : Bytes

pub record Established : Type 0 where
  pub transcript_hash : Bytes
  pub root64 : Bytes

pub record Completion : Type 0 where
  pub established : Established
  pub client_finish : ClientFinish
  pub commit : Commit

module _ (v : Env) where
  open v use {crypto, hashes, serial}

  -- With the private key and the nonce that are drawn.
  unfoldable pub build_client_handshake : Bytes → Bytes → Result ClientState
  build_client_handshake private_key nonce = do
    hello ← new_client_hello nonce (crypto.x25519_public private_key)
    ok (record { client_hello = hello; x25519_private_key = private_key })

  -- The hello before it is signed.
  abbrev pub draft_hello : Bytes → Bytes → Bytes → Text → Identity → Bytes → ServerHello
  draft_hello seed private_key nonce algorithm identity kem = record {
    server_nonce = nonce;
    server_x25519_public_key = crypto.x25519_public private_key;
    server_ml_kem_public_key = (crypto.kem_keypair kem seed).0;
    signature_algorithm = algorithm;
    server_certificate = identity.certificate;
    signature = [];
  }

  -- The hello with the signature of it and of the client's hello.
  unfoldable pub sign_hello :
      Text → Identity → ClientHello → Text → Text → ServerHello → Result ServerHello
  sign_hello domain identity hello algorithm oqs_algorithm unsigned = do
    raw ← hello_unsigned_bytes serial unsigned
    message ← build_server_signature_message hashes domain (client_hello_to_bytes hello) raw
    key ← elim (get algorithm identity.private_keys) [ none ↦ raise value_error | some k ↦ ok k ]
    signature ← crypto.sign oqs_algorithm key message
    new_server_hello (record unsigned { signature = signature })

  -- The checks that come first: the names of the algorithm, in the program and in the package.
  unfoldable pub check_identity : Text → Identity → Result (Text × Text)
  check_identity domain identity = do
    raise_if (not (covers_domain v identity.certificate.name domain)) value_error
    algorithm ← normalize_signature_name v signature_algorithm
    oqs_algorithm ← oqs_signature_name v algorithm
    raise_if (not (has algorithm identity.private_keys)) value_error
    public_key ← get_public_key serial algorithm identity.certificate
    ok (algorithm, oqs_algorithm)

  -- With the seed of the KEM's keys, the private key and the nonce that are drawn.
  unfoldable pub build_server_handshake :
      Bytes → Bytes → Bytes → Text → Identity → ClientHello → Result ServerState
  build_server_handshake seed private_key nonce domain identity hello = do
    names ← check_identity domain identity
    kem ← oqs_kem_name v kem_algorithm
    shared ← crypto.x25519_exchange private_key hello.client_x25519_public_key
    unsigned ← new_server_hello (draft_hello seed private_key nonce names.0 identity kem)
    signed ← sign_hello domain identity hello names.0 names.1 unsigned
    ok (record {
      client_hello = hello;
      server_hello = signed;
      ml_kem_private_key = (crypto.kem_keypair kem seed).1;
      x25519_shared_secret = shared;
    })

  -- The end of both sides: the transcript and the root, from the two shared secrets.
  unfoldable pub establish :
      Text
      → ClientHello
      → ServerHello
      → ClientFinish
      → Bytes
      → Bytes
      → Option Bytes
      → Result Established
  establish domain client_hello server_hello client_finish kem_secret x25519_secret kdc_key = do
    server_bytes ← hello_to_bytes serial server_hello
    finish_bytes ← client_finish_to_bytes client_finish
    hash ←
        build_transcript_hash hashes domain
          (client_hello_to_bytes client_hello ∷ server_bytes ∷ finish_bytes ∷ [])
    root ←
        derive_session_root64 hashes domain client_hello.client_nonce server_hello.server_nonce
          kem_secret x25519_secret hash kdc_key
    ok (record { transcript_hash = hash; root64 = root })

  -- The checks of the server's hello: its certificate, and its signature under the certificate's key.
  unfoldable pub verify_server :
      Text → ClientHello → ServerHello → Bytes → Text → ℕ → Result (Unit {0})
  verify_server domain client_hello server_hello ca_public_key ca_algorithm now = do
    verify_certificate v domain server_hello.server_certificate ca_public_key ca_algorithm now
    raw ← hello_unsigned_bytes serial server_hello
    message ← build_server_signature_message hashes domain (client_hello_to_bytes client_hello) raw
    public_key ←
        get_public_key serial server_hello.signature_algorithm server_hello.server_certificate
    name ← oqs_signature_name v server_hello.signature_algorithm
    valid ← crypto.verify name message server_hello.signature public_key
    raise_if (not valid) value_error

  -- With what the encapsulation draws.
  unfoldable pub complete_client_handshake :
      Bytes → Text → ClientState → ServerHello → Bytes → Text → ℕ → Option Bytes → Result Completion
  complete_client_handshake draw domain state server_hello ca_public_key ca_algorithm now kdc_key =
      do
        verify_server domain state.client_hello server_hello ca_public_key ca_algorithm now
        shared ←
            crypto.x25519_exchange state.x25519_private_key server_hello.server_x25519_public_key
        kem ← oqs_kem_name v kem_algorithm
        sealed ← crypto.encap_secret kem server_hello.server_ml_kem_public_key draw
        finish ← new_client_finish sealed.0
        established ←
            establish domain state.client_hello server_hello finish sealed.1 shared kdc_key
        commit ← build_commit_payload hashes established.root64 established.transcript_hash
        ok (record { established = established; client_finish = finish; commit = commit })

  unfoldable pub complete_server_handshake :
      Text → ServerState → ClientFinish → Option Bytes → Result Established
  complete_server_handshake domain state client_finish kdc_key = do
    kem ← oqs_kem_name v kem_algorithm
    secret ← crypto.decap_secret kem state.ml_kem_private_key client_finish.ml_kem_ciphertext
    establish domain state.client_hello state.server_hello client_finish secret
        state.x25519_shared_secret kdc_key
