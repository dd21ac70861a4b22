-- ===== src/Session/Keys.antt =====
-- _gn_pq_session.py: the transcript, the messages that are signed, and the key schedule. HKDF and
-- SHA3-512 of the package `cryptography` are parameters.
pub mod Transcript
pub mod Laws
use gnserver.Base.{
  ℕ, ◌+◌, ◌≡◌, ◌≢◌, refl, Bool, true, false, ◌||◌, not, Option, none, some, List, [], ◌∷◌, ◌++◌,
  arith, nat_beq, length, replicate, take, drop, Bytes, Text, codes, Result, ok, raise, raise_if,
  value_error, ◌>>=◌, ◌>>◌, >>=-eq-ok, ◌==◌, list_eq, nat_eq, ==_refl,
}
use gnserver.Base.Utf8.{encode}
use gnserver.Session.{nonce_len, transcript_hash_len, session_root64_len, commit_tag_len}
use gnserver.Session.Wire.{encode_blob}
use gnserver.Session.Messages.{Commit, new_commit}

-- `HKDF(algorithm=SHA3_512(), length, salt, info).derive(key_material)` and the digest. The lengths
-- asked for are constants within HKDF's bound, so that it does not raise.
pub record Hashes : Type 0 where
  pub hkdf : Bytes → ℕ → Bytes → Bytes → Bytes
  pub sha3_512 : Bytes → Bytes
  pub sha3_256 : Bytes → Bytes

-- The documented lengths of the outputs.
pub record HasLengths (h : Hashes) : Type 0 where
  pub length_hkdf : (key : Bytes) (n : ℕ) (salt info : Bytes) → length (h.hkdf key n salt info) ≡ n
  pub length_sha3_512 : (m : Bytes) → length (h.sha3_512 m) ≡ 64

-- The loop of `build_transcript_hash`: a blob for each payload, behind what is there.
unfoldable pub append_blobs : Bytes → List Bytes → Result Bytes
append_blobs transcript [] = ok transcript
append_blobs transcript (payload ∷ payloads) = do
  b ← encode_blob payload
  append_blobs (transcript ++ b) payloads

module _ (h : Hashes) where
  open h use {hkdf, sha3_512}

  unfoldable pub build_domain_binding : Text → Result Bytes
  build_domain_binding domain = do
    name ← encode domain
    ok (hkdf name transcript_hash_len [] (codes "gn:pq:domain-binding:v1"))

  -- The bytes that `build_transcript_hash` hashes.
  unfoldable pub transcript : Text → List Bytes → Result Bytes
  transcript domain payloads = do
    binding ← build_domain_binding domain
    append_blobs binding payloads

  unfoldable pub build_transcript_hash : Text → List Bytes → Result Bytes
  build_transcript_hash domain payloads = do
    t ← transcript domain payloads
    ok (hkdf t transcript_hash_len [] (codes "gn:pq:transcript:v1"))

  unfoldable pub build_server_signature_message : Text → Bytes → Bytes → Result Bytes
  build_server_signature_message domain client_hello server_hello = do
    binding ← build_domain_binding domain
    ok (codes "gn:pq:s1-sign:v2" ++ (binding ++ (sha3_512 client_hello ++ sha3_512 server_hello)))

  unfoldable pub build_client_signature_message :
      Text → Bytes → Bytes → Bytes → Bytes → Result Bytes
  build_client_signature_message domain client_hello server_hello client_finish certificate = do
    binding ← build_domain_binding domain
    ok (
        codes "gn:pq:c1-sign:v1"
        ++ (binding
            ++ (sha3_512 client_hello
                ++ (sha3_512 server_hello ++ (sha3_512 client_finish ++ sha3_512 certificate)))))

  unfoldable pub derive_kdc_mix : Option Bytes → Text → Bytes → Bytes → Result Bytes
  derive_kdc_mix none domain client_nonce server_nonce = ok (replicate session_root64_len 0)
  derive_kdc_mix (some key) domain client_nonce server_nonce = do
    raise_if
        (not (nat_beq (length client_nonce) nonce_len)
          || not (nat_beq (length server_nonce) nonce_len))
        value_error
    binding ← build_domain_binding domain
    ok (
        hkdf key session_root64_len (binding ++ (client_nonce ++ server_nonce))
          (codes "gn:pq:kdc-mix:v1"))

  unfoldable pub derive_session_root64 :
      Text → Bytes → Bytes → Bytes → Bytes → Bytes → Option Bytes → Result Bytes
  derive_session_root64 domain client_nonce server_nonce ml_kem_secret x25519_secret transcript_hash
        kdc_key =
      do
        raise_if
            (not (nat_beq (length client_nonce) nonce_len)
              || not (nat_beq (length server_nonce) nonce_len))
            value_error
        raise_if (not (nat_beq (length transcript_hash) transcript_hash_len)) value_error
        kdc_mix ← derive_kdc_mix kdc_key domain client_nonce server_nonce
        binding ← build_domain_binding domain
        ok (
            hkdf (ml_kem_secret ++ (x25519_secret ++ (kdc_mix ++ transcript_hash)))
              session_root64_len (binding ++ (client_nonce ++ server_nonce))
              (codes "gn:pq:session-root:v1"))

  -- The key of incoming packets and the key of outgoing packets.
  unfoldable pub derive_transport_keys_from_root64 : Bytes → Text → Text → Result (Bytes × Bytes)
  derive_transport_keys_from_root64 root64 local_domain peer_domain = do
    raise_if (not (nat_beq (length root64) session_root64_len)) value_error
    peer ← encode peer_domain
    home ← encode local_domain
    ok (
      hkdf root64 32 (peer ++ home) (codes "gn:DgEncryptor:root64:v1"),
      hkdf root64 32 (home ++ peer) (codes "gn:DgEncryptor:root64:v1"),
    )

  unfoldable pub build_commit_payload : Bytes → Bytes → Result Commit
  unfolding new_commit
  build_commit_payload root64 transcript_hash = do
    raise_if (not (nat_beq (length root64) session_root64_len)) value_error
    raise_if (not (nat_beq (length transcript_hash) transcript_hash_len)) value_error
    new_commit transcript_hash
        (hkdf root64 commit_tag_len transcript_hash (codes "gn:pq:commit:v1"))

  unfoldable pub verify_commit_payload : Bytes → Commit → Result Bool
  verify_commit_payload root64 commit = do
    expected ← build_commit_payload root64 commit.transcript_hash
    ok (expected.commit_tag == commit.commit_tag)
