-- ===== src/Session/Handshake/Agreement.antt =====
-- The two sides of a handshake end with the same transcript and the same root.
use gnserver.Base.{
  ℕ, ◌≡◌, refl, sym, ap, ◌∙◌, true, Option, none, some, not, Bytes, Text, ok, raise, raise_if,
  value_error, >>=-eq-ok, is_empty, nat_beq, length, ok-injective, list_eq, nat_eq,
}
use gnserver.Base.Dict.{get}
use gnserver.Session.{nonce_len, x25519_public_key_len}
use gnserver.Session.Messages.{
  ClientHello, ClientFinish, Commit, new_client_hello, new_client_finish, client_hello_to_bytes,
}
use gnserver.Session.Keys.{
  build_server_signature_message, build_commit_payload, verify_commit_payload,
}
use gnserver.Session.Keys.Laws.{verify_commit_payload_iff, hash-build_commit_payload}
use gnserver.Session.Certificate.{ServerHello, new_server_hello, hello_unsigned_bytes}
use gnserver.Session.Handshake.{
  Crypto, Env, Identity, ClientState, ServerState, Established, Completion, oqs_kem_name,
  draft_hello, sign_hello, check_identity, build_client_handshake, build_server_handshake,
  establish, verify_server, complete_client_handshake, complete_server_handshake,
}
use gnserver.Session.Names.{kem_algorithm}

-- X25519 and the KEM give both sides the same secret.
pub record IsAgreement (c : Crypto) : Type 0 where
  pub exchanged :
      (a b s : Bytes)
      → c.x25519_exchange a (c.x25519_public b) ≡ ok s
      → c.x25519_exchange b (c.x25519_public a) ≡ ok s
  pub decapsulated :
      (name seed draw ct s : Bytes)
      → c.encap_secret name (c.kem_keypair name seed).0 draw ≡ ok (ct, s)
      → c.decap_secret name (c.kem_keypair name seed).1 ct ≡ ok s

-- What a server's state holds.
pub record IsServerState (v : Env) (seed private_key : Bytes) (hello : ClientHello)
    (s : ServerState) : Type 0 where
  pub hello_eq : s.client_hello ≡ hello
  pub kem : Bytes
  pub kem_eq : oqs_kem_name v kem_algorithm ≡ ok kem
  pub public_eq : s.server_hello.server_ml_kem_public_key ≡ (v.crypto.kem_keypair kem seed).0
  pub private_eq : s.ml_kem_private_key ≡ (v.crypto.kem_keypair kem seed).1
  pub x25519_eq : s.server_hello.server_x25519_public_key ≡ v.crypto.x25519_public private_key
  pub shared_eq :
      v.crypto.x25519_exchange private_key hello.client_x25519_public_key
      ≡ ok s.x25519_shared_secret

same_hello : (h k : ServerHello) → new_server_hello h ≡ ok k → h ≡ k
unfolding new_server_hello
same_hello h k e =
    let (u1, e1, m1) =
      >>=-eq-ok (raise_if (not (nat_beq (length h.server_nonce) nonce_len)) value_error) _ e in
    let (u2, e2, m2) =
      >>=-eq-ok
        (raise_if (not (nat_beq (length h.server_x25519_public_key) x25519_public_key_len))
          value_error)
        _ m1 in
    let (u3, e3, m3) =
      >>=-eq-ok (raise_if (is_empty h.server_ml_kem_public_key) value_error) _ m2 in
    let (u4, e4, m4) = >>=-eq-ok (raise_if (is_empty h.signature_algorithm) value_error) _ m3 in cc

keys-sign_hello :
    (v : Env) (domain : Text) (identity : Identity) (hello : ClientHello) (algorithm oqs : Text)
    (h k : ServerHello)
    → sign_hello v domain identity hello algorithm oqs h ≡ ok k
    → (k.server_ml_kem_public_key ≡ h.server_ml_kem_public_key)
      × (k.server_x25519_public_key ≡ h.server_x25519_public_key)
unfolding sign_hello
keys-sign_hello v domain identity hello algorithm oqs h k e =
    let (raw, e1, m1) = >>=-eq-ok (hello_unsigned_bytes v.serial h) _ e in
    let (message, e2, m2) =
      >>=-eq-ok (build_server_signature_message v.hashes domain (client_hello_to_bytes hello) raw) _
        m1 in
    let (key, e3, m3) =
      >>=-eq-ok {S = Bytes}
        (elim (get algorithm identity.private_keys) [ none ↦ raise value_error | some k ↦ ok k ]) _
        m2 in
    let (signature, e4, m4) = >>=-eq-ok (v.crypto.sign oqs key message) _ m3 in
    let same = same_hello (record h { signature = signature }) k m4 in
    (
      sym (ap (λ x. x.server_ml_kem_public_key) same),
      sym (ap (λ x. x.server_x25519_public_key) same),
    )

built_server :
    (v : Env) (seed private_key nonce : Bytes) (domain : Text) (identity : Identity)
    (hello : ClientHello) (names : Text × Text) (kem shared : Bytes) (unsigned signed : ServerHello)
    → oqs_kem_name v kem_algorithm ≡ ok kem
    → v.crypto.x25519_exchange private_key hello.client_x25519_public_key ≡ ok shared
    → new_server_hello (draft_hello v seed private_key nonce names.0 identity kem) ≡ ok unsigned
    → sign_hello v domain identity hello names.0 names.1 unsigned ≡ ok signed
    → IsServerState v seed private_key hello (record {
      client_hello = hello;
      server_hello = signed;
      ml_kem_private_key = (v.crypto.kem_keypair kem seed).1;
      x25519_shared_secret = shared;
    })
built_server v seed private_key nonce domain identity hello names kem shared unsigned signed e2 e3
      e4 e5 =
    let same = same_hello (draft_hello v seed private_key nonce names.0 identity kem) unsigned e4 in
    let (kem_key, x_key) =
      keys-sign_hello v domain identity hello names.0 names.1 unsigned signed e5 in
    record {
      hello_eq = refl;
      kem = kem;
      kem_eq = e2;
      public_eq = kem_key ∙ sym (ap (λ x. x.server_ml_kem_public_key) same);
      private_eq = refl;
      x25519_eq = x_key ∙ sym (ap (λ x. x.server_x25519_public_key) same);
      shared_eq = e3;
    }

build_server-IsServerState :
    (v : Env) (seed private_key nonce : Bytes) (domain : Text) (identity : Identity)
    (hello : ClientHello) (s : ServerState)
    → build_server_handshake v seed private_key nonce domain identity hello ≡ ok s
    → IsServerState v seed private_key hello s
unfolding build_server_handshake
build_server-IsServerState v seed private_key nonce domain identity hello s e =
    let (names, e1, m1) = >>=-eq-ok (check_identity v domain identity) _ e in
    let (kem, e2, m2) = >>=-eq-ok (oqs_kem_name v kem_algorithm) _ m1 in
    let (shared, e3, m3) =
      >>=-eq-ok (v.crypto.x25519_exchange private_key hello.client_x25519_public_key) _ m2 in
    let (unsigned, e4, m4) =
      >>=-eq-ok (new_server_hello (draft_hello v seed private_key nonce names.0 identity kem)) _
        m3 in
    let (signed, e5, m5) =
      >>=-eq-ok (sign_hello v domain identity hello names.0 names.1 unsigned) _ m4 in
    let built = ok-injective m5 in
    rw (← built) (
      built_server v seed private_key nonce domain identity hello names kem shared unsigned signed
        e2 e3 e4 e5)

-- A client's state, and what its completion went through.
pub record IsCompletion (v : Env) (draw : Bytes) (domain : Text) (state : ClientState)
    (hello : ServerHello) (kdc_key : Option Bytes) (c : Completion) : Type 0 where
  pub shared : Bytes
  pub exchange_eq :
      v.crypto.x25519_exchange state.x25519_private_key hello.server_x25519_public_key ≡ ok shared
  pub kem : Bytes
  pub kem_eq : oqs_kem_name v kem_algorithm ≡ ok kem
  pub secret : Bytes
  pub encap_eq :
      v.crypto.encap_secret kem hello.server_ml_kem_public_key draw
      ≡ ok (c.client_finish.ml_kem_ciphertext, secret)
  pub establish_eq :
      establish v domain state.client_hello hello c.client_finish secret shared kdc_key
      ≡ ok c.established
  pub commit_eq :
      build_commit_payload v.hashes c.established.root64 c.established.transcript_hash ≡ ok c.commit

ciphertext-new_client_finish :
    (ct : Bytes) (f : ClientFinish) → new_client_finish ct ≡ ok f → f.ml_kem_ciphertext ≡ ct
unfolding new_client_finish
ciphertext-new_client_finish ct f e =
    let (u, e1, m1) = >>=-eq-ok (raise_if (is_empty ct) value_error) _ e in cc

completed :
    (v : Env) (draw : Bytes) (domain : Text) (state : ClientState) (hello : ServerHello)
    (kdc_key : Option Bytes) (shared kem ct secret : Bytes) (finish : ClientFinish)
    (est : Established) (commit : Commit)
    → v.crypto.x25519_exchange state.x25519_private_key hello.server_x25519_public_key ≡ ok shared
    → oqs_kem_name v kem_algorithm ≡ ok kem
    → v.crypto.encap_secret kem hello.server_ml_kem_public_key draw ≡ ok (ct, secret)
    → new_client_finish ct ≡ ok finish
    → establish v domain state.client_hello hello finish secret shared kdc_key ≡ ok est
    → build_commit_payload v.hashes est.root64 est.transcript_hash ≡ ok commit
    → IsCompletion v draw domain state hello kdc_key
        (record { established = est; client_finish = finish; commit = commit })
completed v draw domain state hello kdc_key shared kem ct secret finish est commit e2 e3 e4 e5 e6
      e7 =
    record {
      shared = shared;
      exchange_eq = e2;
      kem = kem;
      kem_eq = e3;
      secret = secret;
      encap_eq = rw (ciphertext-new_client_finish ct finish e5) e4;
      establish_eq = e6;
      commit_eq = e7;
    }

complete_client-IsCompletion :
    (v : Env) (draw : Bytes) (domain : Text) (state : ClientState) (hello : ServerHello)
    (ca_key : Bytes) (ca_algorithm : Text) (now : ℕ) (kdc_key : Option Bytes) (c : Completion)
    → complete_client_handshake v draw domain state hello ca_key ca_algorithm now kdc_key ≡ ok c
    → IsCompletion v draw domain state hello kdc_key c
unfolding complete_client_handshake
complete_client-IsCompletion v draw domain state hello ca_key ca_algorithm now kdc_key c e =
    let (u, e1, m1) =
      >>=-eq-ok (verify_server v domain state.client_hello hello ca_key ca_algorithm now) _ e in
    let (shared, e2, m2) =
      >>=-eq-ok (v.crypto.x25519_exchange state.x25519_private_key hello.server_x25519_public_key) _
        m1 in
    let (kem, e3, m3) = >>=-eq-ok (oqs_kem_name v kem_algorithm) _ m2 in
    let ((ct, secret), e4, m4) =
      >>=-eq-ok (v.crypto.encap_secret kem hello.server_ml_kem_public_key draw) _ m3 in
    let (finish, e5, m5) = >>=-eq-ok (new_client_finish ct) _ m4 in
    let (est, e6, m6) =
      >>=-eq-ok (establish v domain state.client_hello hello finish secret shared kdc_key) _ m5 in
    let (commit, e7, m7) =
      >>=-eq-ok (build_commit_payload v.hashes est.root64 est.transcript_hash) _ m6 in
    let built : c ≡ record { established = est; client_finish = finish; commit = commit } = cc in
    rw built (
      completed v draw domain state hello kdc_key shared kem ct secret finish est commit e2 e3 e4 e5
        e6 e7)

-- A client's state has the public key of its private key in its hello.
build_client-IsClientState :
    (v : Env) (key nonce : Bytes) (s : ClientState)
    → build_client_handshake v key nonce ≡ ok s
    → (s.x25519_private_key ≡ key)
      × (s.client_hello.client_x25519_public_key ≡ v.crypto.x25519_public key)
unfolding build_client_handshake new_client_hello
build_client-IsClientState v key nonce s e =
    let public = v.crypto.x25519_public key in
    let (hello, e1, m1) = >>=-eq-ok (new_client_hello nonce public) _ e in
    let (u2, e2, m2) =
      >>=-eq-ok (raise_if (not (nat_beq (length nonce) nonce_len)) value_error) _ e1 in
    let (u3, e3, m3) =
      >>=-eq-ok (raise_if (not (nat_beq (length public) x25519_public_key_len)) value_error) _ m2 in
    (cc, cc)

server_side :
    (v : Env) (client_key seed server_key draw : Bytes) (domain : Text) (client : ClientState)
    (server : ServerState) (kdc_key : Option Bytes) (c : Completion)
    → IsAgreement v.crypto
    → (client.x25519_private_key ≡ client_key)
      × (client.client_hello.client_x25519_public_key ≡ v.crypto.x25519_public client_key)
    → IsServerState v seed server_key client.client_hello server
    → IsCompletion v draw domain client server.server_hello kdc_key c
    → complete_server_handshake v domain server c.client_finish kdc_key ≡ ok c.established
unfolding complete_server_handshake
server_side v client_key seed server_key draw domain client server kdc_key c law cs ss done =
    let ct = c.client_finish.ml_kem_ciphertext in
    let (ck, cp) = cs in
    let kem_name = ss.kem_eq in
    let kem_name' = done.kem_eq in
    let kem_same : ss.kem ≡ done.kem = cc in
    let public = ss.public_eq in
    let private = ss.private_eq in
    let sealed = done.encap_eq in
    let enc : v.crypto.encap_secret ss.kem (v.crypto.kem_keypair ss.kem seed).0 draw
        ≡ ok (ct, done.secret) =
      cc in
    let dec = law.decapsulated ss.kem seed draw ct done.secret enc in
    let dec' : v.crypto.decap_secret done.kem server.ml_kem_private_key ct ≡ ok done.secret = cc in
    let from_client = done.exchange_eq in
    let server_public = ss.x25519_eq in
    let ex : v.crypto.x25519_exchange client_key (v.crypto.x25519_public server_key)
        ≡ ok done.shared =
      cc in
    let ex' = law.exchanged client_key server_key done.shared ex in
    let from_server = ss.shared_eq in
    let shared_same : server.x25519_shared_secret ≡ done.shared = cc in
    rw (complete_server_handshake, done.kem_eq, dec', ss.hello_eq, shared_same) done.establish_eq

commit_accepted :
    (v : Env) (c : Completion)
    → build_commit_payload v.hashes c.established.root64 c.established.transcript_hash ≡ ok c.commit
    → verify_commit_payload v.hashes c.established.root64 c.commit ≡ ok true
commit_accepted v c built =
    let same =
      hash-build_commit_payload v.hashes c.established.root64 c.established.transcript_hash c.commit
        built in
    (verify_commit_payload_iff v.hashes c.established.root64 c.commit).1
      (ap (build_commit_payload v.hashes c.established.root64) same ∙ built)

-- A client and a server that use the same domain and the same KDC key, or none: where the client's
-- side ends, for the server's hello, the server's side ends too, with the same transcript hash and
-- the same root, and it accepts the client's commit.
pub complete_server-complete_client :
    (v : Env) (client_key client_nonce seed server_key server_nonce draw : Bytes) (domain : Text)
    (identity : Identity) (client : ClientState) (server : ServerState) (ca_key : Bytes)
    (ca_algorithm : Text) (now : ℕ) (kdc_key : Option Bytes) (c : Completion)
    → IsAgreement v.crypto
    → build_client_handshake v client_key client_nonce ≡ ok client
    → build_server_handshake v seed server_key server_nonce domain identity client.client_hello
      ≡ ok server
    → complete_client_handshake v draw domain client server.server_hello ca_key ca_algorithm now
        kdc_key
      ≡ ok c
    → (complete_server_handshake v domain server c.client_finish kdc_key ≡ ok c.established)
      × (verify_commit_payload v.hashes c.established.root64 c.commit ≡ ok true)
complete_server-complete_client v client_key client_nonce seed server_key server_nonce draw domain
      identity client server ca_key ca_algorithm now kdc_key c law built_client built_server done =
    let cs = build_client-IsClientState v client_key client_nonce client built_client in
    let ss =
      build_server-IsServerState v seed server_key server_nonce domain identity client.client_hello
        server built_server in
    let cc' =
      complete_client-IsCompletion v draw domain client server.server_hello ca_key ca_algorithm now
        kdc_key c done in
    (
      server_side v client_key seed server_key draw domain client server kdc_key c law cs ss cc',
      commit_accepted v c cc'.commit_eq,
    )
