-- ===== src/Session/Messages.antt =====
-- _gn_pq_session.py: GNPQClientHello, GNPQClientFinish and GNPQCommit, the messages of a fixed
-- layout. A constructor runs `__post_init__`, which may raise.
use mathlib.Core.List.{append-nil}
use gnserver.Base.{
  ◌+◌, ◌-◌, ◌<◌, ◌≡◌, ◌↔◌, refl, false, [], ◌++◌, not, arith, nat_beq, length, take, drop, is_empty,
  slice, sym, ap, ◌∙◌, take_all, take-append-drop, take-append, drop-append, length-append,
  length-take, length-drop, Bytes, Result, ok, raise_if, value_error, ◌>>=◌, ◌>>◌, >>=-eq-ok,
}
use gnserver.Base.BigEndian.{IsBytes}
use gnserver.Session.{nonce_len, x25519_public_key_len, transcript_hash_len, commit_tag_len}
use gnserver.Session.Wire.{
  encode_blob, decode_blob, blob, encode_blob-blob, encode_blob-eq-ok, length-blob,
  decode_blob-blob, decode_blob-eq-ok,
}

pub record ClientHello : Type 0 where
  pub client_nonce : Bytes
  pub client_x25519_public_key : Bytes

-- GNPQClientHello(…)
unfoldable pub new_client_hello : Bytes → Bytes → Result ClientHello
new_client_hello nonce key = do
  raise_if (not (nat_beq (length nonce) nonce_len)) value_error
  raise_if (not (nat_beq (length key) x25519_public_key_len)) value_error
  ok (record { client_nonce = nonce; client_x25519_public_key = key })

unfoldable pub client_hello_to_bytes : ClientHello → Bytes
client_hello_to_bytes h = h.client_nonce ++ h.client_x25519_public_key

unfoldable pub client_hello_from_bytes : Bytes → Result ClientHello
unfolding new_client_hello
client_hello_from_bytes payload = do
  raise_if (not (nat_beq (length payload) (nonce_len + x25519_public_key_len))) value_error
  new_client_hello (take nonce_len payload) (drop nonce_len payload)

-- What `__post_init__` lets through.
pub record IsClientHello (h : ClientHello) : Type 0 where
  pub nonce : length h.client_nonce ≡ nonce_len
  pub key : length h.client_x25519_public_key ≡ x25519_public_key_len

-- A payload is accepted exactly if it is the encoding of a valid hello, which is then returned.
pub client_hello_from_bytes_iff :
    (payload : Bytes) (h : ClientHello)
    → (client_hello_from_bytes payload ≡ ok h)
      ↔ (IsClientHello h × (client_hello_to_bytes h ≡ payload))
unfolding client_hello_from_bytes client_hello_to_bytes
client_hello_from_bytes_iff payload h = (
  λ e. ground (arith, length-take 32 payload, length-drop 32 payload, take-append-drop 32 payload),
  λ v. rw (← v.1) (accepted v.0),
)
  where
    accepted :
        IsClientHello h
        → client_hello_from_bytes (h.client_nonce ++ h.client_x25519_public_key) ≡ ok h
    accepted v = ground (
      arith,
      length-append h.client_nonce h.client_x25519_public_key,
      take-append 32 h.client_nonce h.client_x25519_public_key,
      drop-append 32 h.client_nonce h.client_x25519_public_key,
    )

pub record ClientFinish : Type 0 where
  pub ml_kem_ciphertext : Bytes

-- GNPQClientFinish(…)
unfoldable pub new_client_finish : Bytes → Result ClientFinish
new_client_finish ciphertext = do
  raise_if (is_empty ciphertext) value_error
  ok (record { ml_kem_ciphertext = ciphertext })

unfoldable pub client_finish_to_bytes : ClientFinish → Result Bytes
client_finish_to_bytes f = encode_blob f.ml_kem_ciphertext

unfoldable pub client_finish_from_bytes : Bytes → Result ClientFinish
unfolding new_client_finish
client_finish_from_bytes payload = do
  (ciphertext, offset) ← decode_blob payload 0
  raise_if (not (nat_beq offset (length payload))) value_error
  new_client_finish ciphertext

client_finish_of_blob :
    (f : ClientFinish)
    → is_empty f.ml_kem_ciphertext ≡ false
    → length f.ml_kem_ciphertext < 0x10000
    → client_finish_from_bytes (blob f.ml_kem_ciphertext) ≡ ok f
unfolding client_finish_from_bytes
client_finish_of_blob f full small =
    let v = f.ml_kem_ciphertext in
    let read : decode_blob (blob v) 0 ≡ ok (v, 0 + 2 + length v) =
      rw append-nil at (decode_blob-blob [] v [] 0 small refl) in
    rw read (ground (arith, length-blob v))

-- A payload is accepted exactly if it is the encoding of a finish with a ciphertext in it.
pub client_finish_from_bytes_iff :
    (payload : Bytes) (f : ClientFinish)
    → IsBytes payload
    → (client_finish_from_bytes payload ≡ ok f)
      ↔ ((is_empty f.ml_kem_ciphertext ≡ false) × (client_finish_to_bytes f ≡ ok payload))
unfolding client_finish_from_bytes client_finish_to_bytes
client_finish_from_bytes_iff payload f b = (
  accepted,
  λ v.
      let (small, shape) = encode_blob-eq-ok f.ml_kem_ciphertext payload v.1 in
      rw shape (client_finish_of_blob f v.0 small),
)
  where
    accepted :
        client_finish_from_bytes payload ≡ ok f
        → (is_empty f.ml_kem_ciphertext ≡ false) × (client_finish_to_bytes f ≡ ok payload)
    accepted e =
        let ((v, stop), read, rest) = >>=-eq-ok (decode_blob payload 0) _ e in
        let (part, at, fits, small) = decode_blob-eq-ok payload v 0 stop b read in
        let whole : stop ≡ length payload = ground arith in
        let same : f.ml_kem_ciphertext ≡ v = ground arith in
        let all : slice 0 stop payload ≡ payload = take_all (stop - 0) payload (omega arith) in
        (ground arith, rw same (encode_blob-blob v small ∙ ap ok (sym part ∙ all)))

pub record Commit : Type 0 where
  pub transcript_hash : Bytes
  pub commit_tag : Bytes

-- GNPQCommit(…)
unfoldable pub new_commit : Bytes → Bytes → Result Commit
new_commit hash tag = do
  raise_if (not (nat_beq (length hash) transcript_hash_len)) value_error
  raise_if (not (nat_beq (length tag) commit_tag_len)) value_error
  ok (record { transcript_hash = hash; commit_tag = tag })

unfoldable pub commit_to_bytes : Commit → Bytes
commit_to_bytes c = c.transcript_hash ++ c.commit_tag

unfoldable pub commit_from_bytes : Bytes → Result Commit
unfolding new_commit
commit_from_bytes payload = do
  raise_if (not (nat_beq (length payload) (transcript_hash_len + commit_tag_len))) value_error
  new_commit (take transcript_hash_len payload) (drop transcript_hash_len payload)

pub record IsCommit (c : Commit) : Type 0 where
  pub hash : length c.transcript_hash ≡ transcript_hash_len
  pub tag : length c.commit_tag ≡ commit_tag_len

new_commit-eq-ok :
    (hash tag : Bytes) (c : Commit)
    → new_commit hash tag ≡ ok c
    → IsCommit c × (c.transcript_hash ≡ hash) × (c.commit_tag ≡ tag)
unfolding new_commit
new_commit-eq-ok hash tag c h = ground arith

-- A payload is accepted exactly if it is the encoding of a valid commit, which is then returned.
pub commit_from_bytes_iff :
    (payload : Bytes) (c : Commit)
    → (commit_from_bytes payload ≡ ok c) ↔ (IsCommit c × (commit_to_bytes c ≡ payload))
unfolding commit_from_bytes commit_to_bytes
commit_from_bytes_iff payload c = (
  λ e.
      let (u, _, made) =
        >>=-eq-ok (raise_if (not (nat_beq (length payload) 96)) value_error)
          (λ _. new_commit (take 64 payload) (drop 64 payload)) e in
      let (v, hash, tag) = new_commit-eq-ok (take 64 payload) (drop 64 payload) c made in
      (v, rw (hash, tag) (take-append-drop 64 payload)),
  λ v. rw (← v.1) (accepted v.0),
)
  where
    accepted : IsCommit c → commit_from_bytes (c.transcript_hash ++ c.commit_tag) ≡ ok c
    accepted v =
        let size : length (c.transcript_hash ++ c.commit_tag) ≡ 96 =
          omega (arith, length-append c.transcript_hash c.commit_tag) in
        rw (
          size,
          take-append 64 c.transcript_hash c.commit_tag (sym v.hash),
          drop-append 64 c.transcript_hash c.commit_tag (sym v.hash),
          v.hash,
          v.tag,
        )
