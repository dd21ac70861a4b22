-- ===== src/Datagram/Encryptor/Seal.antt =====
-- A packet that one end seals is opened at the other end.
use gnserver.Base.{
  ℕ, ◌%◌, ◌^◌, ◌+◌, ◌-◌, ◌≡◌, sym, ap, ◌∙◌, false, Option, some, ◌++◌, arith, ltb, le→ltb, length,
  length-append, take-append, drop-append, slice-append, Bytes, Text, Result, ok, raise_if, not,
  nat_beq, value_error, >>=-eq-ok, codes,
}
use mathlib.Core.List.{append_assoc}
use gnserver.Base.BigEndian.{be_bytes, length-be_bytes}
use gnserver.Base.Utf8.{encode}
use gnserver.Session.{session_root64_len}
use gnserver.Session.Keys.{Hashes, HasLengths, derive_transport_keys_from_root64}
use gnserver.Session.Keys.Laws.{derive_transport_keys-mirrored}
use gnserver.Datagram.Encryptor.{
  Cipher, Encryptor, encrypt, decrypt, confirm, make_nonce, nonce, next_counter, unseal, nonce_of,
  ciphertext_of, tag_of, set_transport_keys, set_session_root64, kept_key,
}

-- AES-OCB with a key of 32 bytes, a nonce of 15 and a tag of 16: it seals every packet, the
-- ciphertext is as long as the packet, and what is sealed is opened with the same key and nonce.
pub record IsCipher (c : Cipher) : Type 0 where
  pub sealed :
      (k n p : Bytes)
      → length k ≡ 32
      → length n ≡ 15
      → (ct : Bytes) × (tag : Bytes) × (c.encrypt_and_digest k n p ≡ ok (ct, tag))
        × (length ct ≡ length p)
        × (length tag ≡ 16)
        × (c.decrypt_and_verify k n ct tag ≡ ok p)

pub length-nonce : (now counter rand2 : ℕ) → length (nonce now counter rand2) ≡ 15
unfolding nonce
length-nonce now counter rand2 =
    let tail = be_bytes 8 counter ++ be_bytes 2 rand2 in
    omega (
      arith,
      length-append (be_bytes 5 (now % 2 ^ 40)) tail,
      length-append (be_bytes 8 counter) (be_bytes 2 rand2),
      length-be_bytes 5 (now % 2 ^ 40),
      length-be_bytes 8 counter,
      length-be_bytes 2 rand2,
    )

-- The three parts of a sealed packet.
parts_of_sealed :
    (n ct tag : Bytes)
    → length n ≡ 15
    → length tag ≡ 16
    → (nonce_of (n ++ (ct ++ tag)) ≡ n)
      × (ciphertext_of (n ++ (ct ++ tag)) ≡ ct)
      × (tag_of (n ++ (ct ++ tag)) ≡ tag)
      × (ltb (length (n ++ (ct ++ tag))) 31 ≡ false)
parts_of_sealed n ct tag hn ht =
    let inner = length-append ct tag in
    let outer = length-append n (ct ++ tag) in
    let ends : length (n ++ (ct ++ tag)) - 16 ≡ length n + length ct = omega arith in
    let joined : length n + length ct ≡ length (n ++ ct) = sym (length-append n ct) in
    (
      take-append 15 n (ct ++ tag) (sym hn),
      slice-append 15 (length (n ++ (ct ++ tag)) - 16) n ct tag (sym hn) ends,
      rw (← append_assoc n ct tag) (
          drop-append (length ((n ++ ct) ++ tag) - 16) (n ++ ct) tag
            (let same = append_assoc n ct tag in rw same (ends ∙ joined))),
      le→ltb (length (n ++ (ct ++ tag))) 31 (omega arith),
    )

unseal_sealed :
    (c : Cipher) (k n ct tag p : Bytes)
    → length n ≡ 15
    → length tag ≡ 16
    → c.decrypt_and_verify k n ct tag ≡ ok p
    → unseal c (some k) (n ++ (ct ++ tag)) ≡ ok p
unseal_sealed c k n ct tag p hn ht opened =
    let (pn, pc, pt, long) = parts_of_sealed n ct tag hn ht in rw (unseal, pn, pc, pt) opened

-- A packet sealed under a key is opened under that key.
pub unseal-encrypt :
    (c : Cipher) (now rand2 : ℕ) (p : Bytes) (s : Encryptor) (k : Bytes)
    → IsCipher c
    → length k ≡ 32
    → s.key_out ≡ some k
    → (packet : Bytes) × ((encrypt c now rand2 p s).1 ≡ ok packet)
      × (unseal c (some k) packet ≡ ok p)
      × (ltb (length packet) 31 ≡ false)
unfolding encrypt make_nonce
unseal-encrypt c now rand2 p s k law hk out =
    let n = nonce now (next_counter s.counter) rand2 in
    let hn = length-nonce now (next_counter s.counter) rand2 in
    let (ct, tag, made, hct, htag, opened) = law.sealed k n p hk hn in
    let (pn, pc, pt, long) = parts_of_sealed n ct tag hn htag in
    (n ++ (ct ++ tag), rw (encrypt, out, made), unseal_sealed c k n ct tag p hn htag opened, long)

pub decrypt_opened :
    (c : Cipher) (packet p : Bytes) (r : Encryptor)
    → ltb (length packet) 31 ≡ false
    → unseal c r.key_in packet ≡ ok p
    → decrypt c packet r ≡ (confirm r, ok p)
unfolding decrypt
decrypt_opened c packet p r long opened = rw (decrypt, long, opened)

-- What one end sends with is what the other end receives with: the packet is opened, and the key
-- is confirmed.
pub decrypt-encrypt :
    (c : Cipher) (now rand2 : ℕ) (p : Bytes) (s r : Encryptor) (k : Bytes)
    → IsCipher c
    → length k ≡ 32
    → s.key_out ≡ some k
    → r.key_in ≡ some k
    → (packet : Bytes) × ((encrypt c now rand2 p s).1 ≡ ok packet)
      × (decrypt c packet r ≡ (confirm r, ok p))
decrypt-encrypt c now rand2 p s r k law hk out inn =
    let (packet, made, opened, long) = unseal-encrypt c now rand2 p s k law hk out in
    (packet, made, decrypt_opened c packet p r long (rw inn opened))

abbrev key_in_of : Encryptor × Result (Unit {0}) → Option Bytes
key_in_of p = p.0.key_in

abbrev key_out_of : Encryptor × Result (Unit {0}) → Option Bytes
key_out_of p = p.0.key_out

length-keys :
    (h : Hashes) (root64 : Bytes) (a b : Text) (keys : Bytes × Bytes)
    → HasLengths h
    → derive_transport_keys_from_root64 h root64 a b ≡ ok keys
    → (length keys.0 ≡ 32) × (length keys.1 ≡ 32)
unfolding derive_transport_keys_from_root64
length-keys h root64 a b keys lengths e =
    let (u, fine, more) =
      >>=-eq-ok (raise_if (not (nat_beq (length root64) session_root64_len)) value_error) _ e in
    let (peer, named, more') = >>=-eq-ok (encode b) _ more in
    let (own, homed, made) = >>=-eq-ok (encode a) _ more' in
    let info = codes "gn:DgEncryptor:root64:v1" in
    let first = lengths.length_hkdf root64 32 (peer ++ own) info in
    let second = lengths.length_hkdf root64 32 (own ++ peer) info in (cc, cc)

-- The keys that a root gives an end with a domain of its own and one of its peer.
pub set_session_root64-keys :
    (h : Hashes) (root64 : Bytes) (a b : Text) (key_in key_out : Bytes) (e : Encryptor)
    → HasLengths h
    → derive_transport_keys_from_root64 h root64 a b ≡ ok (key_in, key_out)
    → set_session_root64 h a root64 b e ≡ (
      record e {
        prev_key_in = kept_key e.key_in e.prev_key_in;
        key_in = some key_in;
        key_out = some key_out;
        session_root64 = some root64;
      },
      ok tt,
    )
unfolding set_session_root64 set_transport_keys
set_session_root64-keys h root64 a b key_in key_out e lengths derived =
    let (hi, ho) = length-keys h root64 a b (key_in, key_out) lengths derived in
    rw (derived, hi, ho)

-- Two ends that set the same root, each with its own domain and the other's, whatever their states
-- before: a packet that the one seals is opened by the other.
pub set_session_root64-decrypt :
    (h : Hashes) (c : Cipher) (root64 : Bytes) (a b : Text) (keys : Bytes × Bytes) (now rand2 : ℕ)
    (p : Bytes) (s r : Encryptor)
    → HasLengths h
    → IsCipher c
    → derive_transport_keys_from_root64 h root64 a b ≡ ok keys
    → (packet : Bytes) × ((encrypt c now rand2 p (set_session_root64 h a root64 b s).0).1
        ≡ ok packet)
      × ((decrypt c packet (set_session_root64 h b root64 a r).0).1 ≡ ok p)
set_session_root64-decrypt h c root64 a b (key_in, key_out) now rand2 p s r lengths law derived =
    let mirrored = derive_transport_keys-mirrored h root64 a b key_in key_out derived in
    let left = set_session_root64-keys h root64 a b key_in key_out s lengths derived in
    let right = set_session_root64-keys h root64 b a key_out key_in r lengths mirrored in
    let (hi, ho) = length-keys h root64 a b (key_in, key_out) lengths derived in
    let (packet, made, opened) =
      decrypt-encrypt c now rand2 p (set_session_root64 h a root64 b s).0
        (set_session_root64 h b root64 a r).0 key_out law ho (ap key_out_of left)
        (ap key_in_of right) in
    (packet, made, ap (λ x. x.1) opened)
