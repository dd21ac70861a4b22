-- ===== src/Session/Certificate/Hello.antt =====
-- Certificates and server hellos are read back as they were written.
use mathlib.Core.List.{append_assoc, append-nil}
use gnserver.Base.{
  ℕ, ◌+◌, ◌<◌, ◌≤◌, ◌≡◌, refl, sym, ap, ◌∙◌, true, false, some, [], ◌++◌, arith, nat_beq,
  nat_beq_iff, ltb, le→ltb, is_empty, length, slice, slice-append, length-append, Bytes, Text,
  codes, Result, ok, raise_if, value_error, ◌>>=◌, ◌>>◌, >>=-eq-ok,
}
use gnserver.Base.Utf8.{encode}
use gnserver.Base.Int.{is_negative}
use gnserver.Session.Wire.{
  encode_blob, decode_blob, encode_text, decode_text, blob, decode_blob-blob, encode_blob-eq-ok,
  decode_text-encode_text, length-blob,
}
use gnserver.Session.Certificate.{
  Value, Fields, Serial, Certificate, ServerHello, find, from_dict, as_dict, as_bytes, as_str,
  as_int, as_datetime, no_fields, read_keys, new_certificate, normalize_public_keys, signed_dict,
  data_of, certificate_to_bytes, certificate_from_bytes, new_server_hello, hello_unsigned_bytes,
  hello_to_bytes, hello_from_bytes,
}

-- The part of `from_dict` that reads the data, for a signature.
read_data : Serial → Fields → Bytes → Result Certificate
read_data s inner signature = do
  center_domain ← as_str (find (codes "c") inner)
  raise_if (is_empty center_domain) value_error
  version ← as_int (find (codes "c_v") inner)
  raise_if (is_negative version) value_error
  name ← as_str (find (codes "domain") inner)
  raise_if (is_empty name) value_error
  algs ← as_dict (find (codes "algs") inner)
  raise_if (no_fields algs) value_error
  expires_at ← as_datetime (find (codes "exp") inner)
  keys ← read_keys algs
  new_certificate s (record {
    center_domain = center_domain;
    center_key_version = version;
    name = name;
    public_keys = keys;
    expires_at = expires_at;
    signature = signature;
    source_data = some inner;
  })

new_certificate-source :
    (s : Serial) (c c' : Certificate)
    → new_certificate s c ≡ ok c'
    → (c'.source_data ≡ c.source_data) × (c'.signature ≡ c.signature)
unfolding new_certificate
new_certificate-source s c c' e =
    let (u1, e1, m1) = >>=-eq-ok (raise_if (is_empty c.center_domain) value_error) _ e in
    let (u2, e2, m2) = >>=-eq-ok (raise_if (is_negative c.center_key_version) value_error) _ m1 in
    let (u3, e3, m3) = >>=-eq-ok (raise_if (is_empty c.name) value_error) _ m2 in
    let (keys, e4, m4) = >>=-eq-ok (normalize_public_keys s c.public_keys []) _ m3 in
    let (u5, e5, m5) = >>=-eq-ok (raise_if (is_empty keys) value_error) _ m4 in (cc, cc)

read_data-source :
    (s : Serial) (inner : Fields) (signature : Bytes) (c : Certificate)
    → read_data s inner signature ≡ ok c
    → (c.source_data ≡ some inner) × (c.signature ≡ signature)
unfolding read_data
read_data-source s inner signature c e =
    let (d, e1, m1) = >>=-eq-ok (as_str (find (codes "c") inner)) _ e in
    let (u2, e2, m2) = >>=-eq-ok (raise_if (is_empty d) value_error) _ m1 in
    let (v, e3, m3) = >>=-eq-ok (as_int (find (codes "c_v") inner)) _ m2 in
    let (u4, e4, m4) = >>=-eq-ok (raise_if (is_negative v) value_error) _ m3 in
    let (n, e5, m5) = >>=-eq-ok (as_str (find (codes "domain") inner)) _ m4 in
    let (u6, e6, m6) = >>=-eq-ok (raise_if (is_empty n) value_error) _ m5 in
    let (algs, e7, m7) = >>=-eq-ok (as_dict (find (codes "algs") inner)) _ m6 in
    let (u8, e8, m8) = >>=-eq-ok (raise_if (no_fields algs) value_error) _ m7 in
    let (t, e9, m9) = >>=-eq-ok (as_datetime (find (codes "exp") inner)) _ m8 in
    let (keys, e10, m10) = >>=-eq-ok (read_keys algs) _ m9 in new_certificate-source s _ c m10

from_dict-read_data :
    (s : Serial) (v : Value) (c : Certificate)
    → from_dict s v ≡ ok c
    → (inner : Fields) × (signature : Bytes) × (read_data s inner signature ≡ ok c)
unfolding from_dict read_data
from_dict-read_data s v c e =
    let (fields, e1, m1) = >>=-eq-ok (as_dict v) _ e in
    let (inner, e2, m2) = >>=-eq-ok (as_dict (find (codes "data") fields)) _ m1 in
    let (signature, e3, m3) = >>=-eq-ok (as_bytes (find (codes "sign") fields)) _ m2 in
    (inner, signature, m3)

from_dict_of_data :
    (s : Serial) (inner : Fields) (c : Certificate)
    → c.source_data ≡ some inner
    → from_dict s (signed_dict c) ≡ read_data s inner c.signature
unfolding from_dict read_data signed_dict find data_of
from_dict_of_data s inner c e = rw (from_dict, signed_dict, data_of, e)

-- A certificate that was read from a peer's dictionary is read again, from what `to_bytes`
-- serializes, as itself.
pub from_dict-signed_dict :
    (s : Serial) (v : Value) (c : Certificate)
    → from_dict s v ≡ ok c
    → from_dict s (signed_dict c) ≡ ok c
from_dict-signed_dict s v c e =
    let (inner, signature, read) = from_dict-read_data s v c e in
    let (source, same) = read_data-source s inner signature c read in
    from_dict_of_data s inner c source ∙ ap (read_data s inner) same ∙ read

-- What `__post_init__` of a hello lets through.
pub record IsServerHello (h : ServerHello) : Type 0 where
  pub nonce : length h.server_nonce ≡ 32
  pub key : length h.server_x25519_public_key ≡ 32
  pub kem : is_empty h.server_ml_kem_public_key ≡ false
  pub algorithm : is_empty h.signature_algorithm ≡ false

pub new_server_hello-IsServerHello : (h : ServerHello) → IsServerHello h → new_server_hello h ≡ ok h
unfolding new_server_hello
new_server_hello-IsServerHello h v = simp (new_server_hello, v.nonce, v.key, v.kem, v.algorithm)

hello_of_steps :
    (s : Serial) (h : ServerHello) (payload raw : Bytes) (cert : Certificate) (o1 o2 o3 o4 : ℕ)
    → IsServerHello h
    → ltb (length payload) 72 ≡ false
    → decode_blob payload 64 ≡ ok (h.server_ml_kem_public_key, o1)
    → decode_text payload o1 ≡ ok (h.signature_algorithm, o2)
    → decode_blob payload o2 ≡ ok (raw, o3)
    → certificate_from_bytes s raw ≡ ok cert
    → decode_blob payload o3 ≡ ok (h.signature, o4)
    → o4 ≡ length payload
    → slice 0 32 payload ≡ h.server_nonce
    → slice 32 64 payload ≡ h.server_x25519_public_key
    → hello_from_bytes s payload ≡ ok (record h { server_certificate = cert })
unfolding hello_from_bytes
hello_of_steps s h payload raw cert o1 o2 o3 o4 valid long d1 d2 d3 dc d4 all_read n x =
    let end : nat_beq o4 (length payload) ≡ true = (nat_beq_iff o4 (length payload)).1 all_read in
    let valid' : IsServerHello (record h { server_certificate = cert }) = record {
      nonce = valid.nonce;
      key = valid.key;
      kem = valid.kem;
      algorithm = valid.algorithm;
    } in
    rw (hello_from_bytes, long, d1, d2, d3, dc, d4, end, n, x)
      (new_server_hello-IsServerHello (record h { server_certificate = cert }) valid')

length-encode_text : (t : Text) (b : Bytes) → encode_text t ≡ ok b → 2 ≤ length b
unfolding encode_text
length-encode_text t b e =
    let (u, eu, more) = >>=-eq-ok (encode t) _ e in
    let (small, shape) = encode_blob-eq-ok u b more in rw shape (omega (arith, length-blob u))

-- The six parts of an encoded hello are read one behind the other.
read_parts :
    (s : Serial) (h : ServerHello) (raw b2 : Bytes) (cert : Certificate)
    → IsServerHello h
    → length h.server_ml_kem_public_key < 0x10000
    → encode_text h.signature_algorithm ≡ ok b2
    → length raw < 0x10000
    → length h.signature < 0x10000
    → certificate_from_bytes s raw ≡ ok cert
    → hello_from_bytes s (
        h.server_nonce
        ++ (h.server_x25519_public_key
            ++ (blob h.server_ml_kem_public_key ++ (b2 ++ (blob raw ++ blob h.signature)))))
      ≡ ok (record h { server_certificate = cert })
read_parts s h raw b2 cert valid hk ht hr hs hc =
    let vn = valid.nonce in
    let vk = valid.key in
    let n = h.server_nonce in
    let x = h.server_x25519_public_key in
    let b1 = blob h.server_ml_kem_public_key in
    let b3 = blob raw in
    let b4 = blob h.signature in
    let payload = n ++ (x ++ (b1 ++ (b2 ++ (b3 ++ b4)))) in
    let l0 = length-append n (x ++ (b1 ++ (b2 ++ (b3 ++ b4)))) in
    let l1 = length-append x (b1 ++ (b2 ++ (b3 ++ b4))) in
    let l2 = length-append b1 (b2 ++ (b3 ++ b4)) in
    let l3 = length-append b2 (b3 ++ b4) in
    let l4 = length-append b3 b4 in
    let k2 = length-encode_text h.signature_algorithm b2 ht in
    let k1 = length-blob h.server_ml_kem_public_key in
    let k3 = length-blob raw in
    let k4 = length-blob h.signature in
    let m1 = length-append n x in
    let m2 = length-append (n ++ x) b1 in
    let m3 = length-append ((n ++ x) ++ b1) b2 in
    let m4 = length-append (((n ++ x) ++ b1) ++ b2) b3 in
    let s1 : payload ≡ (n ++ x) ++ (b1 ++ (b2 ++ (b3 ++ b4))) = simp append_assoc in
    let s2 : payload ≡ ((n ++ x) ++ b1) ++ (b2 ++ (b3 ++ b4)) = simp append_assoc in
    let s3 : payload ≡ (((n ++ x) ++ b1) ++ b2) ++ (b3 ++ b4) = simp append_assoc in
    let s4 : payload ≡ ((((n ++ x) ++ b1) ++ b2) ++ b3) ++ (b4 ++ []) =
      simp (append_assoc, append-nil) in
    let o1 = 64 + 2 + length h.server_ml_kem_public_key in
    let d1 : decode_blob payload 64 ≡ ok (h.server_ml_kem_public_key, o1) = rw s1 (
      decode_blob-blob (n ++ x) h.server_ml_kem_public_key (b2 ++ (b3 ++ b4)) 64 hk
        (omega arith)) in
    let o2 = o1 + length b2 in
    let d2 : decode_text payload o1 ≡ ok (h.signature_algorithm, o2) = rw s2 (
      decode_text-encode_text ((n ++ x) ++ b1) b2 (b3 ++ b4) h.signature_algorithm o1 ht
        (omega arith)) in
    let o3 = o2 + 2 + length raw in
    let d3 : decode_blob payload o2 ≡ ok (raw, o3) =
      rw s3 (decode_blob-blob (((n ++ x) ++ b1) ++ b2) raw b4 o2 hr (omega arith)) in
    let d4 : decode_blob payload o3 ≡ ok (h.signature, o3 + 2 + length h.signature) =
      rw s4
        (decode_blob-blob ((((n ++ x) ++ b1) ++ b2) ++ b3) h.signature [] o3 hs (omega arith)) in
    hello_of_steps s h payload raw cert o1 o2 o3 (o3 + 2 + length h.signature) valid
      (le→ltb (length payload) 72 (omega arith)) d1 d2 d3 hc d4 (omega arith)
      (slice-append 0 32 [] n (x ++ (b1 ++ (b2 ++ (b3 ++ b4)))) refl (omega arith))
      (slice-append 32 64 n x (b1 ++ (b2 ++ (b3 ++ b4))) (sym vn) (omega arith))

-- What a server writes for a valid hello, a client reads as that hello, with the certificate that
-- it reads from the certificate's own bytes.
pub hello_from_bytes-hello_to_bytes :
    (s : Serial) (h : ServerHello) (b : Bytes) (cert : Certificate)
    → IsServerHello h
    → hello_to_bytes s h ≡ ok b
    → certificate_from_bytes s (certificate_to_bytes s h.server_certificate) ≡ ok cert
    → hello_from_bytes s b ≡ ok (record h { server_certificate = cert })
unfolding hello_to_bytes hello_unsigned_bytes
hello_from_bytes-hello_to_bytes s h b cert valid written read =
    let raw = certificate_to_bytes s h.server_certificate in
    let (unsigned, first, more) = >>=-eq-ok (hello_unsigned_bytes s h) _ written in
    let (b4, fourth, whole) = >>=-eq-ok (encode_blob h.signature) _ more in
    let (b1, one, more1) = >>=-eq-ok (encode_blob h.server_ml_kem_public_key) _ first in
    let (b2, two, more2) = >>=-eq-ok (encode_text h.signature_algorithm) _ more1 in
    let (b3, three, joined) = >>=-eq-ok (encode_blob raw) _ more2 in
    let (hk, e1) = encode_blob-eq-ok h.server_ml_kem_public_key b1 one in
    let (hr, e3) = encode_blob-eq-ok raw b3 three in
    let (hs, e4) = encode_blob-eq-ok h.signature b4 fourth in
    let parts = read_parts s h raw b2 cert valid hk two hr hs read in
    let n = h.server_nonce in
    let x = h.server_x25519_public_key in
    let u : unsigned ≡ n ++ (x ++ (b1 ++ (b2 ++ b3))) = cc in
    let w : b ≡ unsigned ++ b4 = cc in
    let shape : b
        ≡ n ++ (x ++ (blob h.server_ml_kem_public_key ++ (b2 ++ (blob raw ++ blob h.signature)))) =
      w ∙ rw (u, e1, e3, e4) (simp append_assoc) in
    ap (hello_from_bytes s) shape ∙ parts
