-- ===== src/Session/Keys/Laws.antt =====
-- What the key schedule of _gn_pq_session.py gives the two ends of a connection.
use gnserver.Base.{
  ◌≡◌, ap, ◌∙◌, ◌↔◌, true, Option, none, some, [], ◌++◌, arith, length, replicate, Bytes, Text,
  codes, ok, >>=-eq-ok, list_eq, nat_eq, ==_refl, list_beq_iff, ◌==◌,
}
use gnserver.Base.Utf8.{encode}
use gnserver.Session.Messages.{Commit}
use gnserver.Session.Keys.{
  Hashes, derive_transport_keys_from_root64, build_commit_payload, verify_commit_payload,
}

-- What one end sends with is what the other end receives with, in both directions.
pub derive_transport_keys-mirrored :
    (h : Hashes) (root64 : Bytes) (a b : Text) (key_in key_out : Bytes)
    → derive_transport_keys_from_root64 h root64 a b ≡ ok (key_in, key_out)
    → derive_transport_keys_from_root64 h root64 b a ≡ ok (key_out, key_in)
unfolding derive_transport_keys_from_root64
derive_transport_keys-mirrored h root64 a b key_in key_out e = ground arith

pub hash-build_commit_payload :
    (h : Hashes) (root64 t : Bytes) (c : Commit)
    → build_commit_payload h root64 t ≡ ok c
    → c.transcript_hash ≡ t
unfolding build_commit_payload
hash-build_commit_payload h root64 t c e = ground arith

same_commit :
    (c d : Commit) → c.transcript_hash ≡ d.transcript_hash → c.commit_tag ≡ d.commit_tag → c ≡ d
same_commit c d e f = ground arith

-- A commit is accepted under a root exactly if it is the one that the root's holder builds for the
-- commit's own transcript hash.
pub verify_commit_payload_iff :
    (h : Hashes) (root64 : Bytes) (c : Commit)
    → (verify_commit_payload h root64 c ≡ ok true)
      ↔ (build_commit_payload h root64 c.transcript_hash ≡ ok c)
unfolding verify_commit_payload
verify_commit_payload_iff h root64 c = (
  λ e.
      let (x, built, same) =
        >>=-eq-ok (build_commit_payload h root64 c.transcript_hash)
          (λ x. ok (x.commit_tag == c.commit_tag)) e in
      let hash = hash-build_commit_payload h root64 c.transcript_hash x built in
      let tag = (list_beq_iff x.commit_tag c.commit_tag).0 (ground arith) in
      built ∙ ap ok (same_commit x c hash tag),
  λ e. rw e (ap ok (==_refl c.commit_tag)),
)

module _ (h : Hashes) (name cn sn : Bytes) where
  -- The hash of a domain's bytes with the two nonces, the client's first.
  abbrev bound : Bytes
  bound = h.hkdf name 64 [] (codes "gn:pq:domain-binding:v1") ++ (cn ++ sn)

  -- What the KDC's key adds to the secrets.
  abbrev mix_of : Option Bytes → Bytes
  mix_of none = replicate 64 0
  mix_of (some key) = h.hkdf key 64 bound (codes "gn:pq:kdc-mix:v1")

  -- The root that the protocol prescribes.
  abbrev pub root_of : Bytes → Bytes → Bytes → Option Bytes → Bytes
  root_of kem dh hash kdc_key =
      h.hkdf (kem ++ (dh ++ (mix_of kdc_key ++ hash))) 64 bound (codes "gn:pq:session-root:v1")

-- What a root is derived from: nonces of 32 bytes, a hash of 64, and a domain with an encoding.
abbrev pub IsRoot :
    Hashes → Text → Bytes → Bytes → Bytes → Bytes → Bytes → Option Bytes → Bytes → Type 0
IsRoot h domain cn sn kem dh hash kdc_key root =
    (length cn ≡ 32)
    × (length sn ≡ 32)
    × (length hash ≡ 64)
    × ((name : Bytes) × (encode domain ≡ ok name)
        × (root ≡ root_of h name cn sn kem dh hash kdc_key))
