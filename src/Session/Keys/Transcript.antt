-- ===== src/Session/Keys/Transcript.antt =====
-- The transcript of _gn_pq_session.py determines the payloads that went into it.
use gnserver.Base.{
  ◌<◌, ◌≡◌, refl, sym, ap, ◌∙◌, List, [], ◌∷◌, ◌++◌, arith, length, length-append, append_eq_parts,
  codes, All, Bytes, Text, ok, >>=-eq-ok,
}
use mathlib.Core.List.{append_assoc, append-nil}
use gnserver.Base.BigEndian.{be_bytes, length-be_bytes, from_bytes, from_bytes-be_bytes}
use gnserver.Base.Utf8.{encode}
use gnserver.Session.Wire.{blob, encode_blob, encode_blob-eq-ok, length-blob}
use gnserver.Session.Keys.{Hashes, HasLengths, append_blobs, build_domain_binding, transcript}

abbrev blobs : List Bytes → Bytes
blobs [] = []
blobs (p ∷ ps) = blob p ++ blobs ps

abbrev IsShort : Bytes → Type 0
IsShort p = length p < 0x10000

append_blobs-eq-ok :
    (ps : List Bytes) (t b : Bytes)
    → append_blobs t ps ≡ ok b
    → (b ≡ t ++ blobs ps) × All IsShort ps
unfolding append_blobs
append_blobs-eq-ok [] t b h = (rw append-nil (ground arith), tt)
append_blobs-eq-ok (p ∷ ps) t b h =
    let (c, made, rest) = >>=-eq-ok (encode_blob p) _ h in
    let (short, shape) = encode_blob-eq-ok p c made in
    let (e, all) = append_blobs-eq-ok ps (t ++ c) b rest in
    (e ∙ rw shape (append_assoc t (blob p) (blobs ps)), (short, all))

-- Two blobs that begin the same bytes are the same.
blob-injective :
    (p q r s : Bytes) → IsShort p → IsShort q → blob p ++ r ≡ blob q ++ s → (p ≡ q) × (r ≡ s)
blob-injective p q r s hp hq e =
    let n = be_bytes 2 (length p) in
    let m = be_bytes 2 (length q) in
    let e' : n ++ (p ++ r) ≡ m ++ (q ++ s) = sym (append_assoc n p r) ∙ e ∙ append_assoc m q s in
    let (heads, tails) =
      append_eq_parts n (p ++ r) m (q ++ s)
        (length-be_bytes 2 (length p) ∙ sym (length-be_bytes 2 (length q))) e' in
    let same : length p ≡ length q =
      sym (from_bytes-be_bytes 2 (length p) hp)
      ∙ ap from_bytes heads
      ∙ from_bytes-be_bytes 2 (length q) hq in
    append_eq_parts p r q s same tails

blobs-injective :
    (ps qs : List Bytes) → All IsShort ps → All IsShort qs → blobs ps ≡ blobs qs → ps ≡ qs
blobs-injective [] [] hp hq e = refl
blobs-injective [] (q ∷ qs) hp hq e =
    absurd (omega (arith, ap length e, length-append (blob q) (blobs qs), length-blob q))
blobs-injective (p ∷ ps) [] hp hq e =
    absurd (omega (arith, ap length e, length-append (blob p) (blobs ps), length-blob p))
blobs-injective (p ∷ ps) (q ∷ qs) hp hq e =
    let (first, rest) = blob-injective p q (blobs ps) (blobs qs) hp.0 hq.0 e in
    cc (first, blobs-injective ps qs hp.1 hq.1 rest)

pub length_binding :
    (h : Hashes) (d : Text) (x : Bytes)
    → HasLengths h
    → build_domain_binding h d ≡ ok x
    → length x ≡ 64
unfolding build_domain_binding
length_binding h d x lengths e =
    let (name, _, made) = >>=-eq-ok (encode d) _ e in
    ground (arith, lengths.length_hkdf name 64 [] (codes "gn:pq:domain-binding:v1"))

-- Equal transcripts come from the same payloads in the same order, and from domains with the same
-- binding.
pub transcript-injective :
    (h : Hashes) (d e : Text) (ps qs : List Bytes) (b : Bytes)
    → HasLengths h
    → transcript h d ps ≡ ok b
    → transcript h e qs ≡ ok b
    → (ps ≡ qs) × (build_domain_binding h d ≡ build_domain_binding h e)
unfolding transcript
transcript-injective h d e ps qs b lengths hp hq =
    let (x, bx, rp) = >>=-eq-ok (build_domain_binding h d) _ hp in
    let (y, by', rq) = >>=-eq-ok (build_domain_binding h e) _ hq in
    let (sp, np) = append_blobs-eq-ok ps x b rp in
    let (sq, nq) = append_blobs-eq-ok qs y b rq in
    let lx = length_binding h d x lengths bx in
    let ly = length_binding h e y lengths by' in
    let (same, rest) = append_eq_parts x (blobs ps) y (blobs qs) (lx ∙ sym ly) (sym sp ∙ sq) in
    (blobs-injective ps qs np nq rest, cc)
