-- ===== src/Session/Wire.antt =====
-- _gn_pq_session.py: blobs behind a 16-bit length, texts, and 64-bit numbers. A decoder takes the
-- whole payload and an offset, and returns the value and the offset behind it.
use gnserver.Base.{
  ℕ, ◌+◌, ◌-◌, ◌^◌, ◌≤◌, ◌<◌, ◌≡◌, refl, ◌++◌, arith, ltb, le→ltb, if◌then◌else◌, length, slice,
  length-append, slice-append, append-slice, length-slice, drop, All-take, All-drop, sym, ap, ◌∙◌,
  Bytes, Text, Result, ok, raise, value_error, ◌>>=◌, >>=-eq-ok,
}
use gnserver.Base.BigEndian.{
  IsByte, IsBytes, be_bytes, be_bytes-from_bytes, to_bytes, from_bytes, length-be_bytes,
  from_bytes-be_bytes, to_bytes-eq-ok,
}
use mathlib.Core.List.{append_assoc}
use gnserver.Base.Int.{ℤ, pos, negsuc}
use gnserver.Base.Utf8.{encode, decode, decode-encode}
use gnserver.Session.{u64_len}

unfoldable pub encode_blob : Bytes → Result Bytes
encode_blob value =
    if ltb 0xffff (length value)
    then raise value_error
    else do n ← to_bytes 2 (length value); ok (n ++ value)

unfoldable pub decode_blob : Bytes → ℕ → Result (Bytes × ℕ)
decode_blob payload offset =
    if ltb (length payload) (offset + 2)
    then raise value_error
    else let size = from_bytes (slice offset (offset + 2) payload) in
      let start = offset + 2 in
      let stop = start + size in
      if ltb (length payload) stop then raise value_error else ok (slice start stop payload, stop)

unfoldable pub encode_text : Text → Result Bytes
encode_text value = do b ← encode value; encode_blob b

unfoldable pub decode_text : Bytes → ℕ → Result (Text × ℕ)
decode_text payload offset = do
  (value, stop) ← decode_blob payload offset
  text ← decode value
  ok (text, stop)

unfoldable pub encode_u64 : ℤ → Result Bytes
encode_u64 (negsuc n) = raise value_error
encode_u64 (pos value) =
    if ltb 0xffff_ffff_ffff_ffff value then raise value_error else to_bytes u64_len value

unfoldable pub decode_u64 : Bytes → ℕ → Result (ℕ × ℕ)
decode_u64 payload offset =
    let stop = offset + u64_len in
    if ltb (length payload) stop
    then raise value_error
    else ok (from_bytes (slice offset stop payload), stop)

-- The bytes that `encode_blob` writes.
abbrev pub blob : Bytes → Bytes
blob value = be_bytes 2 (length value) ++ value

pub encode_blob-blob : (v : Bytes) → length v < 0x10000 → encode_blob v ≡ ok (blob v)
unfolding encode_blob
encode_blob-blob v h = ground (arith, to_bytes-eq-ok 2 (length v) h)

pub encode_blob-eq-ok : (v b : Bytes) → encode_blob v ≡ ok b → (length v < 0x10000) × (b ≡ blob v)
unfolding encode_blob
encode_blob-eq-ok v b h = ground (arith, to_bytes-eq-ok 2 (length v))

pub length-blob : (v : Bytes) → length (blob v) ≡ length v + 2
length-blob v = omega (arith, length-append (be_bytes 2 (length v)) v, length-be_bytes 2 (length v))

-- What `decode_blob` reads, by the two slices that it looks at.
decode_blob_of_slices :
    (payload v : Bytes) (offset : ℕ)
    → length v < 0x10000
    → slice offset (offset + 2) payload ≡ be_bytes 2 (length v)
    → slice (offset + 2) (offset + 2 + length v) payload ≡ v
    → offset + 2 + length v ≤ length payload
    → decode_blob payload offset ≡ ok (v, offset + 2 + length v)
unfolding decode_blob
decode_blob_of_slices payload v offset h head body fits =
    let size : from_bytes (slice offset (offset + 2) payload) ≡ length v =
      rw head (from_bytes-be_bytes 2 (length v) h) in
    rw (le→ltb (length payload) (offset + 2) (omega arith), size, le→ltb _ _ fits, body)

-- A blob is read back wherever it stands in a payload, and the offset moves behind it.
pub decode_blob-blob :
    (pre v rest : Bytes) (offset : ℕ)
    → length v < 0x10000
    → offset ≡ length pre
    → decode_blob (pre ++ (blob v ++ rest)) offset ≡ ok (v, offset + 2 + length v)
decode_blob-blob pre v rest offset h e =
    let n = be_bytes 2 (length v) in
    let two = length-be_bytes 2 (length v) in
    let head : slice offset (offset + 2) (pre ++ (n ++ (v ++ rest))) ≡ n =
      slice-append offset (offset + 2) pre n (v ++ rest) e (omega arith) in
    let body : slice (offset + 2) (offset + 2 + length v) ((pre ++ n) ++ (v ++ rest)) ≡ v =
      slice-append (offset + 2) (offset + 2 + length v) (pre ++ n) v rest
        (omega (arith, length-append pre n)) (omega (arith, length-append pre n)) in
    let shape : pre ++ (blob v ++ rest) ≡ pre ++ (n ++ (v ++ rest)) = simp append_assoc in
    let shape' : pre ++ (n ++ (v ++ rest)) ≡ (pre ++ n) ++ (v ++ rest) = simp append_assoc in
    rw shape (
      decode_blob_of_slices (pre ++ (n ++ (v ++ rest))) v offset h head (rw shape' body) (
        omega (
          arith,
          length-append pre (n ++ (v ++ rest)),
          length-append n (v ++ rest),
          length-append v rest,
        )))

-- What is read is a slice of the payload, behind the two bytes of its length.
pub decode_blob-eq-ok :
    (payload v : Bytes) (offset stop : ℕ)
    → IsBytes payload
    → decode_blob payload offset ≡ ok (v, stop)
    → (slice offset stop payload ≡ blob v)
      × (stop ≡ offset + 2 + length v)
      × (stop ≤ length payload)
      × (length v < 0x10000)
unfolding decode_blob
decode_blob-eq-ok payload v offset stop b h =
    let size = from_bytes (slice offset (offset + 2) payload) in
    let enough : offset + 2 ≤ length payload = ground arith in
    let e : stop ≡ offset + 2 + size = ground arith in
    let fits : stop ≤ length payload = ground arith in
    let body : slice (offset + 2) stop payload ≡ v = ground arith in
    let two = length-slice offset (offset + 2) payload enough in
    let (head, small) = be_bytes-from_bytes (slice offset (offset + 2) payload) (omega arith) (
      All-take IsByte (offset + 2 - offset) (drop offset payload)
        (All-drop IsByte offset payload b)) in
    let len : length v ≡ size =
      rw (← body) (length-slice (offset + 2) stop payload fits ∙ (omega arith)) in
    (
      sym (append-slice offset (offset + 2) stop payload (omega arith) (omega arith))
          ∙ rw (body, len, head),
      omega arith,
      fits,
      omega arith,
    )

-- A text is read back too.
pub decode_text-encode_text :
    (pre b rest : Bytes) (t : Text) (offset : ℕ)
    → encode_text t ≡ ok b
    → offset ≡ length pre
    → decode_text (pre ++ (b ++ rest)) offset ≡ ok (t, offset + length b)
unfolding encode_text decode_text
decode_text-encode_text pre b rest t offset h e =
    let (u, eu, h') = >>=-eq-ok (encode t) _ h in
    let (small, shape) = encode_blob-eq-ok u b h' in
    let read = decode_blob-blob pre u rest offset small e in
    rw shape (
      rw (read, decode-encode t u eu)
        (let end : offset + 2 + length u ≡ offset + length (blob u) =
            omega (arith, length-blob u) in
          ap (λ (k : ℕ). ok (t, k)) end))

-- A number of 64 bits is read back wherever it stands; any other is refused.
decode_u64-encode_u64 :
    (pre b rest : Bytes) (value : ℤ) (offset : ℕ)
    → encode_u64 value ≡ ok b
    → offset ≡ length pre
    → (n : ℕ) × (value ≡ pos n)
      × (n < 2 ^ 64)
      × (decode_u64 (pre ++ (b ++ rest)) offset ≡ ok (n, offset + 8))
unfolding encode_u64 decode_u64
decode_u64-encode_u64 pre b rest (negsuc n) offset h e = absurd (cc)
decode_u64-encode_u64 pre b rest (pos n) offset h e =
    let small : n < 2 ^ 64 = ground arith in
    let shape : b ≡ be_bytes 8 n = ground (arith, to_bytes-eq-ok 8 n) in
    let size = length-be_bytes 8 n in
    let body = slice-append offset (offset + 8) pre (be_bytes 8 n) rest e (omega arith) in
    let fits : offset + 8 ≤ length (pre ++ (be_bytes 8 n ++ rest)) =
      omega (arith, length-append pre (be_bytes 8 n ++ rest), length-append (be_bytes 8 n) rest) in
    (n, refl, small, rw (shape, le→ltb _ _ fits, body, from_bytes-be_bytes 8 n small))
