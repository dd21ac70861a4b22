-- ===== src/Datagram/Packets/Header.antt =====
-- The headers that one end writes, as the other end reads them.
use gnserver.Base.{
  ℕ, ◌+◌, ◌*◌, ◌/◌, ◌%◌, ◌^◌, ◌≡◌, ◌≤◌, ◌<◌, refl, sym, ap, ◌∙◌, Bool, true, false, none, some, ◌∷◌,
  ◌++◌, arith, nat_beq, ltb, le→ltb, length, length-append, take-append, drop-append, if◌then◌else◌,
  Bytes, Text, codes, ok, ◌==◌, nat_eq, list_eq, list_beq_iff, Bool-cases, inl, inr, ◌≢◌,
  append_eq_parts,
}
use gnserver.Base.BigEndian.{
  from_bytes, be_bytes, length-be_bytes, to_bytes-eq-ok, from_bytes-be_bytes,
}
use gnserver.Base.Int.{ℤ}
use gnserver.Datagram.Packets.{
  Maddr, v4, from_addr_to_maddr, construct_initial, wrap_key_id, max_key_id, magnitude, version_of,
  is_system, read_system, initial, error_reply, error_ignored, prequic_error,
}

wrap_key_id_bound : (z : ℤ) → wrap_key_id z < 2 ^ 55
unfolding wrap_key_id
wrap_key_id_bound z = ground arith

-- A number of 55 bits is not changed but for its sign.
wrap_key_id_small : (z : ℤ) → magnitude z ≤ max_key_id → wrap_key_id z ≡ magnitude z
unfolding wrap_key_id
wrap_key_id_small z h = ground arith

-- The header as a list.
constructed :
    (v t k : ℕ) (z : ℤ)
    → k < 256
    → construct_initial v t (k, z)
      ≡ ok (((v % 128) * 2 + 1) ∷ (t % 16) ∷ k ∷ be_bytes 7 (wrap_key_id z))
unfolding construct_initial be_bytes
constructed v t k z hk =
    let one = to_bytes-eq-ok 1 k hk in
    let seven = let b = wrap_key_id_bound z in to_bytes-eq-ok 7 (wrap_key_id z) (omega arith) in
    let byte : k % 256 ≡ k = omega arith in rw (construct_initial, one, seven, byte)

-- What follows a header of ten bytes whose first three are known.
read_initial :
    (s : Bool) (a t k : ℕ) (id rest : Bytes)
    → length id ≡ 7
    → t < 16
    → read_system s (a ∷ t ∷ k ∷ (id ++ rest))
      ≡ initial t (if nat_beq t 0 then none else some (k, from_bytes id)) rest
unfolding read_system
read_initial s a t k id rest hid ht =
    let long : ltb (length (a ∷ t ∷ k ∷ (id ++ rest))) 10 ≡ false =
      let l = length-append id rest in
      le→ltb (length (a ∷ t ∷ k ∷ (id ++ rest))) 10 (omega arith) in
    let number = take-append 7 id rest (sym hid) in
    let tail = drop-append 7 id rest (sym hid) in
    let long2 : ltb (length (a ∷ t ∷ k ∷ (id ++ rest))) 2 ≡ false =
      le→ltb (length (a ∷ t ∷ k ∷ (id ++ rest))) 2 (omega arith) in
    let high : t / 16 % 16 ≡ 0 = omega arith in
    let low : t % 16 ≡ t = omega arith in rw (read_system, long2, high, long, low, number, tail)

-- With a version below 128, a type of encryption below 16, a key's type of one byte and a key's
-- number of at most 55 bits, the header of a first packet has ten bytes, is a system packet of its
-- version, and is read with what follows it as it was written: the type of encryption, the key's type
-- and the number without its sign, but for the type 0, of which the key is not read.
pub read_system-construct_initial :
    (is_server : Bool) (v t k : ℕ) (z : ℤ) (packet : Bytes)
    → v < 128
    → t < 16
    → k < 256
    → magnitude z ≤ max_key_id
    → (header : Bytes) × (construct_initial v t (k, z) ≡ ok header)
      × (length header ≡ 10)
      × (is_system (header ++ packet) ≡ true)
      × (version_of (header ++ packet) ≡ v)
      × (read_system is_server (header ++ packet)
          ≡ initial t (if nat_beq t 0 then none else some (k, magnitude z)) packet)
read_system-construct_initial is_server v t k z packet hv ht hk hz =
    let id = be_bytes 7 (wrap_key_id z) in
    let low : t % 16 ≡ t = omega arith in
    let bit : ((v % 128) * 2 + 1) % 2 ≡ 1 = omega arith in
    let version : ((v % 128) * 2 + 1) / 2 % 128 ≡ v = omega arith in
    let number : from_bytes id ≡ magnitude z =
      let b = wrap_key_id_bound z in
      from_bytes-be_bytes 7 (wrap_key_id z) (omega arith) ∙ wrap_key_id_small z hz in
    let read =
      read_initial is_server ((v % 128) * 2 + 1) t k id packet (length-be_bytes 7 (wrap_key_id z))
        ht in
    let seven = length-be_bytes 7 (wrap_key_id z) in
    (
      ((v % 128) * 2 + 1) ∷ t ∷ k ∷ id,
      rw (constructed v t k z hk, low),
      omega arith,
      rw bit,
      version,
      rw number at read,
    )

-- An error packet is read by a client as it was sent, and ignored by a server.
pub read_system-prequic_error :
    (v code type : ℕ)
    → code < 16
    → type < 256
    → (read_system false (prequic_error v code type) ≡ error_reply code type)
      × (read_system true (prequic_error v code type) ≡ error_ignored)
unfolding read_system prequic_error
read_system-prequic_error v code type hc ht =
    let high : (16 + code % 16) / 16 % 16 ≡ 1 = omega arith in
    let low : (16 + code % 16) % 16 ≡ code = omega arith in
    let byte : type % 256 ≡ type = omega arith in
    (rw (read_system, high, low, byte), rw (read_system, high))

v4_local :
    (a : Text) (p : ℕ)
    → (a == codes "127.0.0.1") ≡ true
    → from_addr_to_maddr (v4 a p) ≡ (codes "::1", p, 0)
unfolding from_addr_to_maddr
v4_local a p here = rw (from_addr_to_maddr, here)

v4_far :
    (a : Text) (p : ℕ)
    → (a == codes "127.0.0.1") ≡ false
    → from_addr_to_maddr (v4 a p) ≡ (codes "::ffff:" ++ a, p, 0)
unfolding from_addr_to_maddr
v4_far a p far = rw (from_addr_to_maddr, far)

local_is_far :
    (b : Text) (p q : ℕ) → ◌≢◌ {A = Maddr} (codes "::1", p, 0) (codes "::ffff:" ++ b, q, 0)
local_is_far b p q e = let names = ap (λ (m : Maddr). m.0) e in ground arith

-- Two IPv4 peers have the same key in the table only if host and port are the same.
pub from_addr_to_maddr-injective :
    (a b : Text) (p q : ℕ)
    → from_addr_to_maddr (v4 a p) ≡ from_addr_to_maddr (v4 b q)
    → (a ≡ b) × (p ≡ q)
from_addr_to_maddr-injective a b p q e = elim (Bool-cases (a == codes "127.0.0.1")) [
  | inl here ↦ elim (Bool-cases (b == codes "127.0.0.1")) [
    | inl both ↦
        let x = (list_beq_iff a (codes "127.0.0.1")).0 here in
        let y = (list_beq_iff b (codes "127.0.0.1")).0 both in
        let same = sym (v4_local a p here) ∙ e ∙ v4_local b q both in
        (x ∙ sym y, ap (λ (m : Maddr). m.1) same)
    | inr other ↦ absurd (local_is_far b p q (sym (v4_local a p here) ∙ e ∙ v4_far b q other))
  ]
  | inr far ↦ elim (Bool-cases (b == codes "127.0.0.1")) [
    | inl there ↦ absurd (local_is_far a q p (sym (v4_local b q there) ∙ sym e ∙ v4_far a p far))
    | inr other ↦
        let same = sym (v4_far a p far) ∙ e ∙ v4_far b q other in
        let names = ap (λ (m : Maddr). m.0) same in
        (
          (append_eq_parts (codes "::ffff:") a (codes "::ffff:") b refl names).1,
          ap (λ (m : Maddr). m.1) same,
        )
  ]
]
