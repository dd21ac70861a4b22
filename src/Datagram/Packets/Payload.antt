-- ===== src/Datagram/Packets/Payload.antt =====
-- Payload packets from one end to the other, and the fast path beside the slow one.
use gnserver.Base.{
  ℕ, ◌*◌, ◌/◌, ◌%◌, ◌≡◌, ◌<◌, true, false, Option, some, [], ◌∷◌, arith, nat_beq, length, Bytes,
  Text, nat_beq_iff,
}
use gnserver.Datagram.Encryptor.{Cipher, Encryptor, confirm}
use gnserver.Datagram.Encryptor.Seal.{IsCipher, decrypt-encrypt}
use gnserver.Datagram.Packets.{is_quic_initial, passed, send_payload, handle_payload, fast_path}

-- What the fast path gives QUIC is what the slow path gives it, and the slow path changes nothing.
pub fast_path-handle_payload :
    (c : Cipher) (version : ℕ) (dg p : Bytes) (e : Encryptor)
    → fast_path version dg (some e) ≡ some p
    → handle_payload c version dg e ≡ (e, passed p)
unfolding fast_path handle_payload
fast_path-handle_payload c version [] p e h = absurd (ground arith)
fast_path-handle_payload c version (x ∷ dg) p e h = ground arith

-- Two ends of one version below 128 that are ready, encrypt, and have both keys, the one sending
-- with the key of 32 bytes that the other receives with, and a packet that is not empty and not the
-- first of a connection: what the one sends is passed on by the other, whose key is then confirmed.
pub handle_payload-send_sealed :
    (c : Cipher) (version : ℕ) (own : Option Text) (now rand2 b0 : ℕ) (p : Bytes) (s r : Encryptor)
    (k j l : Bytes)
    → IsCipher c
    → version < 128
    → is_quic_initial b0 ≡ false
    → length k ≡ 32
    → s.key_out ≡ some k
    → r.key_in ≡ some k
    → s.key_in ≡ some j
    → r.key_out ≡ some l
    → s.ready ≡ true
    → r.ready ≡ true
    → nat_beq s.encryption_type 0 ≡ false
    → nat_beq r.encryption_type 0 ≡ false
    → (dg : Bytes) × ((send_payload c version own now rand2 (b0 ∷ p) s).1 ≡ passed dg)
      × (handle_payload c version dg r ≡ (confirm r, passed (b0 ∷ p)))
unfolding send_payload handle_payload
handle_payload-send_sealed c version own now rand2 b0 p s r k j l law hv later hk out inn sj rl sr
      rr st rt =
    let (packet, made, opened) = decrypt-encrypt c now rand2 (b0 ∷ p) s r k law hk out inn in
    let same : nat_beq ((version % 128) * 2 / 2 % 128) version ≡ true =
      (nat_beq_iff ((version % 128) * 2 / 2 % 128) version).1 (omega arith) in
    let bit : nat_beq ((version % 128) * 2 % 2) 1 ≡ false = ground arith in
    (
      ((version % 128) * 2) ∷ packet,
      simp (send_payload, later, sr, st, out, sj, made),
      simp (handle_payload, same, bit, rr, rt, inn, rl, opened),
    )

-- Without encryption at both ends a packet is passed on too, and no state changes.
pub handle_payload-send_plain :
    (c : Cipher) (version : ℕ) (own : Option Text) (now rand2 b0 : ℕ) (p : Bytes) (s r : Encryptor)
    → version < 128
    → is_quic_initial b0 ≡ false
    → s.ready ≡ true
    → r.ready ≡ true
    → s.encryption_type ≡ 0
    → r.encryption_type ≡ 0
    → (send_payload c version own now rand2 (b0 ∷ p) s
        ≡ (s, passed (((version % 128) * 2) ∷ b0 ∷ p)))
      × (handle_payload c version (((version % 128) * 2) ∷ b0 ∷ p) r ≡ (r, passed (b0 ∷ p)))
unfolding send_payload handle_payload
handle_payload-send_plain c version own now rand2 b0 p s r hv later sr rr st rt =
    let same : nat_beq ((version % 128) * 2 / 2 % 128) version ≡ true =
      (nat_beq_iff ((version % 128) * 2 / 2 % 128) version).1 (omega arith) in
    let bit : nat_beq ((version % 128) * 2 % 2) 1 ≡ false = ground arith in
    (simp (send_payload, later, sr, st), simp (handle_payload, same, bit, rr, rt))
