-- ===== src/Datagram/Packets.antt =====
-- server/_datagram_enc.py: what stands before a QUIC packet in a datagram of `DatagramEndpoint`, and
-- what becomes of a payload packet on its way out and in. Tasks, queues and logs are left out.
pub mod Header
pub mod Payload
use gnserver.Base.{
  ℕ, ◌+◌, ◌*◌, ◌/◌, ◌%◌, ◌^◌, Bool, true, false, Option, none, some, List, [], ◌∷◌, ◌++◌, not, ◌||◌,
  ◌&&◌, nat_beq, ltb, length, take, drop, slice, get_elem?, is_empty, is_none, if◌then◌else◌, Bytes,
  Text, codes, Result, ok, raise, ◌>>=◌, ◌==◌, Eq, nat_eq, list_eq,
}
use gnserver.Base.BigEndian.{to_bytes, from_bytes}
use gnserver.Base.Int.{ℤ, pos, negsuc}
use gnserver.Kdc.Types.{KeyId}
use gnserver.Datagram.Encryptor.{Cipher, Encryptor, encrypt, decrypt, has_transport_keys}

-- `addr`: of IPv4, and with the flow label and the scope of IPv6; and what identifies a peer.
pub data Address : Type 0 where
  v4 : Text → ℕ → Address
  mapped : Text → ℕ → ℕ → Address
  v6 : Text → ℕ → ℕ → ℕ → Address

abbrev pub Maddr : Type 0
Maddr = Text × ℕ × ℕ

unfoldable pub from_addr_to_maddr : Address → Maddr
from_addr_to_maddr (v4 host port) =
    if host == codes "127.0.0.1" then (codes "::1", port, 0) else (codes "::ffff:" ++ host, port, 0)
from_addr_to_maddr (mapped host port scope) = (host, port, scope)
from_addr_to_maddr (v6 host port flow scope) = (host, port, scope)

-- `b0 & 0xF0 == 0xC0`, of a byte.
unfoldable pub is_quic_initial : ℕ → Bool
is_quic_initial b0 = nat_beq (b0 / 16) 12

abbrev pub max_key_id : ℕ
max_key_id = 0x7FFFFFFFFFFFFF

abbrev pub magnitude : ℤ → ℕ
magnitude (pos n) = n
magnitude (negsuc n) = n + 1

-- The number in a header: 55 bits of it count.
unfoldable pub wrap_key_id : ℤ → ℕ
wrap_key_id z = if ltb max_key_id (magnitude z) then magnitude z % max_key_id else magnitude z

-- `construct_initial`: the version with the system bit, the command 0 with the type of encryption,
-- the type of the key in one byte and its number in seven.
unfoldable pub construct_initial : ℕ → ℕ → ℕ × ℤ → Result Bytes
construct_initial version encryption_type (key_type, key_id) = to_bytes 1 key_type >>= λ t.
    to_bytes 7 (wrap_key_id key_id) >>= λ n.
    ok (((version % 128) * 2 + 1) ∷ (encryption_type % 16) ∷ (t ++ n))

-- `data[i]` under a test that the data is longer.
abbrev pub byte_at : ℕ → Bytes → ℕ
byte_at i dg = elim (get_elem? dg i) [ none ↦ 0 | some b ↦ b ]

abbrev pub version_of : Bytes → ℕ
version_of dg = byte_at 0 dg / 2 % 128

abbrev pub is_system : Bytes → Bool
is_system dg = nat_beq (byte_at 0 dg % 2) 1

-- What a system packet is: dropped, an error from the peer, the first packet of a connection with
-- its type of encryption and its key, or another command.
pub data System : Type 0 where
  too_short error_ignored : System
  error_reply : ℕ → ℕ → System
  initial : ℕ → Option KeyId → Bytes → System
  other_command : Bytes → System

-- `__handle_datagram_sys`, up to the setting up of the connection.
unfoldable pub read_system : Bool → Bytes → System
read_system is_server dg =
    if ltb (length dg) 2
    then too_short
    else if nat_beq (byte_at 1 dg / 16 % 16) 1
    then (if not is_server && not (ltb (length dg) 3)
        then error_reply (byte_at 1 dg % 16) (byte_at 2 dg)
        else error_ignored)
    else if ltb (length dg) 10
    then too_short
    else if nat_beq (byte_at 1 dg / 16 % 16) 0
    then initial (byte_at 1 dg % 16)
        (if nat_beq (byte_at 1 dg % 16) 0
          then none
          else some (byte_at 2 dg, from_bytes (slice 3 10 dg)))
        (drop 10 dg)
    else other_command (drop 10 dg)

-- `_send_prequic_error`, the packet with the command 1.
unfoldable pub prequic_error : ℕ → ℕ → ℕ → Bytes
prequic_error version error_code expected_enc_type =
    ((version % 128) * 2 + 1) ∷ (16 + error_code % 16) ∷ (expected_enc_type % 256) ∷ []

-- What becomes of a packet: `system` goes to `__handle_datagram_sys`, `opening` opens a connection,
-- and `failed` is an IndexError.
pub data Outcome : Type 0 where
  dropped queued opening failed : Outcome
  system : Bytes → Outcome
  passed : Bytes → Outcome

-- `sendto`, at an endpoint with the domain `own`: the first packet of QUIC goes to
-- `_send_initial_datagram`, or waits for it; any other waits, is dropped, or goes to the socket.
unfoldable pub send_payload :
    Cipher → ℕ → Option Text → ℕ → ℕ → Bytes → Encryptor → Encryptor × Outcome
unfolding is_quic_initial
send_payload c version own now rand2 [] e = (e, failed)
send_payload c version own now rand2 (b0 ∷ rest) e =
    if is_quic_initial b0 && not (is_none own)
    then (e, opening)
    else if not e.ready
    then (e, queued)
    else if not (nat_beq e.encryption_type 0) && has_transport_keys e
    then (let (e', sealed) = encrypt c now rand2 (b0 ∷ rest) e in
        (e', elim sealed [ ok enc ↦ passed (((version % 128) * 2) ∷ enc) | raise err ↦ dropped ]))
    else (e, passed (((version % 128) * 2) ∷ b0 ∷ rest))

-- `_handle_datagram`, up to the handling of a system packet: a packet waits, is dropped, or goes to
-- QUIC.
unfoldable pub handle_payload : Cipher → ℕ → Bytes → Encryptor → Encryptor × Outcome
handle_payload c version dg e =
    if is_empty dg
    then (e, dropped)
    else if not (nat_beq (version_of dg) version)
    then (e, dropped)
    else if is_system dg
    then (e, system dg)
    else if not e.ready
    then (e, queued)
    else if not (nat_beq e.encryption_type 0) && has_transport_keys e
    then (let (e', opened) = decrypt c (drop 1 dg) e in
        (e', elim opened [ ok dec ↦ passed dec | raise err ↦ dropped ]))
    else (e, passed (drop 1 dg))

-- The fast path of `datagram_received`: what goes to QUIC at once, or `none` for the queue.
unfoldable pub fast_path : ℕ → Bytes → Option Encryptor → Option Bytes
fast_path version dg e =
    if ltb 1 (length dg) && not (is_system dg)
    then (if nat_beq (version_of dg) version
        then (elim e [
          | none ↦ none
          | some e ↦ if e.ready && nat_beq e.encryption_type 0 then some (drop 1 dg) else none
        ])
        else none)
    else none
