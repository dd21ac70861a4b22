-- ===== src/Examples/Datagrams.antt =====
-- The theorems on the UDP layer at concrete inputs.
use gnserver.Base.{
  ℕ, ◌-◌, ◌%◌, ◌≡◌, ◌≢◌, refl, true, not, none, some, List, [], ◌∷◌, ◌++◌, arith, nat_beq,
  replicate, length, get_elem?, if◌then◌else◌, Bytes, codes, ok,
}
use gnserver.Base.BigEndian.{be_bytes}
use gnserver.Base.Int.{pos}
use gnserver.Base.Utf8.{encode}
use gnserver.Session.Keys.{derive_transport_keys_from_root64}
use gnserver.Datagram.Encryptor.{
  init_type2, Cipher, Encryptor, new_encryptor, encrypt, decrypt, confirm, make_nonce, nonce,
  set_session_root64, set_session_root64_receive_only, set_transport_keys,
}
use gnserver.Datagram.Encryptor.Seal.{set_session_root64-decrypt}
use gnserver.Datagram.Encryptor.Bootstrap.{init_type2-decrypt}
use gnserver.Datagram.Encryptor.Epochs.{receive, packet_in, tick, any_switches, receive_between}
use gnserver.Datagram.Encryptor.Nonces.{Op, seal, raw, nonces, step, nonces-distinct}
use native.Mathlib.Nat.{mod-lt}
use gnserver.Datagram.Inbound.{
  new_inbound, prune_load_window, Event, received, served, measured, stopped,
}
use gnserver.Datagram.Inbound.Window.{recent}
use gnserver.Datagram.Inbound.Measured.{run-recent}
use gnserver.Datagram.Inbound.Bounded.{IsRemainder, AreBounded, run-AreBounded}
use gnserver.Datagram.Packets.{
  construct_initial, is_system, version_of, read_system, initial, passed, send_payload,
  handle_payload, fast_path,
}
use gnserver.Datagram.Packets.Header.{read_system-construct_initial, from_addr_to_maddr-injective}
use gnserver.Datagram.Packets.Payload.{fast_path-handle_payload, handle_payload-send_sealed}
use gnserver.Examples.Toys.{zeros, zeros-HasLengths, toy_cipher, toy_cipher-IsCipher}

abbrev ops : List Op
ops = seal 1000 5 (1 ∷ []) ∷ raw ∷ seal 1000 5 (2 ∷ []) ∷ []

abbrev first_nonce : Bytes
first_nonce = 0 ∷ 0 ∷ 0 ∷ 3 ∷ 232 ∷ 0 ∷ 0 ∷ 0 ∷ 0 ∷ 0 ∷ 0 ∷ 0 ∷ 1 ∷ 0 ∷ 5 ∷ []

abbrev second_nonce : Bytes
second_nonce = 0 ∷ 0 ∷ 0 ∷ 3 ∷ 232 ∷ 0 ∷ 0 ∷ 0 ∷ 0 ∷ 0 ∷ 0 ∷ 0 ∷ 2 ∷ 0 ∷ 5 ∷ []

abbrev new_key : Bytes
new_key = replicate 32 2

abbrev settled : Encryptor
settled = record new_encryptor {
  ready = true;
  encryption_type = 1;
  key_in = some new_key;
  key_out = some new_key;
}

nonce_0 : get_elem? (nonces zeros toy_cipher (codes "a") ops settled) 0 ≡ some (some first_nonce)
unfolding nonces encrypt make_nonce nonce be_bytes
nonce_0 = refl

nonce_1 : get_elem? (nonces zeros toy_cipher (codes "a") ops settled) 1 ≡ some (some second_nonce)
unfolding nonces step make_nonce nonce be_bytes encrypt gnserver.Datagram.Encryptor.init_raw
nonce_1 = refl

nonces-distinct_example : first_nonce ≢ second_nonce
nonces-distinct_example =
    nonces-distinct zeros toy_cipher (codes "a") ops settled 0 1 first_nonce second_nonce
      (omega arith) (omega arith) nonce_0 nonce_1

abbrev zero_key : Bytes
zero_key = replicate 32 0

keys_derived :
    derive_transport_keys_from_root64 zeros (replicate 64 1) (codes "a") (codes "b")
    ≡ ok (zero_key, zero_key)
unfolding derive_transport_keys_from_root64 encode
keys_derived = refl

set_session_root64-decrypt_example :
    (packet : Bytes) × ((encrypt toy_cipher 1000 5
        (1 ∷ 2 ∷ [])
        (set_session_root64 zeros (codes "a") (replicate 64 1) (codes "b") new_encryptor).0).1
      ≡ ok packet)
    × ((decrypt toy_cipher packet
          (set_session_root64 zeros (codes "b") (replicate 64 1) (codes "a") new_encryptor).0).1
        ≡ ok (1 ∷ 2 ∷ []))
set_session_root64-decrypt_example =
    set_session_root64-decrypt zeros toy_cipher (replicate 64 1) (codes "a") (codes "b")
      (zero_key, zero_key) 1000 5 (1 ∷ 2 ∷ []) new_encryptor new_encryptor zeros-HasLengths
      toy_cipher-IsCipher keys_derived

abbrev old_key : Bytes
old_key = replicate 32 1

abbrev used : Encryptor
used = record new_encryptor {
  ready = true;
  encryption_type = 1;
  key_in = some old_key;
  key_out = some old_key;
}

-- Fifteen bytes of a nonce, a byte, and the tag of a key.
abbrev packet_under : ℕ → Bytes
packet_under a = replicate 15 0 ++ (7 ∷ replicate 16 a)

receive_between_example :
    (receive toy_cipher
      (packet_in (packet_under 1) ∷ packet_in (packet_under 0) ∷ tick ∷ [])
      (set_session_root64_receive_only zeros
        (codes "a")
        (replicate 64 1)
        (codes "b")
        none
        used).0).key_out
    ≡ (if any_switches toy_cipher zero_key
          (packet_in (packet_under 1) ∷ packet_in (packet_under 0) ∷ tick ∷ [])
        then some zero_key
        else some old_key)
receive_between_example =
    receive_between zeros toy_cipher (codes "a") (codes "b") none (replicate 64 1) old_key old_key
      zero_key zero_key used (packet_in (packet_under 1) ∷ packet_in (packet_under 0) ∷ tick ∷ [])
      refl refl keys_derived

handle_payload-send_sealed_example :
    (dg : Bytes) × ((send_payload toy_cipher 0 none 1000 5 (1 ∷ 2 ∷ []) settled).1 ≡ passed dg)
    × (handle_payload toy_cipher 0 dg settled ≡ (confirm settled, passed (1 ∷ 2 ∷ [])))
unfolding gnserver.Datagram.Packets.is_quic_initial
handle_payload-send_sealed_example =
    handle_payload-send_sealed toy_cipher 0 none 1000 5 1 (2 ∷ []) settled settled new_key new_key
      new_key toy_cipher-IsCipher (omega arith) refl refl refl refl refl refl refl refl refl refl

abbrev plain : Encryptor
plain = record new_encryptor { ready = true }

passed_on : fast_path 0 (0 ∷ 1 ∷ 2 ∷ []) (some plain) ≡ some (1 ∷ 2 ∷ [])
unfolding fast_path
passed_on = refl

fast_path-handle_payload_example :
    handle_payload toy_cipher 0 (0 ∷ 1 ∷ 2 ∷ []) plain ≡ (plain, passed (1 ∷ 2 ∷ []))
fast_path-handle_payload_example =
    fast_path-handle_payload toy_cipher 0 (0 ∷ 1 ∷ 2 ∷ []) (1 ∷ 2 ∷ []) plain passed_on

read_system-construct_initial_example :
    (header : Bytes) × (construct_initial 0 1 (255, pos 77) ≡ ok header)
    × (length header ≡ 10)
    × (is_system (header ++ (1 ∷ 2 ∷ [])) ≡ true)
    × (version_of (header ++ (1 ∷ 2 ∷ [])) ≡ 0)
    × (read_system true (header ++ (1 ∷ 2 ∷ []))
        ≡ initial 1 (if nat_beq 1 0 then none else some (255, 77)) (1 ∷ 2 ∷ []))
read_system-construct_initial_example =
    read_system-construct_initial true 0 1 255 (pos 77) (1 ∷ 2 ∷ []) (omega arith) (omega arith)
      (omega arith) (omega arith)

from_addr_to_maddr-injective_example : (codes "10.0.0.1" ≡ codes "10.0.0.1") × (◌≡◌ {A = ℕ} 443 443)
from_addr_to_maddr-injective_example =
    from_addr_to_maddr-injective (codes "10.0.0.1") (codes "10.0.0.1") 443 443 refl

init_type2-decrypt_example :
    (packet : Bytes) × ((encrypt toy_cipher 1000 5
        (1 ∷ 2 ∷ [])
        (init_type2 zeros none true new_encryptor).0).1
      ≡ ok packet)
    × ((decrypt toy_cipher packet
          (init_type2 zeros (some (codes "b")) (not true) new_encryptor).0).1
        ≡ ok (1 ∷ 2 ∷ []))
init_type2-decrypt_example =
    init_type2-decrypt zeros toy_cipher none (some (codes "b")) true 1000 5 (1 ∷ 2 ∷ [])
      new_encryptor new_encryptor zeros-HasLengths toy_cipher-IsCipher

abbrev remainder : ℕ → ℕ → ℕ
remainder addr n = addr % n

remainder_lem : IsRemainder remainder
remainder_lem addr n h = mod-lt addr h

-- Two datagrams of one peer, of which the second finds the queue full, a third of another peer, and
-- what the workers and the metrics do meanwhile.
abbrev arrivals : List (ℕ × Event ℕ)
arrivals =
    (100, received (2 ∷ 5 ∷ []) 7 none)
    ∷ (200, received (2 ∷ 6 ∷ []) 7 none)
    ∷ (300, served 1 290)
    ∷ (4000, received (2 ∷ 7 ∷ []) 6 none)
    ∷ (5150, measured)
    ∷ []

run-recent_example :
    prune_load_window 5000 5250
      (gnserver.Datagram.Inbound.run remainder 2 1 5000 1 arrivals new_inbound)
    ≡ recent (5250 - 5000) (gnserver.Datagram.Inbound.run remainder 2 1 5250 1 arrivals new_inbound)
run-recent_example =
    run-recent remainder 2 1 1 5000 arrivals 5250
      (omega arith, (omega arith, (omega arith, (omega arith, (omega arith, omega arith)))))

run-AreBounded_example :
    AreBounded 2 1 (gnserver.Datagram.Inbound.run remainder 2 1 5000 1 arrivals new_inbound).queues
run-AreBounded_example =
    run-AreBounded remainder 2 1 5000 1 remainder_lem (omega arith) (omega arith) arrivals
      new_inbound (λ k. (omega arith, λ w. refl))
