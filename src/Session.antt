-- ===== src/Session.antt =====
-- _gn_pq_session.py: the lengths and labels of the handshake protocol. The children have the wire
-- format, the messages and the key derivation.
pub mod Wire
pub mod Messages
pub mod Keys
pub mod Certificate
pub mod Names
pub mod Handshake
use gnserver.Base.{ℕ}

abbrev pub nonce_len : ℕ
nonce_len = 32

abbrev pub x25519_public_key_len : ℕ
x25519_public_key_len = 32

abbrev pub transcript_hash_len : ℕ
transcript_hash_len = 64

abbrev pub session_root64_len : ℕ
session_root64_len = 64

abbrev pub commit_tag_len : ℕ
commit_tag_len = 32

abbrev pub u64_len : ℕ
u64_len = 8
