-- ===== src/Examples/Toys.antt =====
-- Toy versions of the parameters: they have the laws that the theorems ask for, and no secrecy.
use gnserver.Base.{
  ℕ, zero, suc, ◌≡◌, refl, ◌∙◌, true, false, [], ◌∷◌, length, take, replicate, length-take, arith,
  if◌then◌else◌, codes, ok, raise, mac_mismatch, ◌==◌, ==_refl, nat_eq, list_eq,
}
use gnserver.Session.Keys.{Hashes, HasLengths}
use gnserver.Session.Certificate.{Value, Serial}
use gnserver.Session.Handshake.{Crypto, Env}
use gnserver.Session.Handshake.Agreement.{IsAgreement}
use gnserver.Datagram.Encryptor.{Cipher}
use gnserver.Datagram.Encryptor.Seal.{IsCipher}

abbrev pub zeros : Hashes
zeros = record {
  hkdf = λ key n salt info. replicate n 0;
  sha3_512 = λ m. replicate 64 0;
  sha3_256 = λ m. replicate 32 0;
}

length-replicate : (n a : ℕ) → length (replicate n a) ≡ n
length-replicate zero a = refl
length-replicate (suc n) a = omega (arith, length-replicate n a)

pub zeros-HasLengths : HasLengths zeros
zeros-HasLengths = record {
  length_hkdf = λ key n salt info. length-replicate n 0;
  length_sha3_512 = λ m. length-replicate 64 0;
}

-- The tag is the beginning of the key.
abbrev pub toy_cipher : Cipher
toy_cipher = record {
  encrypt_and_digest = λ k n p. ok (p, take 16 k);
  decrypt_and_verify = λ k n ct tag. if tag == take 16 k then ok ct else raise mac_mismatch;
}

pub toy_cipher-IsCipher : IsCipher toy_cipher
toy_cipher-IsCipher = record {
  sealed = λ k n p hk hn.
      (p, take 16 k, refl, refl, length-take 16 k ∙ (omega arith), rw (==_refl (take 16 k)) refl);
}

abbrev pub toy_crypto : Crypto
toy_crypto = record {
  sig_mechanisms = codes "ml-dsa-87" ∷ [];
  kem_mechanisms = codes "ml-kem-1024" ∷ [];
  sign = λ name key m. ok (5 ∷ []);
  verify = λ name m signature key. ok true;
  kem_keypair = λ name seed. (3 ∷ [], 4 ∷ []);
  encap_secret = λ name key draw. ok (1 ∷ [], 2 ∷ []);
  decap_secret = λ name key ct. ok (2 ∷ []);
  x25519_public = λ key. key;
  x25519_exchange = λ key public. ok (6 ∷ []);
  match_domain = λ pattern domain. false;
}

pub toy_crypto-IsAgreement : IsAgreement toy_crypto
toy_crypto-IsAgreement = record {
  exchanged = λ a b s h. h;
  decapsulated = λ name seed draw ct s h. cc;
}

-- A serializer of which only one value is read back.
abbrev pub toy_serial : Value → Serial
toy_serial v = record { serialize = λ x. 7 ∷ []; deserialize = λ b. ok v; casefold = λ t. t }

abbrev pub toy_env : Value → Env
toy_env v = record { crypto = toy_crypto; hashes = zeros; serial = toy_serial v; strip = λ t. t }
