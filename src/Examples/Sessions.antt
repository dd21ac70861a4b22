-- ===== src/Examples/Sessions.antt =====
-- The theorems on the handshake and its messages at concrete inputs.
use gnserver.Base.{
  ℕ, ◌==◌, Eq, list_eq, nat_eq, ◌≡◌, ◌↔◌, ◌<◌, ◌+◌, ◌^◌, refl, Bool, true, false, Option, none,
  some, List, [], ◌∷◌, ◌++◌, arith, replicate, length, is_empty, Bytes, Text, codes, Result, ok,
}
use gnserver.Base.BigEndian.{be_bytes, to_bytes}
use gnserver.Base.Int.{pos}
use gnserver.Base.Utf8.{encode}
use gnserver.Session.Wire.{encode_text, encode_blob, decode_text, decode_text-encode_text}
use gnserver.Session.Messages.{
  client_finish_from_bytes, client_finish_from_bytes_iff, client_hello_from_bytes,
  client_hello_to_bytes, IsClientHello, client_hello_from_bytes_iff, client_finish_to_bytes,
  new_client_hello, new_client_finish, new_commit,
}
use gnserver.Session.Keys.{
  transcript, append_blobs, build_domain_binding, build_transcript_hash,
  build_server_signature_message, derive_session_root64, derive_kdc_mix, build_commit_payload,
  verify_commit_payload,
}
use gnserver.Session.Keys.Transcript.{transcript-injective}
use gnserver.Session.Keys.Laws.{verify_commit_payload_iff}
use gnserver.Session.Certificate.{
  algorithm_name_aliases, Value, Fields, bytes, str, int, datetime, dict, done, field, Certificate,
  ServerHello, from_dict, signed_dict, find, read_keys, new_certificate, normalize_public_keys,
  normalize_algorithm_name, alias_of, get_public_key, unsigned_bytes, certificate_to_bytes,
  certificate_from_bytes, new_server_hello, hello_unsigned_bytes, hello_to_bytes, hello_from_bytes,
}
use gnserver.Session.Certificate.Hello.{hello_from_bytes-hello_to_bytes, from_dict-signed_dict}
use gnserver.Session.Handshake.{
  Identity, ClientState, ServerState, Completion, build_client_handshake, build_server_handshake,
  complete_client_handshake, complete_server_handshake, establish, verify_server,
  verify_certificate, certificate_message, check_identity, sign_hello, covers_domain,
  normalize_signature_name, oqs_signature_name, oqs_kem_name,
}
use gnserver.Session.Names.{
  cert_name_covers_domain-literal, oqs_name-normalize_name, cert_name_covers_domain, covers,
  strip_all, split_comma, has_star, normalize_name, find_enabled, oqs_name,
}
use gnserver.Session.Handshake.Agreement.{complete_server-complete_client}
use gnserver.Examples.Toys.{zeros, zeros-HasLengths, toy_crypto-IsAgreement, toy_serial, toy_env}

abbrev key32 : Bytes
key32 = replicate 32 8

abbrev nonce32 : Bytes
nonce32 = replicate 32 9

abbrev toy_fields : Fields
toy_fields = field (codes "c") (str (codes "core")) (
    field (codes "c_v") (int (pos 1)) (
      field (codes "domain") (str (codes "a.gn")) (
        field (codes "algs")
          (dict (field (codes "ml-dsa-87") (dict (field (codes "pub") (bytes (3 ∷ [])) done)) done))
          (field (codes "exp") (datetime 100) done))))

abbrev toy_value : Value
toy_value =
    dict (field (codes "data") (dict toy_fields) (field (codes "sign") (bytes (1 ∷ [])) done))

abbrev toy_certificate : Certificate
toy_certificate = record {
  center_domain = codes "core";
  center_key_version = pos 1;
  name = codes "a.gn";
  public_keys = (codes "ml-dsa-87", 3 ∷ []) ∷ [];
  expires_at = 100;
  signature = 1 ∷ [];
  source_data = some toy_fields;
}

toy_certificate_read : from_dict (toy_serial toy_value) toy_value ≡ ok toy_certificate
unfolding from_dict find read_keys new_certificate normalize_public_keys normalize_algorithm_name
    alias_of gnserver.Base.Dict.get gnserver.Base.Dict.put
toy_certificate_read = refl

from_dict-signed_dict_example :
    from_dict (toy_serial toy_value) (signed_dict toy_certificate) ≡ ok toy_certificate
from_dict-signed_dict_example =
    from_dict-signed_dict (toy_serial toy_value) toy_value toy_certificate toy_certificate_read

abbrev toy_hello : ServerHello
toy_hello = record {
  server_nonce = nonce32;
  server_x25519_public_key = key32;
  server_ml_kem_public_key = 3 ∷ [];
  signature_algorithm = codes "ml-dsa-87";
  server_certificate = toy_certificate;
  signature = 5 ∷ [];
}

abbrev toy_hello_bytes : Bytes
toy_hello_bytes =
    nonce32
    ++ (key32
        ++ ((0 ∷ 1 ∷ 3 ∷ [])
            ++ ((0 ∷ 9 ∷ codes "ml-dsa-87") ++ ((0 ∷ 1 ∷ 7 ∷ []) ++ (0 ∷ 1 ∷ 5 ∷ [])))))

toy_hello_written : hello_to_bytes (toy_serial toy_value) toy_hello ≡ ok toy_hello_bytes
unfolding hello_to_bytes hello_unsigned_bytes encode_blob encode_text certificate_to_bytes encode
    to_bytes be_bytes
toy_hello_written = refl

toy_certificate_back :
    certificate_from_bytes
      (toy_serial toy_value)
      (certificate_to_bytes (toy_serial toy_value) toy_certificate)
    ≡ ok toy_certificate
unfolding certificate_from_bytes
toy_certificate_back = toy_certificate_read

hello_from_bytes_example : hello_from_bytes (toy_serial toy_value) toy_hello_bytes ≡ ok toy_hello
hello_from_bytes_example =
    hello_from_bytes-hello_to_bytes (toy_serial toy_value) toy_hello toy_hello_bytes toy_certificate
      (record { nonce = refl; key = refl; kem = refl; algorithm = refl }) toy_hello_written
      toy_certificate_back

abbrev toy_identity : Identity
toy_identity = record {
  certificate = toy_certificate;
  private_keys = (codes "ml-dsa-87", 4 ∷ []) ∷ [];
}

abbrev toy_client : ClientState
toy_client = record {
  client_hello = record { client_nonce = nonce32; client_x25519_public_key = key32 };
  x25519_private_key = key32;
}

abbrev toy_server : ServerState
toy_server = record {
  client_hello = record { client_nonce = nonce32; client_x25519_public_key = key32 };
  server_hello = toy_hello;
  ml_kem_private_key = 4 ∷ [];
  x25519_shared_secret = 6 ∷ [];
}

abbrev toy_completion : Completion
toy_completion = record {
  established = record { transcript_hash = replicate 64 0; root64 = replicate 64 0 };
  client_finish = record { ml_kem_ciphertext = 1 ∷ [] };
  commit = record { transcript_hash = replicate 64 0; commit_tag = replicate 32 0 };
}

toy_client_built : build_client_handshake (toy_env toy_value) key32 nonce32 ≡ ok toy_client
unfolding build_client_handshake new_client_hello
toy_client_built = refl

toy_server_built :
    build_server_handshake
      (toy_env toy_value)
      []
      key32
      nonce32
      (codes "a.gn")
      toy_identity
      toy_client.client_hello
    ≡ ok toy_server
unfolding build_server_handshake check_identity sign_hello covers_domain cert_name_covers_domain
    covers strip_all split_comma has_star normalize_signature_name normalize_name find_enabled
    oqs_signature_name oqs_kem_name oqs_name alias_of get_public_key normalize_algorithm_name
    new_server_hello hello_unsigned_bytes encode_blob encode_text certificate_to_bytes encode
    to_bytes be_bytes build_server_signature_message build_domain_binding client_hello_to_bytes
    gnserver.Base.Dict.get gnserver.Base.Dict.has
toy_server_built = refl

toy_client_done :
    complete_client_handshake
      (toy_env toy_value)
      []
      (codes "a.gn")
      toy_client
      toy_server.server_hello
      []
      (codes "ml-dsa-87")
      50
      none
    ≡ ok toy_completion
unfolding complete_client_handshake verify_server verify_certificate certificate_message establish
    new_client_finish covers_domain cert_name_covers_domain covers strip_all split_comma has_star
    normalize_signature_name normalize_name find_enabled oqs_signature_name oqs_kem_name oqs_name
    alias_of get_public_key normalize_algorithm_name hello_unsigned_bytes hello_to_bytes encode_blob
    encode_text certificate_to_bytes unsigned_bytes encode to_bytes be_bytes
    build_server_signature_message build_domain_binding client_hello_to_bytes client_finish_to_bytes
    build_transcript_hash transcript append_blobs derive_session_root64 derive_kdc_mix
    build_commit_payload new_commit gnserver.Base.Dict.get
toy_client_done = refl

complete_server-complete_client_example :
    (complete_server_handshake
        (toy_env toy_value)
        (codes "a.gn")
        toy_server
        toy_completion.client_finish
        none
      ≡ ok toy_completion.established)
    × (verify_commit_payload zeros toy_completion.established.root64 toy_completion.commit
        ≡ ok true)
complete_server-complete_client_example =
    complete_server-complete_client (toy_env toy_value) key32 nonce32 [] key32 nonce32 []
      (codes "a.gn") toy_identity toy_client toy_server [] (codes "ml-dsa-87") 50 none
      toy_completion toy_crypto-IsAgreement toy_client_built toy_server_built toy_client_done

abbrev toy_transcript : Bytes
toy_transcript = replicate 64 0 ++ (0 ∷ 2 ∷ 5 ∷ 6 ∷ 0 ∷ 1 ∷ 7 ∷ [])

toy_transcript_made :
    transcript zeros (codes "a.gn") ((5 ∷ 6 ∷ []) ∷ (7 ∷ []) ∷ []) ≡ ok toy_transcript
unfolding transcript build_domain_binding append_blobs encode_blob encode to_bytes be_bytes
toy_transcript_made = refl

abbrev toy_payloads : List Bytes
toy_payloads = (5 ∷ 6 ∷ []) ∷ (7 ∷ []) ∷ []

transcript-injective_example :
    (toy_payloads ≡ toy_payloads)
    × (build_domain_binding zeros (codes "a.gn") ≡ build_domain_binding zeros (codes "a.gn"))
transcript-injective_example =
    transcript-injective zeros (codes "a.gn") (codes "a.gn") toy_payloads toy_payloads
      toy_transcript zeros-HasLengths toy_transcript_made toy_transcript_made

domain_encoded : encode (codes "a.gn") ≡ ok (codes "a.gn")
unfolding encode
domain_encoded = refl

verify_commit_payload_iff_example :
    (verify_commit_payload zeros (replicate 64 0) toy_completion.commit ≡ ok true)
    ↔ (build_commit_payload zeros (replicate 64 0) (replicate 64 0) ≡ ok toy_completion.commit)
verify_commit_payload_iff_example =
    verify_commit_payload_iff zeros (replicate 64 0) toy_completion.commit

client_hello_from_bytes_iff_example :
    (client_hello_from_bytes (nonce32 ++ key32) ≡ ok toy_client.client_hello) ↔ (
      IsClientHello toy_client.client_hello
      × (client_hello_to_bytes toy_client.client_hello ≡ nonce32 ++ key32))
client_hello_from_bytes_iff_example =
    client_hello_from_bytes_iff (nonce32 ++ key32) toy_client.client_hello

client_finish_from_bytes_iff_example :
    (client_finish_from_bytes (0 ∷ 1 ∷ 1 ∷ []) ≡ ok toy_completion.client_finish) ↔ (
      (is_empty toy_completion.client_finish.ml_kem_ciphertext ≡ false)
      × (client_finish_to_bytes toy_completion.client_finish ≡ ok (0 ∷ 1 ∷ 1 ∷ [])))
client_finish_from_bytes_iff_example =
    client_finish_from_bytes_iff (0 ∷ 1 ∷ 1 ∷ []) toy_completion.client_finish
      (omega arith, (omega arith, (omega arith, tt)))

text_encoded : encode_text (codes "a.gn") ≡ ok (0 ∷ 4 ∷ codes "a.gn")
unfolding encode_text encode encode_blob to_bytes be_bytes
text_encoded = refl

decode_text-encode_text_example :
    decode_text ((9 ∷ []) ++ ((0 ∷ 4 ∷ codes "a.gn") ++ (8 ∷ []))) 1 ≡ ok (codes "a.gn", 1 + 6)
decode_text-encode_text_example =
    decode_text-encode_text (9 ∷ []) (0 ∷ 4 ∷ codes "a.gn") (8 ∷ []) (codes "a.gn") 1 text_encoded
      refl

no_star : has_star (codes "a.gn") ≡ false
unfolding has_star
no_star = refl

cert_name_covers_domain-literal_example :
    cert_name_covers_domain (λ t. t) (λ pattern domain. true) (codes "a.gn") (codes "b.gn")
    ≡ (codes "a.gn" == codes "b.gn")
cert_name_covers_domain-literal_example =
    cert_name_covers_domain-literal (λ t. t) (λ pattern domain. true) (codes "a.gn") (codes "b.gn")
      refl no_star refl refl

dilithium_normalised :
    normalize_name (λ t. t) algorithm_name_aliases (codes "ml-dsa-87" ∷ []) (codes "dilithium5")
    ≡ ok (codes "ml-dsa-87")
unfolding normalize_name find_enabled alias_of gnserver.Base.Dict.get
dilithium_normalised = refl

oqs_name-normalize_name_example :
    (candidate : Text) × (oqs_name (λ t. t) (codes "ml-dsa-87" ∷ []) (codes "ml-dsa-87")
      ≡ ok candidate)
    × (candidate ≡ codes "ml-dsa-87")
oqs_name-normalize_name_example =
    oqs_name-normalize_name (λ t. t) algorithm_name_aliases (codes "ml-dsa-87" ∷ [])
      (codes "dilithium5") (codes "ml-dsa-87") dilithium_normalised
