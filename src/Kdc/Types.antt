-- ===== src/Kdc/Types.antt =====
-- _kdc_object.py: key identifiers, and which of their types a KDC serves.
use gnserver.Base.{ℕ, Bool, ◌||◌, ◌&&◌, Text, nat_beq, leb}

-- `(key_type, key_id)`
abbrev pub KeyId : Type 0
KeyId = ℕ × ℕ

-- `domain_or_keyId`
pub data Item : Type 0 where
  domain : Text → Item
  keyid : KeyId → Item

unfoldable pub is_kdc_key_type_supported : ℕ → Bool
is_kdc_key_type_supported key_type =
    nat_beq key_type 0
    || (nat_beq key_type 251
        || (nat_beq key_type 252
            || (nat_beq key_type 253
                || (nat_beq key_type 255 || (leb 1 key_type && leb key_type 100)))))

unfoldable pub is_kdc_keyid_supported : KeyId → Bool
is_kdc_keyid_supported k = is_kdc_key_type_supported k.0
