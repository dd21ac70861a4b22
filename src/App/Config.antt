-- ===== src/App/Config.antt =====
-- server/_models.py: `DEPConfig`. Numbers are Python integers; the one float, the interval of draining,
-- stands as an integer of some small unit. The matcher of domains is the package gnobjects's: the
-- parameter `match_any` is `DomainMatcherList`, `match_one` is `DomainMatcherDict`. The answer of a
-- callback is taken as awaited. Arguments that are stored and not read here are left out: the keys
-- and the domains for the start, the callback of key synchronisation and its filter.
pub mod Bounds
use gnserver.Base.{
  ℕ, zero, suc, ◌≤◌, max, Bool, true, false, not, ◌&&◌, Option, none, some, List, [], ◌∷◌, ltb,
  nat_beq, if◌then◌else◌, Text, codes, list_eq, nat_eq, Result, ok, raise, type_error, ◌>>=◌,
}
use gnserver.Base.Dict.{Dict, get, put, has}
use gnserver.Base.Int.{ℤ, pos, negsuc, pos_part}

-- `established_encryption_types_for_domain`; `unknown` is a value of another class
pub data Policy : Type 0 where
  unset : Policy
  boolean : Bool → Policy
  table : Dict Text ℤ → Policy
  number : ℤ → Policy
  function : (Text → Option ℤ) → Policy
  unknown : Policy

-- `_DEP_DEFAULT_ALL`
abbrev pub default_all : Dict Text ℤ
default_all =
    (codes "*~*.origin.shield.gn", pos 2) ∷ (codes "[::1]**", pos 0) ∷ (codes "**", pos 1) ∷ []

-- `_DEP_DEFAULT_SPECIFIC`
abbrev pub default_specific : Dict Text ℤ
default_specific = (codes "*~*.origin.shield.gn", pos 2) ∷ (codes "[::1]**", pos 0) ∷ []

-- The arguments of the constructor; None is `none`.
pub record DepArgs : Type 0 where
  pub kdc_allowed_domains : Option (List Text)
  pub kdc_allowed_domains_callback : Option (Text → Bool)
  pub established_encryption_types_for_domain : Policy
  pub allow_unencrypted_connections : Bool
  pub allow_local_unencrypted_connections : Bool
  pub incoming_datagram_workers : Option ℤ
  pub incoming_datagram_queue_size : Option ℤ
  pub incoming_datagram_global_lock : Bool
  pub max_inactive_transport_sessions : Option ℤ
  pub stream_send_high_watermark : Option ℤ
  pub stream_send_low_watermark : Option ℤ
  pub stream_send_drain_interval : ℤ
  pub iter_payload_chunk_size : Option ℤ

-- The attribute `established_encryption_types_for_domain`, after the constructor.
pub data EncryptionPolicy : Type 0 where
  merged : Dict Text ℤ → EncryptionPolicy
  fixed : ℤ → EncryptionPolicy
  asked : (Text → Option ℤ) → EncryptionPolicy

pub record DepConfig : Type 0 where
  pub kdc_allowed_domains_matcher : Option (List Text)
  pub kdc_allowed_domains_callback : Option (Text → Bool)
  pub allow_unencrypted_connections : Bool
  pub allow_local_unencrypted_connections : Bool
  pub incoming_datagram_workers : ℕ
  pub incoming_datagram_queue_size : ℕ
  pub incoming_datagram_global_lock : Bool
  pub max_inactive_transport_sessions : ℕ
  pub stream_send_high_watermark : ℕ
  pub stream_send_low_watermark : ℕ
  pub stream_send_drain_interval : ℕ
  pub iter_payload_chunk_size : ℕ
  pub established_encryption_types_for_domain : EncryptionPolicy
  pub established_matcher : Dict Text ℤ

-- `int(x or d)`
unfoldable pub int_or : Option ℤ → ℕ → ℤ
int_or none d = pos d
int_or (some (pos zero)) d = pos d
int_or (some (pos (suc n))) d = pos (suc n)
int_or (some (negsuc n)) d = negsuc n

-- `max(least, i)`
unfoldable pub at_least : ℕ → ℤ → ℕ
at_least least i = max least (pos_part i)

-- `for k, v in _DEP_DEFAULT_ALL.items(): if k not in merged: merged[k] = v`
unfoldable pub merge_defaults : Dict Text ℤ → Dict Text ℤ → Dict Text ℤ
unfolding has put
merge_defaults given [] = given
merge_defaults given ((k, v) ∷ l) = merge_defaults (if has k given then given else put k v given) l

unfoldable pub establish_policy : Policy → Result (EncryptionPolicy × Dict Text ℤ)
unfolding merge_defaults
establish_policy (boolean b) = raise type_error
establish_policy unset = let m = merge_defaults [] default_all in ok (merged m, m)
establish_policy (table given) = let m = merge_defaults given default_all in ok (merged m, m)
establish_policy (number i) = ok (fixed i, default_specific)
establish_policy (function f) = ok (asked f, default_specific)
establish_policy unknown = raise type_error

-- The low watermark is not above the high one, if there is a high one.
unfoldable pub low_watermark : ℕ → ℕ → ℕ
low_watermark high low = if not (nat_beq high 0) && ltb high low then high else low

-- The part of `DEPConfig.__init__` that sets the numbers.
unfoldable pub configure : DepArgs → EncryptionPolicy → Dict Text ℤ → DepConfig
unfolding int_or at_least low_watermark
configure args policy matcher =
    let high = at_least 0 (int_or args.stream_send_high_watermark 0) in
    record {
      kdc_allowed_domains_matcher = args.kdc_allowed_domains;
      kdc_allowed_domains_callback = args.kdc_allowed_domains_callback;
      allow_unencrypted_connections = args.allow_unencrypted_connections;
      allow_local_unencrypted_connections = args.allow_local_unencrypted_connections;
      incoming_datagram_workers = at_least 1 (int_or args.incoming_datagram_workers 1);
      incoming_datagram_queue_size = at_least 1 (int_or args.incoming_datagram_queue_size 1);
      incoming_datagram_global_lock = args.incoming_datagram_global_lock;
      max_inactive_transport_sessions = at_least 1 (int_or args.max_inactive_transport_sessions 1);
      stream_send_high_watermark = high;
      stream_send_low_watermark =
          low_watermark high (at_least 0 (int_or args.stream_send_low_watermark 0));
      stream_send_drain_interval = at_least 0 args.stream_send_drain_interval;
      iter_payload_chunk_size = at_least 1 (int_or args.iter_payload_chunk_size 1);
      established_encryption_types_for_domain = policy;
      established_matcher = matcher;
    }

-- `DEPConfig.__init__`
unfoldable pub new_dep_config : DepArgs → Result DepConfig
unfolding establish_policy configure
new_dep_config args = do
  (policy, matcher) ← establish_policy args.established_encryption_types_for_domain
  ok (configure args policy matcher)

-- `DEPConfig.isKDCAllowedForDomain`
unfoldable pub is_kdc_allowed_for_domain : (List Text → Text → Bool) → DepConfig → Text → Bool
is_kdc_allowed_for_domain match_any c domain =
    let allowed : Bool = elim c.kdc_allowed_domains_matcher [
      | none ↦ true
      | some l ↦ match_any l domain
    ] in
    elim c.kdc_allowed_domains_callback [ none ↦ allowed | some f ↦ allowed && f domain ]

-- What the policy says where no specific default does.
unfoldable pub type_by_policy : EncryptionPolicy → Text → Option ℤ
type_by_policy (merged m) domain = none
type_by_policy (fixed i) domain = some i
type_by_policy (asked f) domain = f domain

unfoldable pub established_type :
    (Dict Text ℤ → Text → Option ℤ) → EncryptionPolicy → Dict Text ℤ → Text → Option ℤ
unfolding type_by_policy
established_type match_one (merged m) matcher domain = match_one matcher domain
established_type match_one policy matcher domain = elim (match_one matcher domain) [
  | none ↦ type_by_policy policy domain
  | some i ↦ some i
]

-- `DEPConfig.getEstablishedEncryptionTypeForDomain`
unfoldable pub get_established_encryption_type_for_domain :
    (Dict Text ℤ → Text → Option ℤ) → DepConfig → Text → Option ℤ
unfolding established_type
get_established_encryption_type_for_domain match_one c domain =
    established_type match_one c.established_encryption_types_for_domain c.established_matcher
      domain
