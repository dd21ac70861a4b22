-- ===== src/App/Cors.antt =====
-- server/_models.py: `CORSObject`; server/_cors_resolver.py: `resolve_cors`. The matcher of domains is
-- the package gnobjects's `DomainMatcherList`: the parameter `match_any` takes its patterns and a
-- domain. A callback's answer is taken as awaited.
pub mod Allowed
use gnserver.Base.{
  ℕ, Bool, true, false, not, ◌&&◌, ◌||◌, Option, none, some, List, [], ◌∷◌, nat_beq, if◌then◌else◌,
  Text, codes, ◌==◌, list_eq, nat_eq, Result, ok, raise, raise_if, ◌>>◌, ◌>>=◌, type_error,
  client_type_not_allowed, object_type_not_allowed, origin_not_allowed, cors_method_not_allowed,
  transport_protocol_not_allowed,
}
use gnserver.Params.Schema.{contains}

-- The argument `allowed_domains`; `unknown` is a value of another class.
pub data Domains : Type 0 where
  anyone : Domains
  one : Text → Domains
  listed : List Text → Domains
  callback : (Text → Bool) → Domains
  unknown : Domains

-- `ident` stands for the identity of the object.
pub record Cors : Type 0 where
  pub ident : ℕ
  pub allowed_domains : Domains
  pub allowed_domains_matcher : Option (List Text)
  pub allowed_domains_callback : Option (Text → Bool)
  pub allow_methods : Option (List Text)
  pub allow_object_types : List Text
  pub allow_client_types : List Text
  pub allow_transport_protocols : Option (List Text)
  pub allow_route_protocols : Option (List Text)
  pub allow_request_protocols : Option (List Text)
  pub except_object_types_domains : Option (List Text)
  pub except_client_types_domains : Option (List Text)

-- The arguments of the constructor.
pub record CorsArgs : Type 0 where
  pub allowed_domains : Domains
  pub allow_object_types : List Text
  pub allow_client_types : List Text
  pub allow_methods : Option (List Text)
  pub allow_transport_protocols : Option (List Text)
  pub allow_route_protocols : Option (List Text)
  pub allow_request_protocols : Option (List Text)
  pub except_object_types_domains : Option (List Text)
  pub except_client_types_domains : Option (List Text)

-- The arguments that are not given.
abbrev pub default_args : CorsArgs
default_args = record {
  allowed_domains = anyone;
  allow_object_types = codes "user" ∷ codes "service" ∷ [];
  allow_client_types = codes "net" ∷ codes "local" ∷ codes "server" ∷ [];
  allow_methods = none;
  allow_transport_protocols = none;
  allow_route_protocols = none;
  allow_request_protocols = none;
  except_object_types_domains = none;
  except_client_types_domains = none;
}

unfoldable pub domain_patterns : Domains → Result (Option (List Text))
domain_patterns anyone = ok none
domain_patterns (one d) = ok (some (d ∷ []))
domain_patterns (listed l) = ok (some l)
domain_patterns (callback f) = ok none
domain_patterns unknown = raise type_error

unfoldable pub domain_callback : Domains → Option (Text → Bool)
domain_callback (callback f) = some f
domain_callback _ = none

-- `CORSObject.__init__`
unfoldable pub new_cors : ℕ → CorsArgs → Result Cors
unfolding domain_patterns domain_callback
new_cors ident args = do
  patterns ← domain_patterns args.allowed_domains
  ok (record {
    ident = ident;
    allowed_domains = args.allowed_domains;
    allowed_domains_matcher = patterns;
    allowed_domains_callback = domain_callback args.allowed_domains;
    allow_methods = args.allow_methods;
    allow_object_types = args.allow_object_types;
    allow_client_types = args.allow_client_types;
    allow_transport_protocols = args.allow_transport_protocols;
    allow_route_protocols = args.allow_route_protocols;
    allow_request_protocols = args.allow_request_protocols;
    except_object_types_domains = args.except_object_types_domains;
    except_client_types_domains = args.except_client_types_domains;
  })

-- What `resolve_cors` reads of a request.
pub record Caller : Type 0 where
  pub client_domain : Text
  pub client_type : Text
  pub client_type_int : ℕ
  pub object_type : Text
  pub method : Text
  pub transport : Text

-- `domain in l`, for a list that may be None
unfoldable pub excepted : Option (List Text) → Text → Bool
unfolding contains
excepted none domain = false
excepted (some l) domain = contains domain l

-- `x in l`, where no list lets everything through
unfoldable pub listed_or_free : Option (List Text) → Text → Bool
unfolding contains
listed_or_free none x = true
listed_or_free (some l) x = contains x l

unfoldable pub check_client_type : Cors → Caller → Result (Unit {0})
unfolding contains excepted
check_client_type c r =
    raise_if
      (not (contains r.client_type c.allow_client_types)
        && not (nat_beq r.client_type_int 0)
        && not (excepted c.except_client_types_domains r.client_domain))
      client_type_not_allowed

unfoldable pub check_object_type : Cors → Caller → Result (Unit {0})
unfolding contains excepted
check_object_type c r =
    raise_if
      (r.client_type == codes "net"
        && (not (contains r.object_type c.allow_object_types)
            && not (nat_beq r.client_type_int 0)
            && not (excepted c.except_object_types_domains r.client_domain)))
      object_type_not_allowed

module _ (match_any : List Text → Text → Bool) where
  unfoldable pub matcher_allows : Option (List Text) → Text → Bool
  matcher_allows none domain = true
  matcher_allows (some patterns) domain = match_any patterns domain

  unfoldable pub callback_allows : Option (Text → Bool) → Text → Bool
  callback_allows none domain = true
  callback_allows (some f) domain = f domain

  unfoldable pub check_origin : Domains → Cors → Caller → Result (Unit {0})
  unfolding matcher_allows callback_allows
  check_origin anyone c r = ok tt
  check_origin _ c r =
      raise_if
        (not (
          matcher_allows c.allowed_domains_matcher r.client_domain
          && callback_allows c.allowed_domains_callback r.client_domain))
        origin_not_allowed

  unfoldable pub check_transport : Cors → Caller → Result (Unit {0})
  unfolding listed_or_free
  check_transport c r =
      raise_if
        ((r.transport == codes "gn:quik:real" || r.transport == codes "gn:quik:dev")
          && not (listed_or_free c.allow_transport_protocols r.transport))
        transport_protocol_not_allowed

  unfoldable pub resolve_given : Cors → Caller → Result (Unit {0})
  unfolding check_client_type check_object_type check_origin check_transport listed_or_free
  resolve_given c r = do
    check_client_type c r
    check_object_type c r
    check_origin c.allowed_domains c r
    raise_if (not (listed_or_free c.allow_methods r.method)) cors_method_not_allowed
    check_transport c r

  -- `resolve_cors`
  unfoldable pub resolve_cors : Caller → Option Cors → Result (Unit {0})
  unfolding resolve_given
  resolve_cors r none = ok tt
  resolve_cors r (some c) = resolve_given c r
