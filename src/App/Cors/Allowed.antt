-- ===== src/App/Cors/Allowed.antt =====
-- server/_cors_resolver.py: which requests `resolve_cors` lets through.
use gnserver.Base.{◌≡◌, ◌⊎◌, Bool, true, Option, none, some, List, Text, codes, list_eq, nat_eq}
use gnserver.Params.Schema.{contains}
use gnserver.App.Cors.{Domains, anyone, Cors, Caller, matcher_allows, callback_allows}

-- The list is given and holds the text.
abbrev pub InList : Text → Option (List Text) → Type 0
InList x o = (l : List Text) × (o ≡ some l) × (contains x l ≡ true)

-- The list is not given, or holds the text.
abbrev pub FreeOrListed : Text → Option (List Text) → Type 0
FreeOrListed x o = (o ≡ none) ⊎ InList x o

-- What the rules of an object demand of a caller.
abbrev pub ClientAllowed : Cors → Caller → Type 0
ClientAllowed c r =
    (contains r.client_type c.allow_client_types ≡ true)
    ⊎ (r.client_type_int ≡ 0)
    ⊎ InList r.client_domain c.except_client_types_domains

abbrev pub ObjectAllowed : Cors → Caller → Type 0
ObjectAllowed c r =
    (¬ (r.client_type ≡ codes "net"))
    ⊎ (contains r.object_type c.allow_object_types ≡ true)
    ⊎ (r.client_type_int ≡ 0)
    ⊎ InList r.client_domain c.except_object_types_domains

abbrev pub TransportAllowed : Cors → Caller → Type 0
TransportAllowed c r =
    ((¬ (r.transport ≡ codes "gn:quik:real")) × (¬ (r.transport ≡ codes "gn:quik:dev")))
    ⊎ FreeOrListed r.transport c.allow_transport_protocols

module _ (match_any : List Text → Text → Bool) where
  -- The matcher and the callback that `__init__` made accept the domain.
  abbrev pub OriginAllowed : Domains → Cors → Caller → Type 0
  OriginAllowed anyone c r = Unit
  OriginAllowed _ c r =
      (matcher_allows match_any c.allowed_domains_matcher r.client_domain ≡ true)
      × (callback_allows match_any c.allowed_domains_callback r.client_domain ≡ true)
