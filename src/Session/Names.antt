-- ===== src/Session/Names.antt =====
-- _gn_pq_handshake.py: which domains the name of a certificate covers, and the names of algorithms in
-- the program and in liboqs.
use gnserver.Base.{
  ◌≡◌, sym, ap, ◌∙◌, Bool, true, false, Option, none, some, List, [], ◌∷◌, ◌++◌, not, ◌||◌, ◌&&◌,
  is_empty, nat_beq, if◌then◌else◌, Text, codes, Result, ok, raise, mechanism_not_supported, ◌==◌,
  nat_eq, list_eq, list_beq_iff, arith, Bool-cases, Option-cases, inl, inr,
}
use mathlib.Core.List.{append_assoc, append-nil}
use gnserver.Base.Dict.{Dict}
use gnserver.Session.Certificate.{alias_of}

-- `text.split(",")`, with the part that is being read.
unfoldable pub split_comma : Text → Text → List Text
split_comma acc [] = acc ∷ []
split_comma acc (c ∷ cs) =
    let here = split_comma (acc ++ c ∷ []) cs in
    let next = split_comma [] cs in if nat_beq c 44 then acc ∷ next else here

-- `"*" in text`
unfoldable pub has_star : Text → Bool
has_star [] = false
has_star (c ∷ cs) = nat_beq c 42 || has_star cs

-- `_gn_cert_name_covers_domain`; `strip` is `str.strip`.
unfoldable pub covers : (Text → Text → Bool) → Text → List Text → Bool
covers match_domain domain [] = false
covers match_domain domain (pattern ∷ patterns) =
    let rest = covers match_domain domain patterns in
    if is_empty pattern
    then rest
    else if pattern == domain
    then true
    else if has_star pattern && not (has_star domain) && match_domain pattern domain
    then true
    else rest

unfoldable pub strip_all : (Text → Text) → List Text → List Text
strip_all strip [] = []
strip_all strip (x ∷ xs) = strip x ∷ strip_all strip xs

unfoldable pub cert_name_covers_domain : (Text → Text) → (Text → Text → Bool) → Text → Text → Bool
cert_name_covers_domain strip match_domain cert_name domain =
    covers match_domain domain (strip_all strip (split_comma [] cert_name))

-- The loop over the enabled algorithms: the first that is the name, letter case aside.
unfoldable pub find_enabled : (Text → Text) → Text → List Text → Option Text
find_enabled casefold name [] = none
find_enabled casefold name (candidate ∷ rest) =
    let later = find_enabled casefold name rest in
    if casefold candidate == name then some candidate else later

unfoldable pub normalize_name : (Text → Text) → Dict Text Text → List Text → Text → Result Text
normalize_name casefold aliases enabled algorithm =
    let normalized = alias_of aliases (casefold algorithm) in
    elim (find_enabled casefold normalized enabled) [
      | none ↦ raise mechanism_not_supported
      | some candidate ↦ ok normalized
    ]

-- `_get_oqs_algorithm_name`
unfoldable pub oqs_name : (Text → Text) → List Text → Text → Result Text
oqs_name casefold enabled normalized = elim (find_enabled casefold normalized enabled) [
  | none ↦ raise mechanism_not_supported
  | some candidate ↦ ok candidate
]

abbrev pub kem_aliases : Dict Text Text
kem_aliases =
    (codes "kyber512", codes "ml-kem-512")
    ∷ (codes "kyber768", codes "ml-kem-768")
    ∷ (codes "kyber1024", codes "ml-kem-1024")
    ∷ []

abbrev pub kem_algorithm : Text
kem_algorithm = codes "ml-kem-1024"

abbrev pub signature_algorithm : Text
signature_algorithm = codes "ml-dsa-87"

-- Whether a text has no comma in it.
abbrev pub has_comma : Text → Bool
has_comma [] = false
has_comma (c ∷ cs) = nat_beq c 44 || has_comma cs

split_comma-has_comma : (acc t : Text) → has_comma t ≡ false → split_comma acc t ≡ (acc ++ t) ∷ []
unfolding split_comma
split_comma-has_comma acc [] h = ap (λ x. x ∷ []) (sym (append-nil acc))
split_comma-has_comma acc (c ∷ cs) h =
    let ih = split_comma-has_comma (acc ++ c ∷ []) cs (ground arith) in
    let here : nat_beq c 44 ≡ false = ground arith in
    rw (split_comma, here, ih) (ap (λ x. x ∷ []) (append_assoc acc (c ∷ []) cs))

-- A name without a comma and without a star, which is not empty and which `strip` leaves as it is,
-- covers exactly the domain that it is, whatever the matcher says.
pub cert_name_covers_domain-literal :
    (strip : Text → Text) (match_domain : Text → Text → Bool) (name domain : Text)
    → has_comma name ≡ false
    → has_star name ≡ false
    → is_empty name ≡ false
    → strip name ≡ name
    → cert_name_covers_domain strip match_domain name domain ≡ (name == domain)
unfolding cert_name_covers_domain covers strip_all
cert_name_covers_domain-literal strip match_domain name domain comma star full kept =
    let one = split_comma-has_comma [] name comma in
    elim (Bool-cases (name == domain)) [
      | inl same ↦ rw (cert_name_covers_domain, one, kept, full, same)
      | inr other ↦ rw (cert_name_covers_domain, one, kept, full, other, star)
    ]

find_enabled-eq-some :
    (casefold : Text → Text) (name : Text) (enabled : List Text) (found : Text)
    → find_enabled casefold name enabled ≡ some found
    → casefold found ≡ name
unfolding find_enabled
find_enabled-eq-some casefold name [] found e = absurd (ground arith)
find_enabled-eq-some casefold name (x ∷ xs) found e = elim (Bool-cases (casefold x == name)) [
  | inl same ↦
      let named = (list_beq_iff (casefold x) name).0 same in
      let first : x ≡ found = ground arith in ap casefold (sym first) ∙ named
  | inr other ↦ find_enabled-eq-some casefold name xs found (ground arith)
]

-- A name that was normalised has a name in the package, which differs from it at most by the case
-- of letters.
pub oqs_name-normalize_name :
    (casefold : Text → Text) (aliases : Dict Text Text) (enabled : List Text)
    (algorithm name : Text)
    → normalize_name casefold aliases enabled algorithm ≡ ok name
    → (candidate : Text) × (oqs_name casefold enabled name ≡ ok candidate)
      × (casefold candidate ≡ name)
unfolding normalize_name oqs_name
oqs_name-normalize_name casefold aliases enabled algorithm name e =
    let normalized = alias_of aliases (casefold algorithm) in
    elim (Option-cases (find_enabled casefold normalized enabled)) [
      | inl gone ↦ absurd (ground arith)
      | inr (candidate, found) ↦
          let same : normalized ≡ name = ground arith in
          let found' : find_enabled casefold name enabled ≡ some candidate = rw same at found in
          (
            candidate,
            rw (oqs_name, found'),
            find_enabled-eq-some casefold name enabled candidate found',
          )
    ]
