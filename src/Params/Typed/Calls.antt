-- ===== src/Params/Typed/Calls.antt =====
-- server/_func_params_validation.py: which calls `validate_params` lets through.
use gnserver.Base.{
  ◌≡◌, refl, ◌↔◌, ◌⊎◌, inl, inr, Bool, true, false, Option, none, some, List, [], ◌∷◌, ◌++◌, All,
  Text, if◌then◌else◌, Bool-cases, list_eq, nat_eq,
}
use gnserver.Base.Dict.{Dict, get}
use gnserver.Params.{Value, compile_checker}
use gnserver.Params.Schema.{
  Field, Schema, Problem, contains, extra_keys, check_given, check_fields, validate_params,
}
use gnserver.Params.Typed.{HasType}
use gnserver.Params.Typed.Checkers.{checker_iff}

-- A field's value: of the type if it is given, and given if it has no default.
abbrev pub IsGiven : Field → Option Value → Type 0
IsGiven f none = f.required ≡ false
IsGiven f (some v) = HasType f.annotation v

-- Every key is the name of a parameter.
abbrev pub AreNamed : List Text → Dict Text Value → Type 0
AreNamed names params = All (λ (p : Text × Value). contains p.0 names ≡ true) params

nil_parts {ℓ} : {A : Type ℓ} (xs ys : List A) → xs ++ ys ≡ [] → (xs ≡ []) × (ys ≡ [])
nil_parts [] ys e = (refl, e)
nil_parts (x ∷ xs) ys e = absurd (cc e)

extra_keys_iff :
    (names : List Text) (params : Dict Text Value)
    → (extra_keys names params ≡ []) ↔ AreNamed names params
unfolding extra_keys
extra_keys_iff names [] = (λ _. tt, λ _. refl)
extra_keys_iff names ((k, v) ∷ l) = elim (Bool-cases (contains k names)) [
  | inl old ↦ let ih = extra_keys_iff names l in rw old ((λ h. (refl, ih.0 h), λ h. ih.1 h.1))
  | inr new ↦ rw new ((λ h. absurd (cc h), λ h. absurd (cc h.0)))
]

check_given_iff : (f : Field) (o : Option Value) → (check_given f o ≡ []) ↔ IsGiven f o
unfolding check_given
check_given_iff f none = elim (Bool-cases f.required) [
  | inl yes_required ↦ simp yes_required ((λ h. absurd (cc h), λ h. absurd (cc h)))
  | inr optional ↦ simp optional ((λ h. refl, λ h. refl))
]
check_given_iff f (some v) = elim (Bool-cases (compile_checker f.annotation v)) [
  | inl good ↦ rw good ((λ h. (checker_iff f.annotation v).0 good, λ h. refl))
  | inr bad ↦
      rw bad ((λ h. absurd (cc h), λ h. absurd (cc (bad, (checker_iff f.annotation v).1 h))))
]

check_fields_iff :
    (l : List Field) (params : Dict Text Value)
    → (check_fields l params ≡ []) ↔ All (λ (f : Field). IsGiven f (get f.name params)) l
unfolding check_fields
check_fields_iff [] params = (λ _. tt, λ _. refl)
check_fields_iff (f ∷ l) params =
    let here = check_given_iff f (get f.name params) in
    let ih = check_fields_iff l params in
    (
      λ h.
          let (a, b) = nil_parts (check_given f (get f.name params)) (check_fields l params) h in
          (here.0 a, ih.0 b),
      λ h. rw (here.1 h.0, ih.1 h.1),
    )

problems_iff :
    (b : Bool) (xs ys : List Problem) (N F : Type 0)
    → (xs ≡ []) ↔ N
    → (ys ≡ []) ↔ F
    → ((if b then [] else xs) ++ ys ≡ []) ↔ (((b ≡ true) ⊎ N) × F)
problems_iff true xs ys N F n f = (λ h. (inl refl, f.0 h), λ h. f.1 h.1)
problems_iff false xs ys N F n f = (
  λ h. let (a, b) = nil_parts xs ys h in (inr (n.0 a), f.0 b),
  λ (h, k). elim h [ inl e ↦ absurd (cc e) | inr m ↦ rw (n.1 m, f.1 k) ],
)

-- `validate_params` finds nothing exactly when every key is the name of a parameter, or the handler
-- takes `**kwargs`, and every field is given a value of its type or has a default and is left out.
pub validate_params_iff :
    (params : Dict Text Value) (s : Schema)
    → (validate_params params s ≡ []) ↔ (
        ((s.has_kwargs ≡ true) ⊎ AreNamed s.names params)
        × All (λ (f : Field). IsGiven f (get f.name params)) s.fields)
unfolding validate_params
validate_params_iff params s =
    problems_iff s.has_kwargs _ _ _ _ (extra_keys_iff s.names params)
      (check_fields_iff s.fields params)
