-- ===== src/Params/Schema.antt =====
-- server/_func_params_validation.py: the schema of a handler's parameters, and the check of a call's
-- arguments against it. `inspect.signature` gives the list of parameters.
use gnserver.Base.{
  ℕ, suc, Bool, true, false, not, ◌||◌, Option, none, some, List, [], ◌∷◌, ◌++◌, length, ltb,
  nat_beq, if◌then◌else◌, Text, codes, ◌==◌, list_eq, nat_eq, Result, ok, raise, raise_if,
  type_error, ◌>>=◌, ◌>>◌,
}
use gnserver.Base.Dict.{Dict, get}
use gnserver.Params.{
  Value, Annotation, empty, union, model, none_type, Annotations, nothing, also, compile_checker,
}

-- `Parameter.kind`, as far as the code tells the kinds apart
pub data Kind : Type 0 where
  named var_positional var_keyword : Kind

pub record Parameter : Type 0 where
  pub name : Text
  pub kind : Kind
  pub annotation : Annotation
  pub has_default : Bool

-- `_Field`; its checker is `compile_checker` of the annotation
pub record Field : Type 0 where
  pub name : Text
  pub required : Bool
  pub annotation : Annotation

-- `_BodyField`; the kind and the name of the schema are functions of the class
pub record BodyField : Type 0 where
  pub name : Text
  pub model_class : ℕ
  pub required : Bool

pub record Schema : Type 0 where
  pub fields : List Field
  pub names : List Text
  pub has_kwargs : Bool
  pub body_fields : List BodyField

-- `name in names`
unfoldable pub contains : Text → List Text → Bool
contains name [] = false
contains name (x ∷ l) = x == name || contains name l

-- `schema.body_param_names`
unfoldable pub body_names : List BodyField → List Text
body_names [] = []
body_names (f ∷ l) = f.name ∷ body_names l

-- `[arg for arg in args if is_model_type(arg)]`
unfoldable pub model_args : Annotations → List ℕ
model_args nothing = []
model_args (also (model m) l) = m ∷ model_args l
model_args (also a l) = model_args l

-- `len(non_none_args)`
unfoldable pub count_non_none : Annotations → ℕ
count_non_none nothing = 0
count_non_none (also none_type l) = count_non_none l
count_non_none (also a l) = suc (count_non_none l)

-- The part after the arguments of a union are known.
unfoldable pub body_of_union : List ℕ → ℕ → Result (Option ℕ)
body_of_union [] n = ok none
body_of_union (m ∷ []) n = if nat_beq n 1 then ok (some m) else raise type_error
body_of_union (m ∷ k ∷ l) n = raise type_error

-- `_body_model_type`
unfoldable pub body_model_type : Annotation → Result (Option ℕ)
unfolding model_args count_non_none body_of_union
body_model_type empty = ok none
body_model_type (model m) = ok (some m)
body_model_type (union l) = body_of_union (model_args l) (count_non_none l)
body_model_type a = ok none

abbrev pub no_schema : Schema
no_schema = record { fields = []; names = []; has_kwargs = false; body_fields = [] }

-- A parameter that is neither skipped nor variadic: it is a body field or a field.
unfoldable pub add_named : Schema → Parameter → Result Schema
unfolding body_model_type
add_named s p = do
  found ← body_model_type p.annotation
  elim found [
    | some m ↦ ok (record s {
      body_fields =
          s.body_fields
          ++ record { name = p.name; model_class = m; required = not p.has_default } ∷ [];
      names = p.name ∷ s.names;
    })
    | none ↦ ok (record s {
      fields =
          s.fields
          ++ record { name = p.name; required = not p.has_default; annotation = p.annotation } ∷ [];
      names = p.name ∷ s.names;
    })
  ]

-- The two tests on `p.kind`.
unfoldable pub add_kind : Kind → Schema → Parameter → Result Schema
unfolding add_named
add_kind var_keyword s p = ok (record s { has_kwargs = true })
add_kind var_positional s p = ok s
add_kind named s p = add_named s p

-- One round of the loop.
unfoldable pub add_param : Schema → Parameter → Result Schema
unfolding add_kind
add_param s p =
    if p.name == codes "request" || p.name == codes "proto" then ok s else add_kind p.kind s p

unfoldable pub add_params : Schema → List Parameter → Result Schema
unfolding add_param
add_params s [] = ok s
add_params s (p ∷ l) = do next ← add_param s p; add_params next l

-- `_build_schema_from_params`
unfoldable pub build_schema : List Parameter → Result Schema
unfolding add_params
build_schema params = do
  s ← add_params no_schema params
  raise_if (ltb 1 (length s.body_fields)) type_error
  ok s

-- A line of the answer of `validate_params`: which parameter, and what is wrong with it.
pub data Problem : Type 0 where
  extra : Text → Problem
  absent : Text → Problem
  wrong : Text → Problem

-- The keys that no parameter takes.
unfoldable pub extra_keys : List Text → Dict Text Value → List Problem
unfolding contains
extra_keys names [] = []
extra_keys names ((k, v) ∷ l) =
    let rest = extra_keys names l in if contains k names then rest else extra k ∷ rest

-- One field.
unfoldable pub check_given : Field → Option Value → List Problem
unfolding compile_checker
check_given f none = if f.required then absent f.name ∷ [] else []
check_given f (some v) = if compile_checker f.annotation v then [] else wrong f.name ∷ []

unfoldable pub check_fields : List Field → Dict Text Value → List Problem
unfolding check_given
check_fields [] params = []
check_fields (f ∷ l) params = check_given f (get f.name params) ++ check_fields l params

-- `validate_params`: the list is empty where the code returns None
unfoldable pub validate_params : Dict Text Value → Schema → List Problem
unfolding extra_keys check_fields
validate_params params s =
    (if s.has_kwargs then [] else extra_keys s.names params) ++ check_fields s.fields params
