-- ===== src/Params/Typed.antt =====
-- server/_func_params_validation.py: what an annotation means.
pub mod Checkers
pub mod Calls
use gnserver.Base.{
  ◌≡◌, refl, ◌↔◌, ◌⊎◌, inl, inr, ℕ, Bool, true, false, not, ◌&&◌, ◌||◌, Option, none, some, List,
  [], ◌∷◌, ◌++◌, All, Text, if◌then◌else◌, Bool-cases, Option-cases, arith,
}
use gnserver.Base.Dict.{Dict, get}
use gnserver.Params.{
  Value, none_value, bool_value, int_value, float_value, str_value, bytes_value, datetime_value,
  time_value, list_value, set_value, tuple_value, dict_value, other_value, Values, nil, cons, Items,
  stop, item, Annotation, empty, none_type, bool_type, int_type, float_type, str_type, bytes_type,
  datetime_type, time_type, tuple_fixed, union, list_of, set_of, tuple_of, dict_of, model,
  unsupported, Annotations, nothing, also, is_key, serializable_ok, serializable_all,
  serializable_items, check_values, check_items, check_list, check_set, check_tuple, check_dict,
  key_checker, check_primitive, compile_checker,
}
use gnserver.Params.Schema.{
  Field, Schema, Problem, extra, absent, wrong, contains, extra_keys, check_given, check_fields,
  validate_params,
}

abbrev pub AllValues : (Value → Type 0) → Values → Type 0
AllValues P nil = Unit
AllValues P (cons x l) = P x × AllValues P l

abbrev pub AllItems : (Value → Type 0) → (Value → Type 0) → Items → Type 0
AllItems K P stop = Unit
AllItems K P (item k x d) = K k × P x × AllItems K P d

-- A str, a bytes object, an int or a bool.
abbrev pub IsKey : Value → Type 0
IsKey k =
    ((t : Text) × (k ≡ str_value t))
    ⊎ ((t : Text) × (k ≡ bytes_value t))
    ⊎ ((i : _) × (k ≡ int_value i))
    ⊎ ((b : Bool) × (k ≡ bool_value b))

-- A tree of the built-in values.
mutual
  pub IsSerializable : Value → Type 0
  IsSerializable (list_value l) = AreSerializable l
  IsSerializable (set_value l) = AreSerializable l
  IsSerializable (tuple_value l) = AreSerializable l
  IsSerializable (dict_value d) = ItemsSerializable d
  IsSerializable (other_value n) = ⊥
  IsSerializable none_value = Unit
  IsSerializable (bool_value b) = Unit
  IsSerializable (int_value i) = Unit
  IsSerializable (float_value x) = Unit
  IsSerializable (str_value t) = Unit
  IsSerializable (bytes_value b) = Unit
  IsSerializable (datetime_value t) = Unit
  IsSerializable (time_value t) = Unit

  pub AreSerializable : Values → Type 0
  AreSerializable nil = Unit
  AreSerializable (cons x l) = IsSerializable x × AreSerializable l

  pub ItemsSerializable : Items → Type 0
  ItemsSerializable stop = Unit
  ItemsSerializable (item k x d) = IsKey k × IsSerializable x × ItemsSerializable d

-- The values that an annotation describes. The elements of a container are built-in values too.
mutual
  unfolding IsSerializable

  pub HasType : Annotation → Value → Type 0
  HasType empty v = IsSerializable v
  HasType none_type v = v ≡ none_value
  HasType bool_type v = (b : Bool) × (v ≡ bool_value b)
  HasType int_type v = (i : _) × (v ≡ int_value i)
  HasType float_type v = (x : ℕ) × (v ≡ float_value x)
  HasType str_type v = (t : Text) × (v ≡ str_value t)
  HasType bytes_type v = (b : Text) × (v ≡ bytes_value b)
  HasType datetime_type v = (t : ℕ) × (v ≡ datetime_value t)
  HasType time_type v = (t : ℕ) × (v ≡ time_value t)
  HasType (union l) v = HasSome l v
  HasType (list_of a) v =
      (l : Values) × (v ≡ list_value l) × AllValues (λ x. IsSerializable x × HasType a x) l
  HasType (set_of a) v =
      (l : Values) × (v ≡ set_value l) × AllValues (λ x. IsSerializable x × HasType a x) l
  HasType (tuple_of a) v =
      (l : Values) × (v ≡ tuple_value l) × AllValues (λ x. IsSerializable x × HasType a x) l
  HasType (dict_of k a) v =
      (d : Items) × (v ≡ dict_value d)
      × AllItems (λ x. IsKey x × HasKeyType k (HasType k x)) (λ x. HasType a x) d
  HasType tuple_fixed v = ⊥
  HasType (model m) v = ⊥
  HasType (unsupported n) v = ⊥

  -- One of the alternatives of a union.
  pub HasSome : Annotations → Value → Type 0
  HasSome nothing v = ⊥
  HasSome (also a l) v = HasType a v ⊎ HasSome l v

  -- A key type that is not given allows every key.
  pub HasKeyType : Annotation → Type 0 → Type 0
  HasKeyType empty P = Unit
  HasKeyType a P = P
