-- ===== src/Params.antt =====
-- server/_func_params_validation.py: the values that a request carries, the annotations of a handler's
-- parameters, and the checker that `_compile_checker` makes of an annotation. A checker returns
-- None or a text; here `true` stands for None. The texts of the errors are left out. A value whose
-- class is none of those that the code tests for is `other_value`.
pub mod Schema
pub mod Typed
use gnserver.Base.{ℕ, Bool, true, false, ◌&&◌, ◌||◌, Text, Bytes}
use gnserver.Base.Int.{ℤ}

mutual
  pub data Value : Type 0 where
    none_value : Value
    bool_value : Bool → Value
    int_value : ℤ → Value
    float_value : ℕ → Value
    str_value : Text → Value
    bytes_value : Bytes → Value
    datetime_value : ℕ → Value
    time_value : ℕ → Value
    list_value : Values → Value
    set_value : Values → Value
    tuple_value : Values → Value
    dict_value : Items → Value
    other_value : ℕ → Value

  pub data Values : Type 0 where
    nil : Values
    cons : Value → Values → Values

  -- The items of a dict in their order: key, value, the rest.
  pub data Items : Type 0 where
    stop : Items
    item : Value → Value → Items → Items

-- The annotations that the code tells apart. `list_of empty` is `typing.List` without an argument;
-- `dict_of` has `empty` for an argument that is not there; `tuple_of` is `Tuple[T, ...]`, and any
-- other tuple is `tuple_fixed`; `model` is a class that `is_model_type` accepts.
mutual
  pub data Annotation : Type 0 where
    empty none_type bool_type int_type float_type str_type bytes_type : Annotation
    datetime_type time_type tuple_fixed : Annotation
    union : Annotations → Annotation
    list_of : Annotation → Annotation
    set_of : Annotation → Annotation
    tuple_of : Annotation → Annotation
    dict_of : Annotation → Annotation → Annotation
    model : ℕ → Annotation
    unsupported : ℕ → Annotation

  pub data Annotations : Type 0 where
    nothing : Annotations
    also : Annotation → Annotations → Annotations

-- `isinstance(k, _KEYTYPES)`; a bool is an int
unfoldable pub is_key : Value → Bool
is_key (str_value t) = true
is_key (bytes_value b) = true
is_key (int_value i) = true
is_key (bool_value b) = true
is_key _ = false

-- `_serializable_ok`
unfoldable mutual
  unfolding is_key

  pub serializable_ok : Value → Bool
  serializable_ok none_value = true
  serializable_ok (bool_value b) = true
  serializable_ok (int_value i) = true
  serializable_ok (float_value x) = true
  serializable_ok (str_value t) = true
  serializable_ok (bytes_value b) = true
  serializable_ok (datetime_value t) = true
  serializable_ok (time_value t) = true
  serializable_ok (list_value l) = serializable_all l
  serializable_ok (set_value l) = serializable_all l
  serializable_ok (tuple_value l) = serializable_all l
  serializable_ok (dict_value d) = serializable_items d
  serializable_ok (other_value n) = false

  pub serializable_all : Values → Bool
  serializable_all nil = true
  serializable_all (cons x l) = serializable_ok x && serializable_all l

  pub serializable_items : Items → Bool
  serializable_items stop = true
  serializable_items (item k x d) = is_key k && serializable_ok x && serializable_items d

-- The loop of a container's checker: the gate first, then the element's checker.
unfoldable pub check_values : (Value → Bool) → Values → Bool
unfolding serializable_ok
check_values checker nil = true
check_values checker (cons x l) = serializable_ok x && checker x && check_values checker l

-- The loop of a dict's checker, over all items.
unfoldable pub check_items : (Value → Bool) → (Value → Bool) → Items → Bool
unfolding is_key
check_items key_checker checker stop = true
check_items key_checker checker (item k x d) =
    is_key k && key_checker k && checker x && check_items key_checker checker d

unfoldable pub check_list : (Value → Bool) → Value → Bool
unfolding check_values
check_list checker (list_value l) = check_values checker l
check_list checker _ = false

unfoldable pub check_set : (Value → Bool) → Value → Bool
unfolding check_values
check_set checker (set_value l) = check_values checker l
check_set checker _ = false

unfoldable pub check_tuple : (Value → Bool) → Value → Bool
unfolding check_values
check_tuple checker (tuple_value l) = check_values checker l
check_tuple checker _ = false

unfoldable pub check_dict : (Value → Bool) → (Value → Bool) → Value → Bool
unfolding check_items
check_dict key_checker checker (dict_value d) = check_items key_checker checker d
check_dict key_checker checker _ = false

-- `kchk`: no check for a key type that is not given
unfoldable pub key_checker : Annotation → (Value → Bool) → Value → Bool
key_checker empty checker k = true
key_checker _ checker k = checker k

-- The checker of an annotation without arguments.
unfoldable pub check_primitive : Annotation → Value → Bool
check_primitive none_type none_value = true
check_primitive bool_type (bool_value b) = true
check_primitive int_type (int_value i) = true
check_primitive float_type (float_value x) = true
check_primitive str_type (str_value t) = true
check_primitive bytes_type (bytes_value b) = true
check_primitive datetime_type (datetime_value t) = true
check_primitive time_type (time_value t) = true
check_primitive _ _ = false

-- `_compile_checker(ann)`, applied to a value
unfoldable mutual
  unfolding serializable_ok check_list check_set check_tuple check_dict key_checker check_primitive

  pub compile_checker : Annotation → Value → Bool
  compile_checker empty v = serializable_ok v
  compile_checker (union l) v = check_any l v
  compile_checker (list_of a) v = check_list (λ x. compile_checker a x) v
  compile_checker (set_of a) v = check_set (λ x. compile_checker a x) v
  compile_checker (tuple_of a) v = check_tuple (λ x. compile_checker a x) v
  compile_checker (dict_of k a) v =
      check_dict (key_checker k (λ x. compile_checker k x)) (λ x. compile_checker a x) v
  compile_checker tuple_fixed v = false
  compile_checker (model m) v = false
  compile_checker (unsupported n) v = false
  compile_checker none_type v = check_primitive none_type v
  compile_checker bool_type v = check_primitive bool_type v
  compile_checker int_type v = check_primitive int_type v
  compile_checker float_type v = check_primitive float_type v
  compile_checker str_type v = check_primitive str_type v
  compile_checker bytes_type v = check_primitive bytes_type v
  compile_checker datetime_type v = check_primitive datetime_type v
  compile_checker time_type v = check_primitive time_type v

  pub check_any : Annotations → Value → Bool
  check_any nothing v = false
  check_any (also a l) v = compile_checker a v || check_any l v
