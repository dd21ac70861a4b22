-- ===== src/App/Convert.antt =====
-- server/_routes.py: `_convert_value`, which turns the texts of a path and of a query into arguments.
-- `call` is the call of an annotation's class on a text, and gives the text back where the annotation
-- cannot be called; `convert` is the call of a function of `_CONVERTER_FUNC`, or of `str`.
use gnserver.Base.{List, [], ◌∷◌, Text, Result, ok, raise, ◌>>=◌}
use gnserver.Params.{
  Value, str_value, list_value, Values, nil, cons, Annotation, empty, none_type, bool_type,
  int_type, float_type, str_type, bytes_type, datetime_type, time_type, tuple_fixed, union, list_of,
  set_of, tuple_of, dict_of, model, unsupported, Annotations, nothing, also,
}
use gnserver.App.Patterns.{Converter}

-- A text, or the list of a query's values.
pub data Raw : Type 0 where
  single : Text → Raw
  many : List Text → Raw

-- The first of two tries that does not raise.
unfoldable pub try_first : Result Value → Result Value → Result Value
try_first (ok v) later = ok v
try_first (raise e) later = later

unfoldable pub one_value : Result Value → Result Value
one_value (ok v) = ok (list_value (cons v nil))
one_value (raise e) = raise e

module _ (call : Annotation → Text → Result Value) (convert : Converter → Text → Result Value) where
  -- `_convert_value` of a text; the elements of a bare list are texts
  unfoldable mutual
    unfolding try_first one_value

    pub convert_text : Annotation → Converter → Text → Result Value
    convert_text empty fallback t = convert fallback t
    convert_text (list_of a) fallback t = one_value (convert_element a fallback t)
    convert_text (union l) fallback t = convert_some l fallback t
    convert_text none_type fallback t = call none_type t
    convert_text bool_type fallback t = call bool_type t
    convert_text int_type fallback t = call int_type t
    convert_text float_type fallback t = call float_type t
    convert_text str_type fallback t = call str_type t
    convert_text bytes_type fallback t = call bytes_type t
    convert_text datetime_type fallback t = call datetime_type t
    convert_text time_type fallback t = call time_type t
    convert_text tuple_fixed fallback t = call tuple_fixed t
    convert_text (set_of a) fallback t = call (set_of a) t
    convert_text (tuple_of a) fallback t = call (tuple_of a) t
    convert_text (dict_of k a) fallback t = call (dict_of k a) t
    convert_text (model m) fallback t = call (model m) t
    convert_text (unsupported n) fallback t = call (unsupported n) t

    -- An element of a list: `str` where the list has no argument.
    pub convert_element : Annotation → Converter → Text → Result Value
    convert_element empty fallback t = call str_type t
    convert_element (list_of a) fallback t = one_value (convert_element a fallback t)
    convert_element (union l) fallback t = convert_some l fallback t
    convert_element none_type fallback t = call none_type t
    convert_element bool_type fallback t = call bool_type t
    convert_element int_type fallback t = call int_type t
    convert_element float_type fallback t = call float_type t
    convert_element str_type fallback t = call str_type t
    convert_element bytes_type fallback t = call bytes_type t
    convert_element datetime_type fallback t = call datetime_type t
    convert_element time_type fallback t = call time_type t
    convert_element tuple_fixed fallback t = call tuple_fixed t
    convert_element (set_of a) fallback t = call (set_of a) t
    convert_element (tuple_of a) fallback t = call (tuple_of a) t
    convert_element (dict_of k a) fallback t = call (dict_of k a) t
    convert_element (model m) fallback t = call (model m) t
    convert_element (unsupported n) fallback t = call (unsupported n) t

    -- The alternatives of a union in their order; the text itself where none takes it.
    pub convert_some : Annotations → Converter → Text → Result Value
    convert_some nothing fallback t = ok (str_value t)
    convert_some (also a l) fallback t =
        try_first (convert_text a fallback t) (convert_some l fallback t)

  unfoldable pub convert_all : Annotation → Converter → List Text → Result Values
  unfolding convert_element
  convert_all a fallback [] = ok nil
  convert_all a fallback (t ∷ l) = do
    v ← convert_element a fallback t
    rest ← convert_all a fallback l
    ok (cons v rest)

  -- The type of the elements of a list of texts.
  unfoldable pub element_type : Annotation → Annotation
  element_type (list_of a) = a
  element_type a = empty

  -- `_convert_value`
  unfoldable pub convert_value : Raw → Annotation → Converter → Result Value
  unfolding convert_text convert_all element_type
  convert_value (single t) a fallback = convert_text a fallback t
  convert_value (many l) a fallback = do
    values ← convert_all (element_type a) fallback l
    ok (list_value values)
