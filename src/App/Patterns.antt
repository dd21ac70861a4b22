-- ===== src/App/Patterns.antt =====
-- server/_routes.py: `_compile_path`, which makes a route's pattern from its path. The pattern is a
-- list of escaped characters and named groups, or a text that is handed to `re` as it stands.
use gnserver.Base.{
  ℕ, Option, none, some, List, [], ◌∷◌, ◌++◌, nat_beq, ltb, length, if◌then◌else◌, Text, codes,
  ◌==◌, list_eq, nat_eq, Result, ok, raise, value_error, ◌>>=◌, ◌&&◌,
}
use gnserver.Base.Dict.{Dict, get, put}
use gnserver.App.Paths.{starts_with}

pub data Part : Type 0 where
  literal : ℕ → Part
  group : Text → Text → Part

pub data Pattern : Type 0 where
  raw : Text → Pattern
  parts : List Part → Pattern

-- `str`, or the function that `_CONVERTER_FUNC` has for a name
pub data Converter : Type 0 where
  str : Converter
  named : Text → Converter

pub data Mode : Type 0 where
  outside : Mode
  inside : Text → Mode

abbrev pub ParamTypes : Type 0
ParamTypes = Dict Text Converter

-- `m.groupdict()`: no group of a compiled path is optional, so each has a text.
abbrev pub Groups : Type 0
Groups = Dict Text Text

-- `_PARAM_REGEX`
abbrev pub param_regex : Dict Text Text
param_regex =
    (codes "str", codes "[^/]+")
    ∷ (codes "path", codes ".+")
    ∷ (codes "int", codes "\\d+")
    ∷ (codes "float", codes "[+-]?\\d+(?:\\.\\d+)?")
    ∷ (codes "bool", codes "(?:true|false|1|0)")
    ∷ (
      codes "uuid",
      codes "[0-9a-fA-F]{8}-[0-9a-fA-F]{4}-[0-9a-fA-F]{4}-[0-9a-fA-F]{4}-[0-9a-fA-F]{12}",
    )
    ∷ (codes "datetime", codes "\\d{4}-\\d{2}-\\d{2}T\\d{2}:\\d{2}:\\d{2}(?:\\.\\d+)?Z?")
    ∷ (codes "date", codes "\\d{4}-\\d{2}-\\d{2}")
    ∷ (codes "time", codes "\\d{2}:\\d{2}:\\d{2}(?:\\.\\d+)?")
    ∷ (codes "decimal", codes "[+-]?\\d+(?:\\.\\d+)?")
    ∷ []

-- The names in `_CONVERTER_FUNC`
abbrev pub converter_names : List Text
converter_names =
    codes "int"
    ∷ codes "float"
    ∷ codes "bool"
    ∷ codes "uuid"
    ∷ codes "decimal"
    ∷ codes "datetime"
    ∷ codes "date"
    ∷ codes "time"
    ∷ []

-- `_CONVERTER_FUNC.get(conv, str)`
unfoldable pub converter_of : List Text → Text → Converter
converter_of [] conv = str
converter_of (x ∷ l) conv = if x == conv then named conv else converter_of l conv

-- `_PARAM_REGEX.get(conv, _PARAM_REGEX['str'])`
unfoldable pub regex_of : Option Text → Text
regex_of none = codes "[^/]+"
regex_of (some rx) = rx

-- `spec.split(":", 1)` where ":" is in the text: the part before it, and the part after it
unfoldable pub split_colon : Text → Option (Text × Text)
split_colon [] = none
split_colon (c ∷ t) =
    let rest = split_colon t in
    if nat_beq c 58 then some ([], t) else elim rest [ none ↦ none | some (a, b) ↦ some (c ∷ a, b) ]

-- The name and the converter of a spec.
unfoldable pub name_and_conv : Text → Text × Text
unfolding split_colon
name_and_conv spec = elim (split_colon spec) [ none ↦ (spec, codes "str") | some p ↦ p ]

-- The group of a spec.
unfoldable pub part_of : Text → Text → Part
unfolding starts_with get regex_of
part_of name conv =
    if starts_with 94 conv then group name conv else group name (regex_of (get conv param_regex))

unfoldable pub type_of : Text → Converter
unfolding starts_with converter_of
type_of conv = if starts_with 94 conv then str else converter_of converter_names conv

-- The loop over the path. `inside` holds what has been read since the last "{"; a path that ends
-- there is the ValueError of `path.index`.
unfoldable pub compile_loop : Mode → Text → ParamTypes → Result (List Part × ParamTypes)
unfolding name_and_conv part_of type_of put
compile_loop outside [] types = ok ([], types)
compile_loop outside (c ∷ t) types =
    let literally = compile_loop outside t types >>= λ p. ok (literal c ∷ p.0, p.1) in
    let braced = compile_loop (inside []) t types in if nat_beq c 123 then braced else literally
compile_loop (inside spec) [] types = raise value_error
compile_loop (inside spec) (c ∷ t) types =
    let (name, conv) = name_and_conv spec in
    let closed = compile_loop outside t (put name (type_of conv) types) >>= λ p.
    ok (part_of name conv ∷ p.0, p.1) in
    let more = compile_loop (inside (spec ++ c ∷ [])) t types in
    if nat_beq c 125 then closed else more

-- A path after "!" is a regular expression of its own.
unfoldable pub compile_plain : Text → Result (Pattern × ParamTypes)
unfolding compile_loop
compile_plain path = do (l, types) ← compile_loop outside path []; ok (parts l, types)

unfoldable pub compile_marked : Text → Result (Pattern × ParamTypes)
unfolding compile_plain
compile_marked [] = compile_plain []
compile_marked (c ∷ t) =
    if ltb 1 (length (c ∷ t)) && nat_beq c 33 then ok (raw t, []) else compile_plain (c ∷ t)

-- `_compile_path`
unfoldable pub compile_path : Text → Result (Pattern × ParamTypes)
unfolding compile_marked
compile_path path =
    if path == codes "*" then ok (raw (codes "." ++ path), []) else compile_marked path
