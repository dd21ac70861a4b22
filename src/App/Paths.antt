-- ===== src/App/Paths.antt =====
-- server/_app.py: the static methods of `App` on the paths of routes and requests.
pub mod Segments
use gnserver.Base.{
  ℕ, Bool, true, false, not, ◌&&◌, ◌||◌, Option, none, some, List, [], ◌∷◌, ◌++◌, is_empty, nat_beq,
  if◌then◌else◌, Text, codes, ◌==◌, list_eq, nat_eq,
}

abbrev pub slash : ℕ
slash = 47

abbrev pub brace : ℕ
brace = 123

-- `text.startswith(c)` for one character
unfoldable pub starts_with : ℕ → Text → Bool
starts_with c [] = false
starts_with c (d ∷ t) = nat_beq d c

-- `c in text` for one character
unfoldable pub has_char : ℕ → Text → Bool
has_char c [] = false
has_char c (d ∷ t) = nat_beq d c || has_char c t

-- `text.lstrip('/')`
unfoldable pub lstrip : Text → Text
lstrip [] = []
lstrip (c ∷ t) = let rest = lstrip t in if nat_beq c slash then rest else c ∷ t

-- `text.rstrip('/')`
unfoldable pub rstrip : Text → Text
rstrip [] = []
rstrip (c ∷ t) = let rest = rstrip t in if nat_beq c slash && is_empty rest then [] else c ∷ rest

-- `text.split('/', 1)[0]`
unfoldable pub first_part : Text → Text
first_part [] = []
first_part (c ∷ t) = let rest = first_part t in if nat_beq c slash then [] else c ∷ rest

-- `_is_static_route_path`
unfoldable pub is_static_route_path : Text → Bool
unfolding starts_with has_char
is_static_route_path path_expr =
    not (path_expr == codes "*") && not (starts_with 33 path_expr) && not (has_char brace path_expr)

-- `_extract_first_literal_segment`
unfoldable pub extract_first_literal_segment : Text → Option Text
unfolding starts_with has_char lstrip first_part
extract_first_literal_segment path_expr =
    if path_expr == codes "*" || starts_with 33 path_expr
    then none
    else if not (starts_with slash path_expr)
    then none
    else let rest = lstrip path_expr in
      if is_empty rest
      then none
      else let seg = first_part rest in
        if is_empty seg || has_char brace seg then none else some seg

-- `a or '/'`
unfoldable pub or_root : Text → Text
or_root [] = slash ∷ []
or_root (c ∷ t) = c ∷ t

-- `_build_path_candidates`
unfoldable pub build_path_candidates : Text → List Text
unfolding or_root rstrip
build_path_candidates path =
    let p = or_root path in
    if p == slash ∷ []
    then (slash ∷ []) ∷ []
    else let alt = or_root (rstrip p) in
      if p == alt then p ∷ (p ++ slash ∷ []) ∷ [] else p ∷ alt ∷ []

-- `_path_first_segment`; `path.strip('/')` strips both ends
unfoldable pub path_first_segment : Text → Option Text
unfolding lstrip rstrip first_part
path_first_segment path =
    let p = rstrip (lstrip path) in if is_empty p then none else some (first_part p)
