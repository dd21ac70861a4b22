-- ===== src/App/Paths/Segments.antt =====
-- server/_app.py and server/_routes.py: the literal first segment of a route's path, in the pattern
-- of the route and in the paths that the pattern matches.
use gnserver.Base.{
  ℕ, ◌≡◌, refl, sym, ap, ◌∙◌, ◌⊎◌, inl, inr, Bool, true, false, not, ◌||◌, Option, none, some, List,
  [], ◌∷◌, ◌++◌, map, All, is_empty, nat_beq, nat_beq_iff, if◌then◌else◌, Bool-cases, Text, codes,
  ◌==◌, list_eq, nat_eq, arith, ok, >>=-eq-ok, ok-injective,
}
use mathlib.Core.List.{append_assoc, append-nil}
use gnserver.App.Paths.{
  slash, brace, starts_with, has_char, lstrip, rstrip, first_part, is_static_route_path,
  extract_first_literal_segment, path_first_segment,
}
use gnserver.App.Patterns.{
  Part, literal, Pattern, parts, ParamTypes, Groups, outside, compile_loop, compile_plain,
  compile_marked, compile_path,
}

abbrev AllSlash : Text → Type 0
AllSlash t = All (λ c. nat_beq c slash ≡ true) t

abbrev NoSlash : Text → Type 0
NoSlash t = All (λ c. nat_beq c slash ≡ false) t

has_char-append : (c : ℕ) (s t : Text) → has_char c (s ++ t) ≡ (has_char c s || has_char c t)
unfolding has_char
has_char-append c [] t = refl
has_char-append c (d ∷ s) t = ground (arith, has_char-append c s t)

AllSlash-brace : (k : Text) → AllSlash k → has_char brace k ≡ false
unfolding has_char
AllSlash-brace [] h = refl
AllSlash-brace (c ∷ k) h = ground (arith, AllSlash-brace k h.1)

lstrip_split : (t : Text) → (k : Text) × AllSlash k × (t ≡ k ++ lstrip t)
unfolding lstrip
lstrip_split [] = ([], tt, refl)
lstrip_split (c ∷ t) = elim (Bool-cases (nat_beq c slash)) [
  | inl s ↦ let (k, a, e) = lstrip_split t in rw s (c ∷ k, (s, a), ap (◌∷◌ c) e)
  | inr n ↦ rw n ([], tt, refl)
]

-- A text is its first part, or goes on with a slash.
first_part_split : (t : Text) → (t ≡ first_part t) ⊎ ((u : Text) × (t ≡ first_part t ++ slash ∷ u))
unfolding first_part
first_part_split [] = inl refl
first_part_split (c ∷ t) = elim (Bool-cases (nat_beq c slash)) [
  | inl s ↦ rw s (inr (t, ap (λ x. x ∷ t) ((nat_beq_iff c slash).0 s)))
  | inr n ↦ rw n (elim (first_part_split t) [
    | inl e ↦ inl (ap (◌∷◌ c) e)
    | inr (u, e) ↦ inr (u, ap (◌∷◌ c) e)
  ])
]

first_part-NoSlash : (t : Text) → NoSlash (first_part t)
unfolding first_part
first_part-NoSlash [] = tt
first_part-NoSlash (c ∷ t) = elim (Bool-cases (nat_beq c slash)) [
  | inl s ↦ rw s tt
  | inr n ↦ rw n (n, first_part-NoSlash t)
]

lstrip-append : (k t : Text) → AllSlash k → lstrip (k ++ t) ≡ lstrip t
unfolding lstrip
lstrip-append [] t h = refl
lstrip-append (c ∷ k) t h = rw h.0 (lstrip-append k t h.1)

-- A text that starts with no slash.
lstrip_kept : (c : ℕ) (t : Text) → nat_beq c slash ≡ false → lstrip (c ∷ t) ≡ c ∷ t
unfolding lstrip
lstrip_kept c t h = rw h

rstrip-append : (g t : Text) → NoSlash g → rstrip (g ++ t) ≡ g ++ rstrip t
unfolding rstrip
rstrip-append [] t h = refl
rstrip-append (c ∷ g) t h = rw (h.0, rstrip-append g t h.1)

first_part-append : (g t : Text) → NoSlash g → first_part (g ++ t) ≡ g ++ first_part t
unfolding first_part
first_part-append [] t h = refl
first_part-append (c ∷ g) t h = rw (h.0, first_part-append g t h.1)

-- What is left of a text that starts with a slash has an empty first part.
first_part-rstrip : (t : Text) → first_part (rstrip (slash ∷ t)) ≡ []
unfolding first_part rstrip
first_part-rstrip t = elim (Bool-cases (is_empty (rstrip t))) [ inl e ↦ rw e | inr n ↦ rw n ]

-- The first segment of a path that starts with slashes, a segment and a slash.
path_first_segment_lem :
    (k : Text) (c : ℕ) (g t : Text)
    → AllSlash k
    → NoSlash (c ∷ g)
    → path_first_segment (k ++ ((c ∷ g) ++ slash ∷ t)) ≡ some (c ∷ g)
unfolding path_first_segment
path_first_segment_lem k c g t a n =
    rw (lstrip-append k ((c ∷ g) ++ slash ∷ t) a, lstrip_kept c (g ++ slash ∷ t) n.0)
      (rw (rstrip-append (c ∷ g) (slash ∷ t) n) (
        ap some (
          first_part-append (c ∷ g) (rstrip (slash ∷ t)) n
          ∙ ap (◌++◌ (c ∷ g)) (first_part-rstrip t)
          ∙ append-nil (c ∷ g))))

first_of :
    (k seg : Text) (c : ℕ) (o t : Text)
    → AllSlash k
    → NoSlash seg
    → seg ≡ c ∷ o
    → path_first_segment (k ++ (seg ++ slash ∷ t)) ≡ some seg
first_of k seg c o t a n e = rw e (path_first_segment_lem k c o t a (rw e at n))

-- Characters before the first brace are literals of the pattern.
compile_literals :
    (lits u : Text) (types : ParamTypes) {l : List Part} {found : ParamTypes}
    → has_char brace lits ≡ false
    → compile_loop outside (lits ++ u) types ≡ ok (l, found)
    → (ps : List Part) × (l ≡ map literal lits ++ ps)
unfolding compile_loop has_char
compile_literals [] u types {l} h e = (l, refl)
compile_literals (c ∷ lits) u types {l} {found} h e =
    let no : nat_beq c 123 ≡ false = ground arith in
    let more : has_char brace lits ≡ false = ground arith in
    let e' = rw no at e in
    let ((m, rest), made, last) =
      >>=-eq-ok (compile_loop outside (lits ++ u) types) (λ p. ok (literal c ∷ p.0, p.1)) e' in
    let (ps, split) = compile_literals lits u types more made in
    (ps, ap (λ p. p.0) (sym (ok-injective last)) ∙ ap (◌∷◌ (literal c)) split)

-- The path of a dynamic route with a literal first segment: slashes, the segment, a slash, the rest.
record IsSegmented (path_expr seg : Text) : Type 0 where
  slashes : Text
  first : ℕ
  others : Text
  after : Text
  are_slashes : AllSlash slashes
  seg_eq : seg ≡ first ∷ others
  no_slash : NoSlash seg
  no_brace : has_char brace seg ≡ false
  path_eq : path_expr ≡ slashes ++ (seg ++ slash ∷ after)

if_none :
    (b : Bool) (x : Option Text) {seg : Text}
    → (if b then none else x) ≡ some seg
    → (b ≡ false) × (x ≡ some seg)
if_none true x h = absurd (cc h)
if_none false x h = (refl, h)

some_injective : (s t : Text) → some s ≡ some t → s ≡ t
some_injective s t e = cc

neither : (a b : Bool) → (a || b) ≡ false → (a ≡ false) × (b ≡ false)
neither a b h = ground arith

cons_of : (t : Text) → is_empty t ≡ false → (c : ℕ) × (u : Text) × (t ≡ c ∷ u)
cons_of [] h = absurd (cc h)
cons_of (c ∷ u) h = (c, u, refl)

-- What it means that a path has a literal first segment.
extract_inv :
    (path_expr seg : Text)
    → extract_first_literal_segment path_expr ≡ some seg
    → ((path_expr == codes "*") ≡ false)
      × (starts_with 33 path_expr ≡ false)
      × (first_part (lstrip path_expr) ≡ seg)
      × (is_empty seg ≡ false)
      × (has_char brace seg ≡ false)
unfolding extract_first_literal_segment
extract_inv path_expr seg e =
    let rest = lstrip path_expr in
    let part = first_part rest in
    let (a, e1) = if_none _ _ e in
    let (b, e2) = if_none (not (starts_with slash path_expr)) _ e1 in
    let (c, e3) = if_none (is_empty rest) _ e2 in
    let (d, e4) = if_none (is_empty part || has_char brace part) (some part) e3 in
    let s : part ≡ seg = some_injective part seg e4 in
    let (x, y) = neither (path_expr == codes "*") (starts_with 33 path_expr) a in
    let (z, w) = neither (is_empty part) (has_char brace part) d in (x, y, s, rw s at z, rw s at w)

static_brace :
    (path_expr : Text)
    → is_static_route_path path_expr ≡ false
    → (path_expr == codes "*") ≡ false
    → starts_with 33 path_expr ≡ false
    → has_char brace path_expr ≡ true
unfolding is_static_route_path
static_brace path_expr d x y =
    let d' = rw (x, y) at d in
    elim (Bool-cases (has_char brace path_expr)) [ inl t ↦ t | inr f ↦ absurd (cc (rw f at d')) ]

extract_seg :
    (path_expr seg : Text)
    → is_static_route_path path_expr ≡ false
    → extract_first_literal_segment path_expr ≡ some seg
    → IsSegmented path_expr seg
extract_seg path_expr seg d e =
    let (star, bang, s, full, none_here) = extract_inv path_expr seg e in
    let (k, a, pe) = lstrip_split path_expr in
    let (c, o, ce) = cons_of seg full in
    elim (first_part_split (lstrip path_expr)) [
      | inl whole ↦ absurd (
          let t = static_brace path_expr d star bang in
          let f : has_char brace path_expr ≡ false =
            rw (pe, has_char-append brace k (lstrip path_expr), AllSlash-brace k a, whole, s)
              none_here in
          cc)
      | inr (u, ru) ↦ record {
        slashes = k;
        first = c;
        others = o;
        after = u;
        are_slashes = a;
        seg_eq = ce;
        no_slash = rw s at (first_part-NoSlash (lstrip path_expr));
        no_brace = none_here;
        path_eq = pe ∙ ap (◌++◌ k) (ru ∙ ap (λ x. x ++ slash ∷ u) s);
      }
    ]

compile_marked-plain : (t : Text) → starts_with 33 t ≡ false → compile_marked t ≡ compile_plain t
unfolding compile_marked starts_with
compile_marked-plain [] h = refl
compile_marked-plain (c ∷ t) h = ground arith

compile_inv :
    (path_expr : Text) (regex : Pattern) (types : ParamTypes)
    → (path_expr == codes "*") ≡ false
    → starts_with 33 path_expr ≡ false
    → compile_path path_expr ≡ ok (regex, types)
    → (l : List Part) × (found : ParamTypes) × (compile_loop outside path_expr [] ≡ ok (l, found))
      × (regex ≡ parts l)
unfolding compile_path compile_plain
compile_inv path_expr regex types x y c =
    let c' = rw (x, compile_marked-plain path_expr y) at c in
    let ((l, found), made, last) =
      >>=-eq-ok (compile_loop outside path_expr []) (λ p. ok (parts p.0, p.1)) c' in
    (l, found, made, ap (λ p. p.0) (sym (ok-injective last)))

regroup : (k seg u : Text) → k ++ (seg ++ slash ∷ u) ≡ (k ++ (seg ++ slash ∷ [])) ++ u
regroup k seg u = simp append_assoc

lits_brace :
    (k seg : Text)
    → AllSlash k
    → has_char brace seg ≡ false
    → has_char brace (k ++ (seg ++ slash ∷ [])) ≡ false
unfolding has_char
lits_brace k seg a n = rw (
  has_char-append brace k (seg ++ slash ∷ []),
  AllSlash-brace k a,
  has_char-append brace seg (slash ∷ []),
  n,
)

-- The pattern of such a route starts with the segment's characters and the slash after it.
module _ (fullmatch : Pattern → Text → Option Groups) where
  -- Literals at the front of a pattern stand at the front of what it matches.
  abbrev pub LiteralFirst : Type 0
  LiteralFirst =
      (lits : Text) (ps : List Part) (t : Text) (g : Groups)
      → fullmatch (parts (map literal lits ++ ps)) t ≡ some g
      → (rest : Text) × (t ≡ lits ++ rest)

  -- A dynamic route with a literal first segment matches only paths with that first segment.
  pub path_first_segment-match :
      (path_expr seg t : Text) (regex : Pattern) (types : ParamTypes) (g : Groups)
      → LiteralFirst
      → is_static_route_path path_expr ≡ false
      → extract_first_literal_segment path_expr ≡ some seg
      → compile_path path_expr ≡ ok (regex, types)
      → fullmatch regex t ≡ some g
      → path_first_segment t ≡ some seg
  path_first_segment-match path_expr seg t regex types g lit d e c m =
      let i = extract_inv path_expr seg e in
      let h = extract_seg path_expr seg d e in
      let lits = h.slashes ++ (seg ++ slash ∷ []) in
      let (l, found, made, shape) = compile_inv path_expr regex types i.0 i.1 c in
      let split : path_expr ≡ lits ++ h.after = h.path_eq ∙ regroup h.slashes seg h.after in
      let (ps, ls) =
        compile_literals lits h.after [] (lits_brace _ _ h.are_slashes h.no_brace)
          (rw split at made) in
      let (rest, te) = lit lits ps t g (rw (shape, ls) at m) in
      ap path_first_segment (te ∙ sym (regroup h.slashes seg rest))
      ∙ first_of h.slashes seg h.first h.others rest h.are_slashes h.no_slash h.seg_eq
