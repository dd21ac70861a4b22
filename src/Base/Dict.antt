-- ===== src/Base/Dict.antt =====
-- Python's `dict` and `OrderedDict`: an association list in the order of insertion. To assign to a
-- key that is there keeps its place; a new key goes to the end.
use Prim.Native.Nat.{suc, ◌≤◌}
use mathlib.Core.Path.{◌≡◌, refl}
use mathlib.Core.Logic.{inl, inr}
use mathlib.Core.Bool.{Bool, true, false}
use mathlib.Core.List.{List, [], ◌∷◌, ◌++◌}
use mathlib.Core.Option.{Option, none, some}
use native.Mathlib.Omega.{arith}
use gnserver.Base.Tests.{if◌then◌else◌, Bool-cases}
use gnserver.Base.Lists.{length}
use gnserver.Base.Equality.{Eq, ◌==◌}

abbrev pub Dict {ℓ κ} : Type ℓ → Type κ → Type (ℓ ⊔ κ)
Dict K V = List (K × V)

module _ {ℓ κ} {K : Type ℓ} {V : Type κ} ⦃e : Eq K⦄ where
  -- `m.get(k)`
  unfoldable pub get : K → Dict K V → Option V
  get k [] = none
  get k ((j, v) ∷ m) = if j == k then some v else get k m

  -- `m[k] = v`
  unfoldable pub put : K → V → Dict K V → Dict K V
  put k v [] = (k, v) ∷ []
  put k v ((j, w) ∷ m) = if j == k then (j, v) ∷ m else (j, w) ∷ put k v m

  -- `m.pop(k, None)`, without the value
  unfoldable pub remove : K → Dict K V → Dict K V
  remove k [] = []
  remove k ((j, w) ∷ m) = let rest = remove k m in if j == k then rest else (j, w) ∷ rest

  -- `k in m`
  unfoldable pub has : K → Dict K V → Bool
  has k [] = false
  has k ((j, v) ∷ m) = if j == k then true else has k m

  -- No key stands twice.
  abbrev pub IsUnique : Dict K V → Type κ
  IsUnique [] = Unit
  IsUnique ((k, v) ∷ m) = (get k m ≡ none) × IsUnique m

  pub get-put :
      (k j : K) (v : V) (m : Dict K V) → get j (put k v m) ≡ (if k == j then some v else get j m)
  unfolding get put
  get-put k j v [] = refl
  get-put k j v ((i, w) ∷ m) =
      ground (arith, e.beq_iff k j, e.beq_iff i k, e.beq_iff i j, get-put k j v m)

  pub get-remove :
      (k j : K) (m : Dict K V) → get j (remove k m) ≡ (if k == j then none else get j m)
  unfolding get remove
  get-remove k j [] = ground arith
  get-remove k j ((i, w) ∷ m) =
      ground (arith, e.beq_iff k j, e.beq_iff i k, e.beq_iff i j, get-remove k j m)

  pub has-get : (k : K) (m : Dict K V) → get k m ≡ none → has k m ≡ false
  unfolding get has
  has-get k [] h = refl
  has-get k ((j, v) ∷ m) h = ground (arith, has-get k m)

  pub has-get_held : (k : K) (v : V) (m : Dict K V) → get k m ≡ some v → has k m ≡ true
  unfolding get has
  has-get_held k v [] h = cc
  has-get_held k v ((j, w) ∷ m) h = ground (arith, has-get_held k v m)

  pub put-IsUnique : (k : K) (v : V) (m : Dict K V) → IsUnique m → IsUnique (put k v m)
  unfolding get put
  put-IsUnique k v [] u = (refl, tt)
  put-IsUnique k v ((i, w) ∷ m) u = elim (Bool-cases (i == k)) [
    | inl same ↦ rw same u
    | inr other ↦
        rw other
          (ground (arith, get-put k i v m, e.beq_iff i k, e.beq_iff k i), put-IsUnique k v m u.1)
  ]

  pub remove-IsUnique : (k : K) (m : Dict K V) → IsUnique m → IsUnique (remove k m)
  unfolding get remove
  remove-IsUnique k [] u = tt
  remove-IsUnique k ((i, w) ∷ m) u = elim (Bool-cases (i == k)) [
    | inl same ↦ rw same (remove-IsUnique k m u.1)
    | inr other ↦ rw other (ground (arith, get-remove k i m), remove-IsUnique k m u.1)
  ]

  -- A new key goes to the end.
  pub put-append : (k : K) (v : V) (m : Dict K V) → get k m ≡ none → put k v m ≡ m ++ (k, v) ∷ []
  unfolding get put
  put-append k v [] h = refl
  put-append k v ((i, w) ∷ m) h = ground (arith, put-append k v m)

  pub remove_absent : (k : K) (m : Dict K V) → get k m ≡ none → remove k m ≡ m
  unfolding get remove
  remove_absent k [] h = refl
  remove_absent k ((i, w) ∷ m) h = ground (arith, remove_absent k m)

  pub get-remove_self : (k : K) (m : Dict K V) → get k (remove k m) ≡ none
  get-remove_self k m = ground (arith, get-remove k k m, e.beq_iff k k)

  pub get-put_self : (k : K) (v : V) (m : Dict K V) → get k (put k v m) ≡ some v
  get-put_self k v m = ground (arith, get-put k k v m, e.beq_iff k k)

  -- A key whose value is at the front is nowhere else.
  pub remove_head : (k : K) (v : V) (m : Dict K V) → get k m ≡ none → remove k ((k, v) ∷ m) ≡ m
  unfolding remove
  remove_head k v m h = ground (arith, e.beq_iff k k, remove_absent k m h)

  pub length-put : (k : K) (v : V) (m : Dict K V) → length (put k v m) ≤ suc (length m)
  unfolding put
  length-put k v [] = omega arith
  length-put k v ((i, w) ∷ m) = ground (arith, length-put k v m)

  pub length-remove : (k : K) (m : Dict K V) → length (remove k m) ≤ length m
  unfolding remove
  length-remove k [] = omega arith
  length-remove k ((i, w) ∷ m) = ground (arith, length-remove k m)

  pub length-remove_held :
      (k : K) (v : V) (m : Dict K V) → get k m ≡ some v → suc (length (remove k m)) ≤ length m
  unfolding get remove
  length-remove_held k v [] h = absurd (cc)
  length-remove_held k v ((i, w) ∷ m) h =
      ground (arith, length-remove_held k v m, length-remove k m)

  pub ruleset dict_laws = (get-put, get-remove)
