-- ===== src/Params/Typed/Checkers.antt =====
-- server/_func_params_validation.py: the checkers decide what the annotations mean.
use gnserver.Base.{◌≡◌, refl, ◌↔◌, ◌⊎◌, inl, inr, Bool, true, false, ◌||◌, arith}
use gnserver.Params.{
  Value, none_value, bool_value, int_value, float_value, str_value, bytes_value, datetime_value,
  time_value, list_value, set_value, tuple_value, dict_value, other_value, Values, nil, cons, Items,
  stop, item, Annotation, empty, none_type, bool_type, int_type, float_type, str_type, bytes_type,
  datetime_type, time_type, tuple_fixed, union, list_of, set_of, tuple_of, dict_of, model,
  unsupported, Annotations, nothing, also, is_key, serializable_ok, serializable_all,
  serializable_items, check_values, check_items, check_list, check_set, check_tuple, check_dict,
  key_checker, check_primitive, compile_checker, check_any, serializable_all, serializable_items,
}
use gnserver.Params.Typed.{
  AllValues, AllItems, IsKey, IsSerializable, AreSerializable, ItemsSerializable, HasType, HasSome,
  HasKeyType,
}

is_key-IsKey : (k : Value) → is_key k ≡ true → IsKey k
unfolding is_key
is_key-IsKey (str_value t) h = inl (t, refl)
is_key-IsKey (bytes_value b) h = inr (inl (b, refl))
is_key-IsKey (int_value i) h = inr (inr (inl (i, refl)))
is_key-IsKey (bool_value b) h = inr (inr (inr (b, refl)))
is_key-IsKey _ h = absurd (cc h)

IsKey-is_key : (k : Value) → IsKey k → is_key k ≡ true
unfolding is_key
IsKey-is_key k (inl (t, e)) = rw e
IsKey-is_key k (inr (inl (t, e))) = rw e
IsKey-is_key k (inr (inr (inl (t, e)))) = rw e
IsKey-is_key k (inr (inr (inr (t, e)))) = rw e

is_key_iff : (k : Value) → (is_key k ≡ true) ↔ IsKey k
is_key_iff k = (is_key-IsKey k, IsKey-is_key k)

mutual
  unfolding serializable_ok is_key IsSerializable

  ok-IsSerializable : (v : Value) → serializable_ok v ≡ true → IsSerializable v
  ok-IsSerializable (list_value l) h = all-AreSerializable l h
  ok-IsSerializable (set_value l) h = all-AreSerializable l h
  ok-IsSerializable (tuple_value l) h = all-AreSerializable l h
  ok-IsSerializable (dict_value d) h = items-ItemsSerializable d h
  ok-IsSerializable (other_value n) h = ground arith
  ok-IsSerializable _ h = tt

  all-AreSerializable : (l : Values) → serializable_all l ≡ true → AreSerializable l
  all-AreSerializable nil h = tt
  all-AreSerializable (cons x l) h = ground (arith, ok-IsSerializable x, all-AreSerializable l)

  items-ItemsSerializable : (d : Items) → serializable_items d ≡ true → ItemsSerializable d
  items-ItemsSerializable stop h = tt
  items-ItemsSerializable (item k x d) h =
      ground (arith, is_key_iff k, ok-IsSerializable x, items-ItemsSerializable d)

mutual
  unfolding serializable_ok is_key IsSerializable

  IsSerializable-ok : (v : Value) → IsSerializable v → serializable_ok v ≡ true
  IsSerializable-ok (list_value l) h = AreSerializable-all l h
  IsSerializable-ok (set_value l) h = AreSerializable-all l h
  IsSerializable-ok (tuple_value l) h = AreSerializable-all l h
  IsSerializable-ok (dict_value d) h = ItemsSerializable-items d h
  IsSerializable-ok (other_value n) h = absurd h
  IsSerializable-ok _ h = refl

  AreSerializable-all : (l : Values) → AreSerializable l → serializable_all l ≡ true
  AreSerializable-all nil h = refl
  AreSerializable-all (cons x l) h = rw (IsSerializable-ok x h.0, AreSerializable-all l h.1)

  ItemsSerializable-items : (d : Items) → ItemsSerializable d → serializable_items d ≡ true
  ItemsSerializable-items stop h = refl
  ItemsSerializable-items (item k x d) h =
      rw (IsKey-is_key k h.0, IsSerializable-ok x h.1, ItemsSerializable-items d h.2)

serializable_ok_iff : (v : Value) → (serializable_ok v ≡ true) ↔ IsSerializable v
serializable_ok_iff v = (ok-IsSerializable v, IsSerializable-ok v)

-- The loops decide what the checkers of the elements decide.
module _ (c : Value → Bool) (P : Value → Type 0) (decides : (x : Value) → (c x ≡ true) ↔ P x) where
  check_values_iff :
      (l : Values) → (check_values c l ≡ true) ↔ AllValues (λ x. IsSerializable x × P x) l
  unfolding check_values
  check_values_iff nil = (λ _. tt, λ _. refl)
  check_values_iff (cons x l) =
      let here = serializable_ok_iff x in
      let rest = check_values_iff l in
      let it = decides x in
      (
        λ h. ((here.0 (ground arith), it.0 (ground arith)), rest.0 (ground arith)),
        λ h. rw (here.1 h.0.0, it.1 h.0.1, rest.1 h.1),
      )

  check_list-eq-true :
      (v : Value)
      → check_list c v ≡ true
      → (l : Values) × (v ≡ list_value l) × AllValues (λ x. IsSerializable x × P x) l
  unfolding check_list
  check_list-eq-true (list_value l) h = (l, refl, (check_values_iff l).0 h)
  check_list-eq-true _ h = absurd (cc h)

  check_list_iff :
      (v : Value)
      → (check_list c v ≡ true)
        ↔ ((l : Values) × (v ≡ list_value l) × AllValues (λ x. IsSerializable x × P x) l)
  unfolding check_list
  check_list_iff v = (check_list-eq-true v, λ (l, e, h). rw e ((check_values_iff l).1 h))

  check_set-eq-true :
      (v : Value)
      → check_set c v ≡ true
      → (l : Values) × (v ≡ set_value l) × AllValues (λ x. IsSerializable x × P x) l
  unfolding check_set
  check_set-eq-true (set_value l) h = (l, refl, (check_values_iff l).0 h)
  check_set-eq-true _ h = absurd (cc h)

  check_set_iff :
      (v : Value)
      → (check_set c v ≡ true)
        ↔ ((l : Values) × (v ≡ set_value l) × AllValues (λ x. IsSerializable x × P x) l)
  unfolding check_set
  check_set_iff v = (check_set-eq-true v, λ (l, e, h). rw e ((check_values_iff l).1 h))

  check_tuple-eq-true :
      (v : Value)
      → check_tuple c v ≡ true
      → (l : Values) × (v ≡ tuple_value l) × AllValues (λ x. IsSerializable x × P x) l
  unfolding check_tuple
  check_tuple-eq-true (tuple_value l) h = (l, refl, (check_values_iff l).0 h)
  check_tuple-eq-true _ h = absurd (cc h)

  check_tuple_iff :
      (v : Value)
      → (check_tuple c v ≡ true)
        ↔ ((l : Values) × (v ≡ tuple_value l) × AllValues (λ x. IsSerializable x × P x) l)
  unfolding check_tuple
  check_tuple_iff v = (check_tuple-eq-true v, λ (l, e, h). rw e ((check_values_iff l).1 h))

  module _ (k : Value → Bool) (K : Value → Type 0) (keys : (x : Value) → (k x ≡ true) ↔ K x) where
    check_items_iff : (d : Items) → (check_items k c d ≡ true) ↔ AllItems (λ x. IsKey x × K x) P d
    unfolding check_items
    check_items_iff stop = (λ _. tt, λ _. refl)
    check_items_iff (item j x d) =
        let here = is_key_iff j in
        let rest = check_items_iff d in
        let it = decides x in
        let key = keys j in
        (
          λ h. (
            (here.0 (ground arith), key.0 (ground arith)),
            it.0 (ground arith),
            rest.0 (ground arith),
          ),
          λ h. rw (here.1 h.0.0, key.1 h.0.1, it.1 h.1, rest.1 h.2),
        )

    check_dict-eq-true :
        (v : Value)
        → check_dict k c v ≡ true
        → (d : Items) × (v ≡ dict_value d) × AllItems (λ x. IsKey x × K x) P d
    unfolding check_dict
    check_dict-eq-true (dict_value d) h = (d, refl, (check_items_iff d).0 h)
    check_dict-eq-true _ h = absurd (cc h)

    check_dict_iff :
        (v : Value)
        → (check_dict k c v ≡ true)
          ↔ ((d : Items) × (v ≡ dict_value d) × AllItems (λ x. IsKey x × K x) P d)
    unfolding check_dict
    check_dict_iff v = (check_dict-eq-true v, λ (d, e, h). rw e ((check_items_iff d).1 h))

either_iff :
    (a b : Bool) (P Q : Type 0) → (a ≡ true) ↔ P → (b ≡ true) ↔ Q → (a || b ≡ true) ↔ (P ⊎ Q)
either_iff true b P Q p q = (λ _. inl (p.0 refl), λ _. refl)
either_iff false b P Q p q =
    (λ h. inr (q.0 h), λ s. elim s [ inl x ↦ absurd (cc (p.1 x)) | inr y ↦ q.1 y ])

key_checker_iff :
    (a : Annotation) (c : Value → Bool) (P : Type 0) (x : Value)
    → (c x ≡ true) ↔ P
    → (key_checker a c x ≡ true) ↔ HasKeyType a P
unfolding key_checker HasType
key_checker_iff empty c P x h = (λ _. tt, λ _. refl)
key_checker_iff _ c P x h = h

check_primitive-HasType : (a : Annotation) (v : Value) → check_primitive a v ≡ true → HasType a v
unfolding check_primitive HasType
check_primitive-HasType none_type none_value h = refl
check_primitive-HasType bool_type (bool_value b) h = (b, refl)
check_primitive-HasType int_type (int_value i) h = (i, refl)
check_primitive-HasType float_type (float_value x) h = (x, refl)
check_primitive-HasType str_type (str_value t) h = (t, refl)
check_primitive-HasType bytes_type (bytes_value b) h = (b, refl)
check_primitive-HasType datetime_type (datetime_value t) h = (t, refl)
check_primitive-HasType time_type (time_value t) h = (t, refl)
check_primitive-HasType _ _ h = absurd (cc h)

-- A value passes the checker of an annotation exactly when it has the type.
mutual
  unfolding compile_checker HasType check_primitive

  pub checker_iff : (a : Annotation) (v : Value) → (compile_checker a v ≡ true) ↔ HasType a v
  checker_iff empty v = serializable_ok_iff v
  checker_iff (union l) v = any_iff l v
  checker_iff (list_of a) v = check_list_iff _ _ (λ x. checker_iff a x) v
  checker_iff (set_of a) v = check_set_iff _ _ (λ x. checker_iff a x) v
  checker_iff (tuple_of a) v = check_tuple_iff _ _ (λ x. checker_iff a x) v
  checker_iff (dict_of k a) v =
      check_dict_iff _ _ (λ x. checker_iff a x) _ _
        (λ x. key_checker_iff k (λ y. compile_checker k y) (HasType k x) x (checker_iff k x)) v
  checker_iff tuple_fixed v = (λ h. absurd (cc h), λ h. absurd h)
  checker_iff (model m) v = (λ h. absurd (cc h), λ h. absurd h)
  checker_iff (unsupported n) v = (λ h. absurd (cc h), λ h. absurd h)
  checker_iff none_type v = (check_primitive-HasType none_type v, λ e. rw e)
  checker_iff bool_type v = (check_primitive-HasType bool_type v, λ (b, e). rw e)
  checker_iff int_type v = (check_primitive-HasType int_type v, λ (b, e). rw e)
  checker_iff float_type v = (check_primitive-HasType float_type v, λ (b, e). rw e)
  checker_iff str_type v = (check_primitive-HasType str_type v, λ (b, e). rw e)
  checker_iff bytes_type v = (check_primitive-HasType bytes_type v, λ (b, e). rw e)
  checker_iff datetime_type v = (check_primitive-HasType datetime_type v, λ (b, e). rw e)
  checker_iff time_type v = (check_primitive-HasType time_type v, λ (b, e). rw e)

  any_iff : (l : Annotations) (v : Value) → (check_any l v ≡ true) ↔ HasSome l v
  any_iff nothing v = (λ h. absurd (cc h), λ h. absurd h)
  any_iff (also a l) v = either_iff _ _ _ _ (checker_iff a v) (any_iff l v)
