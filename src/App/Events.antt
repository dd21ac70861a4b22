-- ===== src/App/Events.antt =====
-- server/_app.py: `addEventListener` and `dispatchEvent`, and the order in which listeners are called.
-- A listener is taken with what inspect says of it; none is added while an event is dispatched.
use gnserver.Base.{
  ℕ, ◌≡◌, refl, sym, ap, ◌∙◌, Bool, true, false, not, ◌&&◌, Option, none, some, List, [], ◌∷◌, ◌++◌,
  map, if◌then◌else◌, Bool-cases, inl, inr, Text, list_eq, nat_eq, ◌==◌,
}
use mathlib.Core.List.{append_assoc, append-nil, reverse, reverse-cons}
use gnserver.Base.Dict.{Dict, get, put, get-put}
use gnserver.Base.Sorted.{filter}
use gnserver.Params.Schema.{contains}

pub record Listener (F : Type 0) : Type 0 where
  pub func : F
  pub is_async : Bool
  pub parameters : List Text

-- `[events[-1]] + events[:-1]`
unfoldable pub last_first : {A : Type 0} → List A → List A
last_first [] = []
last_first (x ∷ l) = elim (last_first l) [ [] ↦ x ∷ [] | y ∷ r ↦ y ∷ x ∷ r ]

abbrev pub listeners_of : {F : Type 0} → Option (List (Listener F)) → List (Listener F)
listeners_of none = []
listeners_of (some l) = l

module _ {F : Type 0} where
  unfoldable pub add_event_listener :
      Text → Bool → Listener F → Dict Text (List (Listener F)) → Dict Text (List (Listener F))
  unfolding get put last_first
  add_event_listener name move_to_start fn events =
      let l = listeners_of (get name events) ++ fn ∷ [] in
      put name (if move_to_start then last_first l else l) events

-- A call of a listener, awaited where it is asynchronous.
pub record EventCall (F V : Type 0) : Type 0 where
  pub func : F
  pub is_awaited : Bool
  pub args : List V
  pub kwargs : Dict Text V

module _ {F V : Type 0} where
  unfoldable pub event_call : List V → Dict Text V → Listener F → EventCall F V
  unfolding contains filter
  event_call args kwargs h = record {
    func = h.func;
    is_awaited = h.is_async;
    args = args;
    kwargs = filter (λ item. contains item.0 h.parameters) kwargs;
  }

module _ {F V : Type 0} (raises : EventCall F V → Bool) where
  -- The calls that are made, and whether the last one raises.
  unfoldable pub call_listeners :
      List V → Dict Text V → List (Listener F) → List (EventCall F V) × Bool
  unfolding event_call
  call_listeners args kwargs [] = ([], false)
  call_listeners args kwargs (h ∷ l) =
      let c = event_call args kwargs h in
      let rest = call_listeners args kwargs l in
      if raises c then (c ∷ [], true) else (c ∷ rest.0, rest.1)

  unfoldable pub dispatch_event :
      Text → List V → Dict Text V → Dict Text (List (Listener F)) → List (EventCall F V) × Bool
  unfolding call_listeners get
  dispatch_event name args kwargs events =
      call_listeners args kwargs (listeners_of (get name events))

-- A use of the decorator.
pub record Listening (F : Type 0) : Type 0 where
  pub name : Text
  pub move_to_start : Bool
  pub listener : Listener F

module _ {F : Type 0} where
  unfoldable pub add_all :
      List (Listening F) → Dict Text (List (Listener F)) → Dict Text (List (Listener F))
  unfolding add_event_listener
  add_all [] events = events
  add_all (r ∷ rs) events = add_all rs (add_event_listener r.name r.move_to_start r.listener events)

  -- The listeners of an event that are added at the start, or at the end.
  abbrev pub added : Text → Bool → List (Listening F) → List (Listener F)
  added name start rs =
      map (λ r. r.listener)
        (filter (λ r. (r.name == name) && (if start then r.move_to_start else not r.move_to_start))
          rs)

  -- The order of the calls: those added at the start, the last one first, then the others.
  abbrev pub in_order : Text → List (Listening F) → List (Listener F)
  in_order name rs = reverse (added name true rs) ++ added name false rs

  last_first-append : (l : List (Listener F)) (x : Listener F) → last_first (l ++ x ∷ []) ≡ x ∷ l
  unfolding last_first
  last_first-append [] x = refl
  last_first-append (y ∷ l) x = rw (last_first-append l x, last_first) refl

  added_one :
      (b : Bool) (fn : Listener F) (l : List (Listener F))
      → (if b then last_first (l ++ fn ∷ []) else l ++ fn ∷ [])
        ≡ (if b then fn ∷ l else l ++ fn ∷ [])
  added_one true fn l = last_first-append l fn
  added_one false fn l = refl

  -- The listeners after one more was added.
  listeners-add_event_listener :
      (n name : Text) (b : Bool) (fn : Listener F) (events : Dict Text (List (Listener F)))
      → listeners_of (get name (add_event_listener n b fn events)) ≡ (
          if n == name
          then (if b
              then fn ∷ listeners_of (get name events)
              else listeners_of (get name events) ++ fn ∷ [])
          else listeners_of (get name events))
  unfolding add_event_listener
  listeners-add_event_listener n name b fn events = elim (Bool-cases (n == name)) [
    | inl same ↦
        let e = ((list_eq {A = ℕ}).beq_iff n name).0 same in
        rw (get-put n name _ events, same, e) (added_one b fn (listeners_of (get name events)))
    | inr other ↦ rw (get-put n name _ events, other) refl
  ]

  -- What one more decorator does to the order.
  grown :
      (same start : Bool) (r : Listening F) (l : List (Listener F)) (x y : List (Listening F))
      → reverse (map (λ r. r.listener) x)
          ++ ((if same then (if start then r.listener ∷ l else l ++ r.listener ∷ []) else l)
              ++ map (λ r. r.listener) y)
        ≡ reverse (map (λ r. r.listener) (if same && start then r ∷ x else x))
          ++ (l ++ map (λ r. r.listener) (if same && not start then r ∷ y else y))
  grown false start r l x y = refl
  grown true true r l x y =
      let rest = l ++ map (λ r. r.listener) y in
      sym (
        ap (λ z. z ++ rest) (reverse-cons r.listener (map (λ r. r.listener) x))
        ∙ append_assoc (reverse (map (λ r. r.listener) x)) (r.listener ∷ []) rest)
  grown true false r l x y =
      ap (λ z. reverse (map (λ r. r.listener) x) ++ z)
        (append_assoc l (r.listener ∷ []) (map (λ r. r.listener) y))

  get-add_all :
      (name : Text) (rs : List (Listening F)) (events : Dict Text (List (Listener F)))
      → listeners_of (get name (add_all rs events))
        ≡ reverse (added name true rs) ++ (listeners_of (get name events) ++ added name false rs)
  unfolding add_all filter
  get-add_all name [] events = sym (append-nil _)
  get-add_all name (r ∷ rs) events =
      let l = listeners_of (get name events) in
      get-add_all name rs (add_event_listener r.name r.move_to_start r.listener events)
      ∙ (ap (λ z. reverse (added name true rs) ++ (z ++ added name false rs))
            (listeners-add_event_listener r.name name r.move_to_start r.listener events)
          ∙ grown (r.name == name) r.move_to_start r l _ _)

module _ {F V : Type 0} (raises : EventCall F V → Bool) where
  call_listeners-map :
      (args : List V) (kwargs : Dict Text V) (l : List (Listener F))
      → ((c : EventCall F V) → raises c ≡ false)
      → call_listeners raises args kwargs l ≡ (map (event_call args kwargs) l, false)
  unfolding call_listeners
  call_listeners-map args kwargs [] calm = refl
  call_listeners-map args kwargs (h ∷ l) calm =
      rw (calm (event_call args kwargs h), call_listeners, call_listeners-map args kwargs l calm)
        refl

-- The named arguments whose names are among the parameters.
abbrev pub taken : {V : Type 0} → List Text → Dict Text V → Dict Text V
taken parameters [] = []
taken parameters ((name, v) ∷ kwargs) =
    let rest = taken parameters kwargs in
    if contains name parameters then (name, v) ∷ rest else rest

-- The call that a listener should get.
abbrev pub call_of : {F V : Type 0} → List V → Dict Text V → Listener F → EventCall F V
call_of args kwargs h = record {
  func = h.func;
  is_awaited = h.is_async;
  args = args;
  kwargs = taken h.parameters kwargs;
}

filter-taken :
    {V : Type 0} (parameters : List Text) (kwargs : Dict Text V)
    → filter (λ item. contains item.0 parameters) kwargs ≡ taken parameters kwargs
unfolding filter
filter-taken parameters [] = refl
filter-taken parameters ((name, v) ∷ kwargs) = rw (filter, filter-taken parameters kwargs) refl

map-call_of :
    {F V : Type 0} (args : List V) (kwargs : Dict Text V) (l : List (Listener F))
    → map (event_call args kwargs) l ≡ map (call_of args kwargs) l
unfolding event_call
map-call_of args kwargs [] = refl
map-call_of args kwargs (h ∷ l) =
    rw (event_call, filter-taken h.parameters kwargs, map-call_of args kwargs l) refl

-- Whatever listeners are added, where no call raises: an event calls those of its name, the ones
-- added at the start first, of these the last one first, then the others in their order, each with
-- all positional arguments and the named ones that it has a parameter for.
pub dispatch_event-in_order :
    {F V : Type 0} (raises : EventCall F V → Bool) (name : Text) (args : List V)
    (kwargs : Dict Text V) (rs : List (Listening F))
    → ((c : EventCall F V) → raises c ≡ false)
    → dispatch_event raises name args kwargs (add_all rs [])
      ≡ (map (call_of args kwargs) (in_order name rs), false)
unfolding dispatch_event get
dispatch_event-in_order raises name args kwargs rs calm =
    ap (call_listeners raises args kwargs) (get-add_all name rs [])
    ∙ call_listeners-map raises args kwargs (in_order name rs) calm
    ∙ ap (λ l. (l, false)) (map-call_of args kwargs (in_order name rs))
