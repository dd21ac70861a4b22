-- ===== src/Kdc/Request/Sent.antt =====
-- What `requestKDC` sends to a KDC, and what it makes of the callback's answers.
use gnserver.Base.{
  value_error, Result-cases, inr, ℕ, zero, suc, ◌≡◌, refl, sym, ap, true, false, Option, none, some,
  List, [], ◌∷◌, ◌++◌, if◌then◌else◌, not, ◌||◌, Text, Result, ok, raise, ◌>>=◌, ◌>>◌, raise_if,
  >>=-eq-ok, raise_if-eq-ok, is_empty, length, drop, get_elem?, arith, Bool-cases, inl,
  unsupported_key_type,
}
use gnserver.Kdc.Types.{KeyId, Item, domain, keyid, is_kdc_keyid_supported}
use gnserver.Kdc.Keys.{has_configured_kdc, Kdc}
use gnserver.Kdc.Request.{
  Element, Answer, Reply, read_reply, ask_kdc, choose_kdc, decide, missing, failed, entry, Sync,
  is_unsupported, any_unsupported, to_callback, classify, take_answer, first, take_answers,
  read_answers, plan_request, fetch, store_result, request_kdc,
}

any_unsupported-append :
    (xs ys : List Item) → any_unsupported (xs ++ ys) ≡ (any_unsupported xs || any_unsupported ys)
unfolding any_unsupported
any_unsupported-append [] ys = refl
any_unsupported-append (x ∷ xs) ys = let ih = any_unsupported-append xs ys in ground arith

classify-supported :
    (s : Sync) (xs c r : List Item) → classify s xs ≡ ok (c, r) → any_unsupported r ≡ false
unfolding classify any_unsupported
classify-supported s [] c r e = ground arith
classify-supported s (x ∷ xs) c r e = elim (Bool-cases (to_callback s x)) [
  | inl active ↦
      let (p, rest, done) = >>=-eq-ok (classify s xs) _ (rw active at e) in
      let ih = classify-supported s xs p.0 p.1 rest in ground arith
  | inr idle ↦ elim (Bool-cases (is_unsupported x)) [
    | inl bad ↦ absurd (ground arith)
    | inr good ↦
        let (p, rest, done) = >>=-eq-ok (classify s xs) _ (rw (idle, good) at e) in
        let ih = classify-supported s xs p.0 p.1 rest in ground arith
  ]
]

take_answer-supported :
    (x : Option Item) (a : Answer) (r : List Item) (out : List Element)
    → take_answer x a ≡ ok (r, out)
    → any_unsupported r ≡ false
unfolding take_answer any_unsupported
take_answer-supported none (decide b) r out e = absurd (ground arith)
take_answer-supported (some x) (decide true) r out e = ground arith
take_answer-supported (some x) (decide false) r out e = ground arith
take_answer-supported none missing r out e = absurd (ground arith)
take_answer-supported (some x) missing r out e = ground arith
take_answer-supported none failed r out e = absurd (ground arith)
take_answer-supported (some x) failed r out e = ground arith
take_answer-supported x (entry y) r out e = ground arith

take_answers-supported :
    (c : List Item) (answers : List Answer) (r : List Item) (out : List Element)
    → take_answers c answers ≡ ok (r, out)
    → any_unsupported r ≡ false
unfolding take_answers any_unsupported
take_answers-supported c [] r out e = ground arith
take_answers-supported c (a ∷ answers) r out e =
    let (p, one, more) = >>=-eq-ok (take_answer (first c) a) _ e in
    let (q, rest, done) = >>=-eq-ok (take_answers (drop 1 c) answers) _ more in
    let head = take_answer-supported (first c) a p.0 p.1 one in
    let tail = take_answers-supported (drop 1 c) answers q.0 q.1 rest in
    ground (arith, any_unsupported-append p.0 q.0)

read_answers-supported :
    (c : List Item) (a : Result (Option (List Answer))) (r : List Item) (out : List Element)
    → read_answers c a ≡ ok (r, out)
    → any_unsupported r ≡ false
unfolding read_answers
read_answers-supported c (raise err) r out e = absurd (ground arith)
read_answers-supported c (ok none) r out e = absurd (ground arith)
read_answers-supported c (ok (some answers)) r out e =
    let (u, fine, more) =
      >>=-eq-ok (raise_if (any_unsupported (drop (length answers) c)) unsupported_key_type) _ e in
    take_answers-supported c answers r out more

-- The items that are left for the KDC have types that it serves, so the second test of them, under
-- `if r:`, never raises.
pub plan_request-supported :
    (s : Sync) (items r : List Item) (out : List Element)
    → plan_request s items ≡ ok (r, out)
    → any_unsupported r ≡ false
unfolding plan_request
plan_request-supported s items r out e =
    let (p, split, more) = >>=-eq-ok (classify s items) _ e in
    let rest = classify-supported s items p.0 p.1 split in
    elim (Bool-cases (is_empty p.0)) [
      | inl idle ↦ ground arith
      | inr active ↦
          let (q, read, done) =
            >>=-eq-ok (read_answers p.0 (s.callback p.0)) (λ q. ok (p.1 ++ q.0, q.1))
              (rw active at more) in
          let given = read_answers-supported p.0 (s.callback p.0) q.0 q.1 read in
          ground (arith, any_unsupported-append p.1 q.0)
    ]

-- A client that differs from `s.request` only on lists with an unsupported item.
abbrev pub with_request : Sync → (Option Text → List Item → Result Reply) → Sync
with_request s request = record s { request = request }

choose_kdc-agree :
    (s : Sync) (request : Option Text → List Item → Result Reply) (k : Kdc) (r : List Item)
    → choose_kdc s k r ≡ choose_kdc (with_request s request) k r
unfolding choose_kdc
choose_kdc-agree s request k [] = refl
choose_kdc-agree s request k (domain d ∷ xs) = refl
choose_kdc-agree s request k (keyid i ∷ xs) = refl

ask_kdc-agree :
    (s : Sync) (request : Option Text → List Item → Result Reply) (k : Kdc) (r : List Item)
    → ((d : Option Text) → s.request d r ≡ request d r)
    → ask_kdc s k r ≡ ask_kdc (with_request s request) k r
unfolding ask_kdc
ask_kdc-agree s request k r same i =
    raise_if (not (has_configured_kdc k)) value_error
    >> (choose_kdc-agree s request k r i >>= λ d. same d i >>= λ reply. read_reply reply)

classify-agree :
    (s : Sync) (request : Option Text → List Item → Result Reply) (items : List Item)
    → classify s items ≡ classify (with_request s request) items
unfolding classify to_callback
classify-agree s request [] = refl
classify-agree s request (domain d ∷ xs) = rw (classify-agree s request xs)
classify-agree s request (keyid i ∷ xs) = rw (classify-agree s request xs)

plan_request-agree :
    (s : Sync) (request : Option Text → List Item → Result Reply) (items : List Item)
    → plan_request s items ≡ plan_request (with_request s request) items
unfolding plan_request
plan_request-agree s request items = rw (classify-agree s request items)

-- No item of a type that the KDC does not serve is ever sent to it: two clients that answer alike
-- where every item is supported make `requestKDC` do the same.
pub request_kdc-supported :
    (s : Sync) (request : Option Text → List Item → Result Reply) (items : List Item) (k : Kdc)
    → ((d : Option Text) (r : List Item) → any_unsupported r ≡ false → s.request d r ≡ request d r)
    → request_kdc s items k ≡ request_kdc (with_request s request) items k
unfolding request_kdc
request_kdc-supported s request items k same = elim (Result-cases (plan_request s items)) [
  | inl (p, planned) ↦
      let good = plan_request-supported s items p.0 p.1 planned in
      let asked = ask_kdc-agree s request k p.0 (λ d. same d p.0 good) in
      let again = plan_request-agree s request items in
      let fetched : fetch s k p ≡ fetch (with_request s request) k p = unfold fetch in rw (asked) in
      ap (store_result k) (rw (sym again, planned, fetched))
  | inr (err, broken) ↦
      let again = plan_request-agree s request items in ap (store_result k) (rw (sym again, broken))
]

-- What a request without a callback gets: an error for an item of an unsupported type or where no
-- KDC is configured, nothing for no items, and else the reply of the chosen KDC to all the items.
abbrev pub idle_answer : Sync → Kdc → List Item → Result (List Element)
idle_answer s k items =
    if any_unsupported items
    then raise unsupported_key_type
    else if is_empty items
    then ok []
    else if not (has_configured_kdc k)
    then raise value_error
    else choose_kdc s k items >>= λ d. s.request d items >>= λ reply. read_reply reply

get-any_unsupported :
    (c : List Item) (n : ℕ) (i : KeyId)
    → get_elem? c n ≡ some (keyid i)
    → is_kdc_keyid_supported i ≡ false
    → any_unsupported c ≡ true
unfolding any_unsupported is_unsupported
get-any_unsupported [] n i at bad = absurd (ground arith)
get-any_unsupported (x ∷ xs) zero i at bad = ground arith
get-any_unsupported (x ∷ xs) (suc n) i at bad =
    let ih = get-any_unsupported xs n i at bad in ground arith

take_answer-unsupported :
    (i : KeyId) (a : Answer) (p : List Item × List Element)
    → take_answer (some (keyid i)) a ≡ ok p
    → is_kdc_keyid_supported i ≡ false
    → (x : Element) × (a ≡ entry x)
unfolding take_answer is_unsupported
take_answer-unsupported i (decide true) p e bad = absurd (ground arith)
take_answer-unsupported i (decide false) p e bad = absurd (ground arith)
take_answer-unsupported i missing p e bad = absurd (ground arith)
take_answer-unsupported i failed p e bad = absurd (ground arith)
take_answer-unsupported i (entry x) p e bad = (x, refl)

take_answers-unsupported :
    (c : List Item) (answers : List Answer) (p : List Item × List Element) (n : ℕ) (i : KeyId)
    → take_answers c answers ≡ ok p
    → any_unsupported (drop (length answers) c) ≡ false
    → get_elem? c n ≡ some (keyid i)
    → is_kdc_keyid_supported i ≡ false
    → (x : Element) × (get_elem? answers n ≡ some (entry x))
unfolding take_answers
take_answers-unsupported c [] p n i e good at bad =
    let found = get-any_unsupported c n i at bad in absurd (ground arith)
take_answers-unsupported [] (a ∷ answers) p n i e good at bad = absurd (ground arith)
take_answers-unsupported (y ∷ c) (a ∷ answers) p zero i e good at bad =
    let (q, head, more) = >>=-eq-ok (take_answer (some y) a) _ e in
    let (x, given) = take_answer-unsupported i a q (ground arith) bad in (x, ground arith)
take_answers-unsupported (y ∷ c) (a ∷ answers) p (suc n) i e good at bad =
    let (q, head, more) = >>=-eq-ok (take_answer (some y) a) _ e in
    let (q', tail, done) = >>=-eq-ok (take_answers c answers) _ more in
    take_answers-unsupported c answers q' n i tail good at bad

-- A request that goes on after the callback has in the callback's list, at the place of each
-- identifier of a type that the KDC does not serve, an object to be stored: no bool, no `None`, no
-- `GNResponse`.
pub read_answers-unsupported :
    (c : List Item) (a : Result (Option (List Answer))) (p : List Item × List Element) (n : ℕ)
    (i : KeyId)
    → read_answers c a ≡ ok p
    → get_elem? c n ≡ some (keyid i)
    → is_kdc_keyid_supported i ≡ false
    → (answers : List Answer) × (x : Element) × (a ≡ ok (some answers))
      × (get_elem? answers n ≡ some (entry x))
unfolding read_answers
read_answers-unsupported c (raise err) p n i e at bad = absurd (ground arith)
read_answers-unsupported c (ok none) p n i e at bad = absurd (ground arith)
read_answers-unsupported c (ok (some answers)) p n i e at bad =
    let (u, fine, more) =
      >>=-eq-ok (raise_if (any_unsupported (drop (length answers) c)) unsupported_key_type) _ e in
    let (x, given) =
      take_answers-unsupported c answers p n i more
        (raise_if-eq-ok (any_unsupported (drop (length answers) c)) unsupported_key_type fine) at
        bad in
    (answers, x, refl, given)
