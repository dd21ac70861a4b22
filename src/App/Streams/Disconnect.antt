-- ===== src/App/Streams/Disconnect.antt =====
-- server/_app.py: `_trigger_disconnect`.
use gnserver.Base.{
  ℕ, ◌≡◌, refl, sym, ap, ◌∙◌, Bool, true, false, Option, none, some, List, [], ◌∷◌, ◌++◌,
  if◌then◌else◌, Bool-cases, Option-cases, Text, ◌==◌, list_eq, nat_eq, option_eq, list_beq_iff,
  ◌&&◌, nat_beq_iff, inl, inr,
}
use mathlib.Core.List.{append_assoc, append-nil}
use gnserver.Base.Dict.{Dict, get, remove, get-put, get-remove, get-remove_self}
use gnserver.App.Streams.{
  Incoming, Proto, finish_payload, finish_all, is_connection, leave_connections, trigger_disconnect,
  end_connection,
}

-- How often the table of streams names the request.
pub marks : ℕ → Dict ℕ ℕ → List Bool
marks r [] = []
marks r ((s, x) ∷ l) = let rest = marks r l in if x == r then false ∷ rest else rest

marks_join :
    (x r s : ℕ) (before : List Bool) (l : Dict ℕ ℕ)
    → (before ++ (if x == r then false ∷ [] else [])) ++ marks r l ≡ before ++ marks r ((s, x) ∷ l)
unfolding marks
marks_join x r s before l = elim (Bool-cases (x == r)) [
  | inl t ↦ rw t (append_assoc before (false ∷ []) (marks r l))
  | inr f ↦ rw (f, append-nil before)
]

leave_self :
    (b : Bool) (connections : Dict Text ℕ) (domain : Text)
    → get domain (if b then remove domain connections else connections)
      ≡ (if b then none else get domain connections)
leave_self true connections domain = get-remove_self domain connections
leave_self false connections domain = refl

leave_other :
    (b : Bool) (connections : Dict Text ℕ) (d domain : Text)
    → (d == domain) ≡ false
    → get domain (if b then remove d connections else connections) ≡ get domain connections
leave_other true connections d domain f = rw (get-remove d domain connections, f) refl
leave_other false connections d domain f = refl

if_false {ℓ} : {A : Type ℓ} (b : Bool) (x y : A) → b ≡ false → (if b then x else y) ≡ y
if_false b x y e = rw e

if_true {ℓ} : {A : Type ℓ} (b : Bool) (x y : A) → b ≡ true → (if b then x else y) ≡ x
if_true b x y e = rw e

module _ {ℓ} {H : Type ℓ} where
  -- What is left of the table of connections for a domain.
  abbrev pub left : Proto H → Dict Text ℕ → Text → Option ℕ
  left p connections domain =
      if p.domain == some domain && get domain connections == some p.ident
      then none
      else get domain connections

  finish_payload-same :
      (r : ℕ) (b : Bool) (p : Proto H)
      → ((finish_payload r b p).events ≡ p.events)
        × ((finish_payload r b p).domain ≡ p.domain)
        × ((finish_payload r b p).ident ≡ p.ident)
        × ((finish_payload r b p).disconnected ≡ p.disconnected)
  unfolding finish_payload
  finish_payload-same r b p = elim (Option-cases (get r p.requests)) [
    | inl n ↦ rw (n, finish_payload) (refl, refl, refl, refl)
    | inr (q, e) ↦ rw (e, finish_payload) (refl, refl, refl, refl)
  ]

  finish_all-same :
      (l : Dict ℕ ℕ) (p : Proto H)
      → ((finish_all l p).events ≡ p.events)
        × ((finish_all l p).domain ≡ p.domain)
        × ((finish_all l p).ident ≡ p.ident)
        × ((finish_all l p).disconnected ≡ p.disconnected)
  unfolding finish_all
  finish_all-same [] p = (refl, refl, refl, refl)
  finish_all-same ((s, r) ∷ l) p =
      let (a, b, c, d) = finish_payload-same r false p in
      let (e, f, g, h) = finish_all-same l (finish_payload r false p) in
      (e ∙ a, f ∙ b, g ∙ c, h ∙ d)

  unmarked : (q : Incoming H) → some q ≡ some (record q { finished = q.finished ++ [] })
  unmarked q = ap (λ z. some (record q { finished = z })) (sym (append-nil q.finished))

  get-finish_payload :
      (x r : ℕ) (p : Proto H) {q : Incoming H}
      → get r p.requests ≡ some q
      → get r (finish_payload x false p).requests
        ≡ some (record q { finished = q.finished ++ (if x == r then false ∷ [] else []) })
  unfolding finish_payload
  get-finish_payload x r p {q} e = elim (Bool-cases (x == r)) [
    | inl t ↦
        let same : x ≡ r = (nat_beq_iff x r).0 t in
        let e' : get x p.requests ≡ some q = ap (λ z. get z p.requests) same ∙ e in
        rw (e', finish_payload) (rw (get-put x r _ p.requests, t) refl)
    | inr f ↦ elim (Option-cases (get x p.requests)) [
      | inl n ↦ rw (n, finish_payload) (rw f (e ∙ unmarked q))
      | inr (y, k) ↦ rw (k, finish_payload) (rw (get-put x r _ p.requests, f) (e ∙ unmarked q))
    ]
  ]

  finish_all-requests :
      (l : Dict ℕ ℕ) (p : Proto H) (r : ℕ) {q : Incoming H}
      → get r p.requests ≡ some q
      → get r (finish_all l p).requests ≡ some (record q { finished = q.finished ++ marks r l })
  unfolding finish_all marks
  finish_all-requests [] p r {q} e = e ∙ unmarked q
  finish_all-requests ((s, x) ∷ l) p r {q} e =
      finish_all-requests l (finish_payload x false p) r (get-finish_payload x r p e)
      ∙ ap (λ z. some (record q { finished = z })) (marks_join x r s q.finished l)

  leave_lem :
      (p : Proto H) (d : Option Text) (connections : Dict Text ℕ) (domain : Text)
      → get domain (leave_connections d p connections) ≡ (
          if d == some domain && get domain connections == some p.ident
          then none
          else get domain connections)
  unfolding leave_connections is_connection
  leave_lem p none connections domain = refl
  leave_lem p (some d) connections domain = elim (Bool-cases (d == domain)) [
    | inl t ↦
        let e = (list_beq_iff d domain).0 t in
        rw (e, (list_beq_iff domain domain).1 refl) (leave_self _ connections domain)
    | inr f ↦ rw f (leave_other _ connections d domain f)
  ]

  -- What the end of a connection leaves.
  pub record IsEnded (p : Proto H) (connections : Dict Text ℕ) (r : Proto H × Dict Text ℕ)
      : Type ℓ where
    pub no_streams : r.0.streams ≡ []
    pub no_bytes : r.0.buffer ≡ []
    pub incomplete :
        (n : ℕ) (x : Incoming H)
        → get n p.requests ≡ some x
        → get n r.0.requests ≡ some (record x { finished = x.finished ++ marks n p.streams })
    pub told : r.0.events ≡ p.events ++ p.domain ∷ []
    pub over : r.0.disconnected ≡ true
    pub others : (domain : Text) → get domain r.1 ≡ left p connections domain

  end_connection-IsEnded :
      (p : Proto H) (connections : Dict Text ℕ)
      → IsEnded p connections (end_connection p connections)
  unfolding end_connection
  end_connection-IsEnded p connections =
      let start = record p { disconnected = true } in
      let (events, domain, ident, over) = finish_all-same p.streams start in
      record {
        no_streams = refl;
        no_bytes = refl;
        incomplete = λ n x e. finish_all-requests p.streams start n e;
        told = rw (events, domain) refl;
        over = over;
        others = λ d. rw domain (
            leave_lem (finish_all p.streams start) p.domain connections d
            ∙ ap
                (λ i.
                  if p.domain == some d && get d connections == some i
                  then none
                  else get d connections)
                ident);
      }

  first_end :
      (p : Proto H) (connections : Dict Text ℕ)
      → p.disconnected ≡ false
      → trigger_disconnect p connections ≡ end_connection p connections
  unfolding trigger_disconnect
  first_end p connections e = if_false p.disconnected _ _ e

  later_end :
      (p : Proto H) (connections : Dict Text ℕ)
      → p.disconnected ≡ true
      → trigger_disconnect p connections ≡ (p, connections)
  unfolding trigger_disconnect
  later_end p connections e = if_true p.disconnected _ _ e

  -- The end of a connection that is not at its end: no stream and no bytes are left, every request is
  -- finished as incomplete for each stream that it has, the event is sent once, and the table of
  -- connections loses the connection's own entry and no other. A second end changes nothing.
  pub trigger_disconnect_lem :
      (p : Proto H) (connections : Dict Text ℕ)
      → p.disconnected ≡ false
      → IsEnded p connections (trigger_disconnect p connections)
        × (trigger_disconnect
              (trigger_disconnect p connections).0
              (trigger_disconnect p connections).1
            ≡ trigger_disconnect p connections)
  trigger_disconnect_lem p connections open_before =
      let ended = end_connection-IsEnded p connections in
      rw (first_end p connections open_before) (ended, later_end _ _ ended.over)
