-- ===== src/Datagram/Inbound/Window.antt =====
-- The load windows of a datagram endpoint beside the same endpoint with windows that forget nothing.
use gnserver.Base.{
  ℕ, ◌-◌, ◌≤◌, ◌≡◌, refl, ap, ◌∙◌, List, [], ◌∷◌, ◌++◌, All, ltb, leb, Bool-cases, inl, inr, arith,
}
use gnserver.Base.Sorted.{filter, filter-append}
use gnserver.Datagram.Inbound.{Inbound, moment, recorded, pop_older, prune_load_window}

-- The events that are not older than the threshold.
abbrev pub since : {E : Type 0} → (E → ℕ) → ℕ → List E → List E
since time threshold l = filter (λ e. leb threshold (time e)) l

-- In the order of their times, none later than `last`.
abbrev Ordered : {E : Type 0} → (E → ℕ) → ℕ → List E → Type 0
Ordered time last [] = Unit
Ordered time last (e ∷ l) = (time e ≤ last) × All (λ x. time e ≤ time x) l × Ordered time last l

module _ {E : Type 0} (time : E → ℕ) where
  Ordered-later :
      (last now : ℕ) (l : List E) → last ≤ now → Ordered time last l → Ordered time now l
  Ordered-later last now [] h o = tt
  Ordered-later last now (e ∷ l) h o = (omega arith, o.1, Ordered-later last now l h o.2)

  All-append_le :
      (t now : ℕ) (l : List E) (x : E)
      → t ≤ time x
      → All (λ x. t ≤ time x) l
      → All (λ x. t ≤ time x) (l ++ x ∷ [])
  All-append_le t now [] x h a = (h, tt)
  All-append_le t now (e ∷ l) x h a = (a.0, All-append_le t now l x h a.1)

  -- A new event is the last one.
  pub Ordered-append :
      (now : ℕ) (l : List E) (x : E)
      → time x ≡ now
      → Ordered time now l
      → Ordered time now (l ++ x ∷ [])
  Ordered-append now [] x h o = (omega arith, tt, tt)
  Ordered-append now (e ∷ l) x h o =
      (o.0, All-append_le (time e) now l x (omega arith) o.1, Ordered-append now l x h o.2)

  since-all :
      (threshold t : ℕ) (l : List E)
      → threshold ≤ t
      → All (λ x. t ≤ time x) l
      → since time threshold l ≡ l
  unfolding filter
  since-all threshold t [] h a = refl
  since-all threshold t (e ∷ l) h a =
      let ih = since-all threshold t l h a.1 in let k = a.0 in ground arith

  -- The loop keeps what is not older, also where it starts from an earlier pruning.
  pop_older-since :
      (earlier threshold last : ℕ) (l : List E)
      → earlier ≤ threshold
      → Ordered time last l
      → pop_older time threshold (since time earlier l) ≡ since time threshold l
  unfolding pop_older filter
  pop_older-since earlier threshold last [] h o = refl
  pop_older-since earlier threshold last (e ∷ l) h o =
      let ih = pop_older-since earlier threshold last l h o.2 in
      elim (Bool-cases (ltb (time e) threshold)) [
        | inl older ↦ ground arith
        | inr newer ↦
            let all = since-all threshold (time e) l (ground arith) o.1 in
            let more = since-all earlier (time e) l (ground arith) o.1 in ground arith
      ]

  pop_older-zero : (l : List E) → pop_older time 0 l ≡ l
  unfolding pop_older
  pop_older-zero [] = refl
  pop_older-zero (e ∷ l) = ground arith

  pub since-append :
      (threshold : ℕ) (l : List E) (x : E)
      → threshold ≤ time x
      → since time threshold (l ++ x ∷ []) ≡ since time threshold l ++ x ∷ []
  unfolding filter
  since-append threshold l x h =
      filter-append (λ e. leb threshold (time e)) l (x ∷ [])
      ∙ ap (λ r. since time threshold l ++ r) (ground arith)

-- What an endpoint would know whose windows forget only what is older than the threshold.
abbrev pub recent : {A : Type 0} → ℕ → Inbound A → Inbound A
recent threshold s = record s {
  accept_events = since moment threshold s.accept_events;
  drop_events = since moment threshold s.drop_events;
  queue_wait_ms_events = since recorded threshold s.queue_wait_ms_events;
}

abbrev pub InOrder : {A : Type 0} → ℕ → Inbound A → Type 0
InOrder last s =
    Ordered moment last s.accept_events
    × Ordered moment last s.drop_events
    × Ordered recorded last s.queue_wait_ms_events

pub InOrder-later :
    {A : Type 0} (last now : ℕ) (s : Inbound A) → last ≤ now → InOrder last s → InOrder now s
InOrder-later last now s h o = (
  Ordered-later moment last now s.accept_events h o.0,
  Ordered-later moment last now s.drop_events h o.1,
  Ordered-later recorded last now s.queue_wait_ms_events h o.2,
)

pub prune_load_window-recent :
    {A : Type 0} (window now earlier last : ℕ) (s : Inbound A)
    → earlier ≤ now - window
    → InOrder last s
    → prune_load_window window now (recent earlier s) ≡ recent (now - window) s
unfolding prune_load_window
prune_load_window-recent window now earlier last s h o =
    let a = pop_older-since moment earlier (now - window) last s.accept_events h o.0 in
    let d = pop_older-since moment earlier (now - window) last s.drop_events h o.1 in
    let w = pop_older-since recorded earlier (now - window) last s.queue_wait_ms_events h o.2 in
    cc (a, d, w)

-- A window that is longer than the clock forgets nothing.
pub prune_load_window-all :
    {A : Type 0} (window now : ℕ) (s : Inbound A)
    → now ≤ window
    → prune_load_window window now s ≡ s
unfolding prune_load_window
prune_load_window-all window now s h =
    let zero_threshold : now - window ≡ 0 = omega arith in
    rw
      (
        zero_threshold,
        pop_older-zero moment s.accept_events,
        pop_older-zero moment s.drop_events,
        pop_older-zero recorded s.queue_wait_ms_events,
      )
      refl
