-- ===== src/Datagram/Inbound/Measured.antt =====
-- What the load windows hold after any events: what the same endpoint, with windows that forget
-- nothing, has seen in the last window.
use gnserver.Base.{
  ℕ, suc, ◌-◌, ◌≤◌, ◌≡◌, refl, sym, ap, ◌∙◌, Option, none, some, List, [], ◌∷◌, ◌++◌, Bool-cases,
  inl, inr, Bytes, arith,
}
use gnserver.Base.Sorted.{filter}
use gnserver.Datagram.Packets.{fast_path}
use gnserver.Datagram.Inbound.{
  Inbound, new_inbound, moment, recorded, prune_load_window, record_queue_wait_ms, inbound_shard,
  is_full, set_queue, start_inbound_workers, put_nowait, pass_or_put, datagram_received, take_item,
  inbound_worker, Event, received, served, measured, stopped, step, run,
}
use gnserver.Datagram.Inbound.Window.{
  since-append, Ordered-append, recent, InOrder, InOrder-later, prune_load_window-recent,
  prune_load_window-all,
}

-- The one endpoint has forgotten what is older than some threshold of before its window.
abbrev Follows : {A : Type 0} → ℕ → ℕ → Inbound A → Inbound A → Type 0
Follows window now s full = (q : ℕ) × (s ≡ recent q full) × (q ≤ now - window) × InOrder now full

Follows-≡ :
    {A : Type 0} (window now : ℕ) {s t f g : Inbound A}
    → s ≡ t
    → f ≡ g
    → Follows window now t g
    → Follows window now s f
Follows-≡ window now a b (q, e, h, o) = (q, a ∙ (e ∙ sym (ap (recent q) b)), h, rw b o)

note_wait : {A : Type 0} → ℕ → ℕ → Inbound A → Inbound A
note_wait now wait_ms s = record s {
  queue_wait_ms_events = s.queue_wait_ms_events ++ (now, wait_ms) ∷ [];
}

module _ {A : Type 0} (window whole now : ℕ) (short : now ≤ whole) where
  -- A pruning.
  prune-Follows :
      (earlier : ℕ) (s : Inbound A)
      → earlier ≤ now - window
      → InOrder now s
      → Follows window now
          (prune_load_window window now (recent earlier s))
          (prune_load_window whole now s)
  prune-Follows earlier s h o =
      rw (prune_load_window-all whole now s short)
        (now - window, prune_load_window-recent window now earlier now s h o, omega arith, o)

  wait-Follows :
      (earlier wait_ms : ℕ) (s : Inbound A)
      → earlier ≤ now - window
      → InOrder now s
      → Follows window now
          (record_queue_wait_ms window wait_ms now (recent earlier s))
          (record_queue_wait_ms whole wait_ms now s)
  unfolding record_queue_wait_ms note_wait
  wait-Follows earlier wait_ms s h o =
      let noted : note_wait now wait_ms (recent earlier s)
          ≡ recent earlier (note_wait now wait_ms s) =
        ap (λ w. record (recent earlier s) { queue_wait_ms_events = w })
          (sym
            (since-append recorded earlier s.queue_wait_ms_events (now, wait_ms) (omega arith))) in
      let order : InOrder now (note_wait now wait_ms s) =
        (o.0, o.1, Ordered-append recorded now s.queue_wait_ms_events (now, wait_ms) refl o.2) in
      let (q, e, l, r) = prune-Follows earlier (note_wait now wait_ms s) h order in
      (q, ap (prune_load_window window now) noted ∙ e, l, r)

  take_item-Follows :
      (earlier k : ℕ) (queue : List (Bytes × A × ℕ)) (seen : ℕ) (s : Inbound A)
      → earlier ≤ now - window
      → InOrder now s
      → Follows window now
          (take_item window k queue seen now (recent earlier s)).0
          (take_item whole k queue seen now s).0
  unfolding take_item
  take_item-Follows earlier k [] seen s h o = (earlier, refl, h, o)
  take_item-Follows earlier k ((dg, addr, enqueued_at) ∷ l) seen s h o =
      wait-Follows earlier (seen - enqueued_at) (record s { queues = set_queue k l s.queues }) h o

  module _ (hash_mod : A → ℕ → ℕ) (workers maxsize version : ℕ) where
    put_nowait-Follows :
        (q : ℕ) (dg : Bytes) (addr : A) (s : Inbound A)
        → q ≤ now - window
        → InOrder now s
        → Follows window now
            (put_nowait hash_mod workers maxsize dg addr now (recent q s))
            (put_nowait hash_mod workers maxsize dg addr now s)
    unfolding put_nowait
    put_nowait-Follows q dg addr s h o =
        let k = inbound_shard hash_mod workers addr in
        elim (Bool-cases (is_full maxsize (s.queues k))) [
          | inl full ↦
              rw (full, put_nowait)
                (
                  q,
                  ap (λ d. record (recent q s) { drop_count = suc s.drop_count; drop_events = d })
                      (sym (since-append moment q s.drop_events now (omega arith))),
                  h,
                  (o.0, Ordered-append moment now s.drop_events now refl o.1, o.2),
                )
          | inr room ↦
              rw (room, put_nowait)
                (
                  q,
                  ap
                      (λ d. record (recent q s) {
                        queues = set_queue k (s.queues k ++ (dg, addr, now) ∷ []) s.queues;
                        accept_events = d;
                      })
                      (sym (since-append moment q s.accept_events now (omega arith))),
                  h,
                  (Ordered-append moment now s.accept_events now refl o.0, o.1, o.2),
                )
        ]

    pass_or_put-Follows :
        (o : Option Bytes) (earlier : ℕ) (dg : Bytes) (addr : A) (s : Inbound A)
        → earlier ≤ now - window
        → InOrder now s
        → Follows window now
            (pass_or_put hash_mod workers maxsize window version o dg addr now (recent earlier s)).0
            (pass_or_put hash_mod workers maxsize whole version o dg addr now s).0
    unfolding pass_or_put
    pass_or_put-Follows (some p) earlier dg addr s h o = (earlier, refl, h, o)
    pass_or_put-Follows none earlier dg addr s h o =
        Follows-≡ window now
          (ap (put_nowait hash_mod workers maxsize dg addr now)
            (prune_load_window-recent window now earlier now s h o))
          (ap (put_nowait hash_mod workers maxsize dg addr now)
            (prune_load_window-all whole now s short))
          (put_nowait-Follows (now - window) dg addr s (omega arith) o)

    step-recent :
        (e : Event A) (q : ℕ) (s : Inbound A)
        → q ≤ now - window
        → InOrder now s
        → Follows window now
            (step hash_mod workers maxsize window version now e (recent q s))
            (step hash_mod workers maxsize whole version now e s)
    unfolding step datagram_received inbound_worker
    step-recent (received dg addr enc) q s h o =
        pass_or_put-Follows (fast_path version dg enc) q dg addr (start_inbound_workers s) h o
    step-recent (served i seen) q s h o = take_item-Follows q i (s.queues i) seen s h o
    step-recent measured q s h o = prune-Follows q s h o
    step-recent stopped q s h o = (q, refl, h, o)

    step-Follows :
        (last : ℕ) (e : Event A) (s full : Inbound A)
        → last ≤ now
        → Follows window last s full
        → Follows window now
            (step hash_mod workers maxsize window version now e s)
            (step hash_mod workers maxsize whole version now e full)
    step-Follows last e s full k (q, f, h, o) =
        Follows-≡ window now (ap (step hash_mod workers maxsize window version now e) f) refl
          (step-recent e q full (omega arith) (InOrder-later last now full k o))

-- The clock does not run backwards, and ends at `now`.
abbrev pub IsTimely : {A : Type 0} → ℕ → ℕ → List (ℕ × Event A) → Type 0
IsTimely last now [] = last ≤ now
IsTimely last now ((t, e) ∷ l) = (last ≤ t) × IsTimely t now l

timely_end : {A : Type 0} (last now : ℕ) (l : List (ℕ × Event A)) → IsTimely last now l → last ≤ now
timely_end last now [] h = h
timely_end last now ((t, e) ∷ l) h = let k = timely_end t now l h.1 in let j = h.0 in omega arith

module _ {A : Type 0} (hash_mod : A → ℕ → ℕ) (workers maxsize version window : ℕ) where
  run-Follows :
      (l : List (ℕ × Event A)) (last now : ℕ) (s full : Inbound A)
      → IsTimely last now l
      → Follows window last s full
      → (t : ℕ) × (t ≤ now)
        × Follows window t
            (run hash_mod workers maxsize window version l s)
            (run hash_mod workers maxsize now version l full)
  unfolding run
  run-Follows [] last now s full h f = (last, h, f)
  run-Follows ((t, e) ∷ l) last now s full h f = run-Follows l t now _ _ h.1 (
      step-Follows window now t (timely_end t now l h.1) hash_mod workers maxsize version last e s
        full h.0 f)

  -- However datagrams come in, workers serve, loads are measured and the endpoint is stopped, with a
  -- clock that does not run backwards: after the pruning at `now`, the endpoint is what one whose
  -- windows reach back to the start of the clock is, without the events older than the window. So
  -- the windows that the metrics read hold exactly the events of the last `window` milliseconds.
  pub run-recent :
      (l : List (ℕ × Event A)) (now : ℕ)
      → IsTimely 0 now l
      → prune_load_window window now (run hash_mod workers maxsize window version l new_inbound)
        ≡ recent (now - window) (run hash_mod workers maxsize now version l new_inbound)
  unfolding filter
  run-recent l now h =
      let (t, le, (q, e, b, o)) =
        run-Follows l 0 now new_inbound new_inbound h (0, refl, omega arith, (tt, tt, tt)) in
      ap (prune_load_window window now) e
      ∙ prune_load_window-recent window now q t _ (omega arith) o
