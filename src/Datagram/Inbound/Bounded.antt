-- ===== src/Datagram/Inbound/Bounded.antt =====
-- The queues of a datagram endpoint: which are used, and how long they get.
use gnserver.Base.{
  ℕ, ◌≤◌, ◌<◌, ◌≡◌, refl, Option, none, some, List, [], ◌∷◌, ◌++◌, length, length-append, nat_beq,
  Bool-cases, inl, inr, Bytes, arith,
}
use gnserver.Datagram.Packets.{fast_path}
use gnserver.Datagram.Inbound.{
  Inbound, prune_load_window, record_queue_wait_ms, inbound_shard, is_full, set_queue,
  start_inbound_workers, put_nowait, pass_or_put, datagram_received, take_item, inbound_worker,
  Event, received, served, measured, stopped, step, run,
}

-- The remainder of a hash.
abbrev pub IsRemainder : {A : Type 0} → (A → ℕ → ℕ) → Type 0
IsRemainder {A = A} hash_mod = (addr : A) (n : ℕ) → 0 < n → hash_mod addr n < n

-- A queue has at most its size, and one that no worker serves is empty.
abbrev pub AreBounded : {A : Type 0} → ℕ → ℕ → (ℕ → List (Bytes × A × ℕ)) → Type 0
AreBounded workers maxsize queues =
    (k : ℕ) → (length (queues k) ≤ maxsize) × (workers ≤ k → queues k ≡ [])

module _ {A : Type 0} (hash_mod : A → ℕ → ℕ) (workers maxsize window version : ℕ) where
  module _ (law : IsRemainder hash_mod) (some_worker : 0 < workers) (some_place : 0 < maxsize) where
    inbound_shard_lem : (addr : A) → inbound_shard hash_mod workers addr < workers
    inbound_shard_lem addr = let k = law addr workers some_worker in ground arith

    set_queue-AreBounded :
        (k : ℕ) (l : List (Bytes × A × ℕ)) (queues : ℕ → List (Bytes × A × ℕ))
        → length l ≤ maxsize
        → (workers ≤ k → l ≡ [])
        → AreBounded workers maxsize queues
        → AreBounded workers maxsize (set_queue k l queues)
    set_queue-AreBounded k l queues s e h j = elim (Bool-cases (nat_beq j k)) [
      | inl same ↦ rw same (s, λ w. e (ground arith))
      | inr other ↦ rw other (h j)
    ]

    put_nowait-AreBounded :
        (dg : Bytes) (addr : A) (now : ℕ) (s : Inbound A)
        → AreBounded workers maxsize s.queues
        → AreBounded workers maxsize (put_nowait hash_mod workers maxsize dg addr now s).queues
    unfolding put_nowait
    put_nowait-AreBounded dg addr now s h =
        let k = inbound_shard hash_mod workers addr in
        elim (Bool-cases (is_full maxsize (s.queues k))) [
          | inl full ↦ rw (full, put_nowait) h
          | inr room ↦
              let q = s.queues k in
              let fits : length q < maxsize = ground arith in
              let one = length-append q ((dg, addr, now) ∷ []) in
              let below = inbound_shard_lem addr in
              rw (room, put_nowait)
                (set_queue-AreBounded k (q ++ (dg, addr, now) ∷ []) s.queues (omega arith)
                  (λ w. absurd (omega arith)) h)
        ]

    pass_or_put-AreBounded :
        (o : Option Bytes) (dg : Bytes) (addr : A) (now : ℕ) (s : Inbound A)
        → AreBounded workers maxsize s.queues
        → AreBounded workers maxsize
            (pass_or_put hash_mod workers maxsize window version o dg addr now s).0.queues
    unfolding pass_or_put prune_load_window
    pass_or_put-AreBounded (some p) dg addr now s h = h
    pass_or_put-AreBounded none dg addr now s h =
        put_nowait-AreBounded dg addr now (prune_load_window window now s) h

    take_item-AreBounded :
        (k : ℕ) (queue : List (Bytes × A × ℕ)) (seen now : ℕ) (s : Inbound A)
        → s.queues k ≡ queue
        → AreBounded workers maxsize s.queues
        → AreBounded workers maxsize (take_item window k queue seen now s).0.queues
    unfolding take_item record_queue_wait_ms prune_load_window
    take_item-AreBounded k [] seen now s e h = h
    take_item-AreBounded k ((dg, addr, at) ∷ l) seen now s e h =
        set_queue-AreBounded k l s.queues (let b = rw e at (h k).0 in omega arith)
          (λ w. absurd (cc (e, (h k).1 w))) h

    step-AreBounded :
        (now : ℕ) (e : Event A) (s : Inbound A)
        → AreBounded workers maxsize s.queues
        → AreBounded workers maxsize (step hash_mod workers maxsize window version now e s).queues
    unfolding step datagram_received inbound_worker prune_load_window
    step-AreBounded now (received dg addr enc) s h =
        pass_or_put-AreBounded (fast_path version dg enc) dg addr now (start_inbound_workers s) h
    step-AreBounded now (served k seen) s h = take_item-AreBounded k (s.queues k) seen now s refl h
    step-AreBounded now measured s h = h
    step-AreBounded now stopped s h = λ k. (omega arith, λ w. refl)

    -- From queues within their sizes, of which only the workers' have items, all events lead to such.
    pub run-AreBounded :
        (l : List (ℕ × Event A)) (s : Inbound A)
        → AreBounded workers maxsize s.queues
        → AreBounded workers maxsize (run hash_mod workers maxsize window version l s).queues
    unfolding run
    run-AreBounded [] s h = h
    run-AreBounded ((now, e) ∷ l) s h = run-AreBounded l _ (step-AreBounded now e s h)
