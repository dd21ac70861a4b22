-- ===== src/Datagram/Inbound.antt =====
-- server/_datagram_enc.py: the queues of `DatagramEndpoint` for datagrams that come in, and what it
-- keeps to measure its load. Times are milliseconds of the monotonic clock. `hash_mod addr n` is
-- `hash(from_addr_to_maddr(addr)) % n`. A queue is found by the number of its worker.
pub mod Window
pub mod Measured
pub mod Bounded
use gnserver.Base.{
  ℕ, suc, ◌-◌, Bool, true, false, ◌&&◌, Option, none, some, List, [], ◌∷◌, ◌++◌, length, ltb, leb,
  nat_beq, if◌then◌else◌, Bytes,
}
use gnserver.Datagram.Encryptor.{Encryptor}
use gnserver.Datagram.Packets.{fast_path}

pub record Inbound (A : Type 0) : Type 0 where
  pub queues : ℕ → List (Bytes × A × ℕ)
  pub started : Bool
  pub drop_count : ℕ
  pub accept_events : List ℕ
  pub drop_events : List ℕ
  pub queue_wait_ms_events : List (ℕ × ℕ)

abbrev pub new_inbound : {A : Type 0} → Inbound A
new_inbound = record {
  queues = λ k. [];
  started = false;
  drop_count = 0;
  accept_events = [];
  drop_events = [];
  queue_wait_ms_events = [];
}

abbrev pub moment : ℕ → ℕ
moment t = t

abbrev pub recorded : (ℕ × ℕ) → ℕ
recorded (now, wait_ms) = now

-- The loop `while events and events[0] < threshold: events.popleft()`.
unfoldable pub pop_older : {E : Type 0} → (E → ℕ) → ℕ → List E → List E
pop_older time threshold [] = []
pop_older time threshold (e ∷ l) =
    let rest = pop_older time threshold l in if ltb (time e) threshold then rest else e ∷ l

unfoldable pub prune_load_window : {A : Type 0} → ℕ → ℕ → Inbound A → Inbound A
unfolding pop_older
prune_load_window window now s =
    let threshold = now - window in
    record s {
      accept_events = pop_older moment threshold s.accept_events;
      drop_events = pop_older moment threshold s.drop_events;
      queue_wait_ms_events = pop_older recorded threshold s.queue_wait_ms_events;
    }

unfoldable pub record_queue_wait_ms : {A : Type 0} → ℕ → ℕ → ℕ → Inbound A → Inbound A
unfolding prune_load_window
record_queue_wait_ms window wait_ms now s =
    prune_load_window window now
      (record s { queue_wait_ms_events = s.queue_wait_ms_events ++ (now, wait_ms) ∷ [] })

abbrev pub inbound_shard : {A : Type 0} → (A → ℕ → ℕ) → ℕ → A → ℕ
inbound_shard hash_mod workers addr = if nat_beq workers 1 then 0 else hash_mod addr workers

-- `put_nowait` raises `QueueFull`.
abbrev pub is_full : {P : Type 0} → ℕ → List P → Bool
is_full maxsize l = ltb 0 maxsize && leb maxsize (length l)

abbrev pub set_queue : {P : Type 0} → ℕ → List P → (ℕ → List P) → ℕ → List P
set_queue k l queues j = if nat_beq j k then l else queues j

-- The workers run.
abbrev pub start_inbound_workers : {A : Type 0} → Inbound A → Inbound A
start_inbound_workers s = record s { started = true }

-- The workers are cancelled and their queues emptied.
abbrev pub stop_inbound_workers : {A : Type 0} → Inbound A → Inbound A
stop_inbound_workers s = record s { started = false; queues = λ k. [] }

-- What the worker `k` does with its queue.
unfoldable pub take_item :
    {A : Type 0} → ℕ → ℕ → List (Bytes × A × ℕ) → ℕ → ℕ → Inbound A → Inbound A × Option (Bytes × A)
unfolding record_queue_wait_ms
take_item window k [] seen now s = (s, none)
take_item window k ((dg, addr, enqueued_at) ∷ l) seen now s = (
  record_queue_wait_ms window (seen - enqueued_at) now
      (record s { queues = set_queue k l s.queues }),
  some (dg, addr),
)

-- A turn of the worker `k`, which sees the clock at `seen` and at `now`, up to the handling of the
-- item.
unfoldable pub inbound_worker :
    {A : Type 0} → ℕ → ℕ → ℕ → ℕ → Inbound A → Inbound A × Option (Bytes × A)
unfolding take_item
inbound_worker window k seen now s = take_item window k (s.queues k) seen now s

module _ {A : Type 0} (hash_mod : A → ℕ → ℕ) (workers maxsize : ℕ) where
  -- The datagram is put in the queue, or dropped.
  unfoldable pub put_nowait : Bytes → A → ℕ → Inbound A → Inbound A
  put_nowait dg addr now s =
      let k = inbound_shard hash_mod workers addr in
      if is_full maxsize (s.queues k)
      then record s { drop_count = suc s.drop_count; drop_events = s.drop_events ++ now ∷ [] }
      else record s {
        queues = set_queue k (s.queues k ++ (dg, addr, now) ∷ []) s.queues;
        accept_events = s.accept_events ++ now ∷ [];
      }

module _ {A : Type 0} (hash_mod : A → ℕ → ℕ) (workers maxsize window version : ℕ) where
  -- What the fast path gives goes to QUIC, all else the slow path.
  unfoldable pub pass_or_put : Option Bytes → Bytes → A → ℕ → Inbound A → Inbound A × Option Bytes
  unfolding put_nowait prune_load_window
  pass_or_put (some p) dg addr now s = (s, some p)
  pass_or_put none dg addr now s =
      (put_nowait hash_mod workers maxsize dg addr now (prune_load_window window now s), none)

  unfoldable pub datagram_received :
      Bytes → A → Option Encryptor → ℕ → Inbound A → Inbound A × Option Bytes
  unfolding pass_or_put
  datagram_received dg addr e now s =
      pass_or_put (fast_path version dg e) dg addr now (start_inbound_workers s)

-- What happens to an endpoint. `getInboundLoadMetrics` prunes the windows and reads them.
pub data Event (A : Type 0) : Type 0 where
  received : Bytes → A → Option Encryptor → Event A
  served : ℕ → ℕ → Event A
  measured : Event A
  stopped : Event A

module _ {A : Type 0} (hash_mod : A → ℕ → ℕ) (workers maxsize window version : ℕ) where
  unfoldable pub step : ℕ → Event A → Inbound A → Inbound A
  unfolding datagram_received inbound_worker
  step now (received dg addr e) s =
      (datagram_received hash_mod workers maxsize window version dg addr e now s).0
  step now (served k seen) s = (inbound_worker window k seen now s).0
  step now measured s = prune_load_window window now s
  step now stopped s = stop_inbound_workers s

  unfoldable pub run : List (ℕ × Event A) → Inbound A → Inbound A
  unfolding step
  run [] s = s
  run ((now, e) ∷ l) s = run l (step now e s)
