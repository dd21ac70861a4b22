-- ===== src/App/Config/Bounds.antt =====
-- server/_models.py: the ranges of the numbers of a `DEPConfig`, and the table of encryption types.
use gnserver.Base.{
  ℕ, zero, suc, ◌≤◌, ◌≡◌, refl, ◌⊎◌, inl, inr, Option, none, some, [], ◌∷◌, Text, list_eq, nat_eq,
  list_beq_iff, ok, arith, >>=-eq-ok, ok-injective, Option-cases,
}
use gnserver.Base.Dict.{Dict, get, put, get-put, has-get, has-get_held}
use gnserver.Base.Int.{ℤ}
use gnserver.App.Config.{
  DepArgs, DepConfig, int_or, at_least, low_watermark, merge_defaults, establish_policy, configure,
  new_dep_config,
}

-- The numbers are in range.
pub record IsInRange (c : DepConfig) : Type 0 where
  pub workers : 1 ≤ c.incoming_datagram_workers
  pub queue : 1 ≤ c.incoming_datagram_queue_size
  pub sessions : 1 ≤ c.max_inactive_transport_sessions
  pub chunk : 1 ≤ c.iter_payload_chunk_size
  pub watermarks :
      (c.stream_send_high_watermark ≡ 0)
      ⊎ (c.stream_send_low_watermark ≤ c.stream_send_high_watermark)

at_least-ge : (n : ℕ) (i : ℤ) → n ≤ at_least n i
unfolding at_least
at_least-ge n i = ground arith

low_watermark_lem : (high low : ℕ) → (high ≡ 0) ⊎ (low_watermark high low ≤ high)
unfolding low_watermark
low_watermark_lem zero low = inl refl
low_watermark_lem (suc high) low = inr (ground arith)

configure-IsInRange : (args : DepArgs) (p : _) (m : _) → IsInRange (configure args p m)
unfolding configure
configure-IsInRange args p m = record {
  workers = at_least-ge 1 (int_or args.incoming_datagram_workers 1);
  queue = at_least-ge 1 (int_or args.incoming_datagram_queue_size 1);
  sessions = at_least-ge 1 (int_or args.max_inactive_transport_sessions 1);
  chunk = at_least-ge 1 (int_or args.iter_payload_chunk_size 1);
  watermarks =
      low_watermark_lem (at_least 0 (int_or args.stream_send_high_watermark 0))
        (at_least 0 (int_or args.stream_send_low_watermark 0));
}

-- Every configuration that the constructor makes has its numbers in range: at least one worker, one
-- place in a queue, one kept session and one byte in a chunk, and, where there is a high watermark,
-- a low watermark that is not above it.
pub new_dep_config-IsInRange :
    (args : DepArgs) {c : DepConfig} → new_dep_config args ≡ ok c → IsInRange c
unfolding new_dep_config
new_dep_config-IsInRange args h =
    let ((policy, matcher), _, made) =
      >>=-eq-ok (establish_policy args.established_encryption_types_for_domain)
        (λ q. ok (configure args q.0 q.1)) h in
    let e : configure args policy matcher ≡ _ = ok-injective made in
    rw (← e) (configure-IsInRange args policy matcher)

-- The first of two answers.
abbrev pub or_else : Option ℤ → Option ℤ → Option ℤ
or_else none second = second
or_else (some i) second = some i

-- The merged table has the caller's entries, and the defaults' where the caller has none.
pub merge_defaults_lem :
    (given defaults : Dict Text ℤ) (k : Text)
    → get k (merge_defaults given defaults) ≡ or_else (get k given) (get k defaults)
unfolding merge_defaults get
merge_defaults_lem given [] k = ground arith
merge_defaults_lem given ((j, v) ∷ l) k = elim (Option-cases (get j given)) [
  | inl new ↦
      let ih = merge_defaults_lem (put j v given) l k in
      rw (has-get j given new) (ground (arith, ih, get-put j k v given, list_beq_iff j k))
  | inr (w, old) ↦
      let ih = merge_defaults_lem given l k in
      rw (has-get_held j w given old) (ground (arith, ih, list_beq_iff j k))
]
