-- ===== src/App/Streams/Chunks.antt =====
-- server/_app.py: `_feed_request_stream` over the chunks of a stream.
use gnserver.Base.{
  ℕ, ◌≤◌, ◌≡◌, refl, sym, ap, ◌∙◌, Bool, true, false, Option, none, some, List, [], ◌∷◌, ◌++◌, drop,
  length, is_empty, Bytes, nat_eq, Option-cases, arith, inl, inr, zero, suc,
}
use mathlib.Core.List.{append_assoc, append-nil}
use gnserver.Base.Dict.{get, put, get-put_self, get-remove_self}
use gnserver.App.Streams.{
  Proto, buffered, feed_payload, finish_payload, end_request, feed_nonempty, start_request,
  feed_header, feed_request_stream,
}

-- The chunks of a stream as events: the stream ends with the last.
module _ {ℓ} {H : Type ℓ} (parse : Bytes → Option (H × ℕ × ℕ)) where
  unfoldable pub feed_chunks : ℕ → List Bytes → Proto H → Proto H
  unfolding feed_request_stream
  feed_chunks stream_id [] p = p
  feed_chunks stream_id (c ∷ l) p =
      feed_chunks stream_id l (feed_request_stream parse stream_id c (is_empty l) p).0

  -- More bytes do not change a header that has been read, and the payload starts within what was read.
  pub record IsIncremental : Type ℓ where
    pub stable :
        (b more : Bytes) (h : H) (offset count : ℕ)
        → parse b ≡ some (h, offset, count)
        → parse (b ++ more) ≡ some (h, offset, count)
    pub within :
        (b : Bytes) (h : H) (offset count : ℕ)
        → parse b ≡ some (h, offset, count)
        → offset ≤ length b

unfoldable pub concat : List Bytes → Bytes
concat [] = []
concat (c ∷ l) = c ++ concat l

drop-append_within : (n : ℕ) (xs ys : Bytes) → n ≤ length xs → drop n (xs ++ ys) ≡ drop n xs ++ ys
drop-append_within zero xs ys h = refl
drop-append_within (suc n) [] ys h = absurd (omega arith)
drop-append_within (suc n) (x ∷ xs) ys h = drop-append_within n xs ys (omega arith)

module _ {ℓ} {H : Type ℓ} where
  -- The request of a stream: the stream is open, and the request has these bytes and is not finished.
  record IsOpen (stream_id : ℕ) (h : H) (bytes : Bytes) (p : Proto H) : Type ℓ where
    known : get stream_id p.streams ≡ some stream_id
    holds : get stream_id p.requests ≡ some (record { header = h; payload = bytes; finished = [] })
    unbuffered : get stream_id p.buffer ≡ none

  -- The stream is over, and its request has these bytes and is complete.
  pub record IsDone (stream_id : ℕ) (h : H) (bytes : Bytes) (p : Proto H) : Type ℓ where
    pub forgotten : get stream_id p.streams ≡ none
    pub complete :
        get stream_id p.requests
        ≡ some (record { header = h; payload = bytes; finished = true ∷ [] })
    pub unbuffered : get stream_id p.buffer ≡ none

  feed_nonempty-IsOpen :
      (s : ℕ) (h : H) (bytes chunk : Bytes) (p : Proto H)
      → IsOpen s h bytes p
      → IsOpen s h (bytes ++ chunk) (feed_nonempty s chunk p)
  unfolding feed_nonempty feed_payload
  feed_nonempty-IsOpen s h bytes [] p o = rw (append-nil bytes) o
  feed_nonempty-IsOpen s h bytes (b ∷ chunk) p o =
      rw (o.holds, feed_payload)
        (record { known = o.known; holds = get-put_self s _ p.requests; unbuffered = o.unbuffered })

  end_request-IsDone :
      (s : ℕ) (h : H) (bytes : Bytes) (p : Proto H)
      → IsOpen s h bytes p
      → IsDone s h bytes (end_request s s true p)
  unfolding end_request finish_payload
  end_request-IsDone s h bytes p o =
      rw (o.holds, finish_payload)
        (record {
          forgotten = get-remove_self s p.streams;
          complete = get-put_self s _ p.requests;
          unbuffered = o.unbuffered;
        })

  start_request-IsOpen : (s : ℕ) (h : H) (p : Proto H) → IsOpen s h [] (start_request s h p)
  unfolding start_request
  start_request-IsOpen s h p = record {
    known = get-put_self s s p.streams;
    holds = get-put_self s _ p.requests;
    unbuffered = get-remove_self s p.buffer;
  }

  -- The state before the header is complete.
  record IsWaiting (stream_id : ℕ) (acc : Bytes) (p : Proto H) : Type ℓ where
    unknown : get stream_id p.streams ≡ none
    collected : buffered stream_id p ≡ acc

  module _ (parse : Bytes → Option (H × ℕ × ℕ)) (incremental : IsIncremental parse) where
    IsOpen-step :
        (s : ℕ) (h : H) (bytes c : Bytes) (p : Proto H)
        → IsOpen s h bytes p
        → IsOpen s h (bytes ++ c) (feed_request_stream parse s c false p).0
    unfolding feed_request_stream end_request
    IsOpen-step s h bytes c p o =
        rw (o.known, feed_request_stream) (feed_nonempty-IsOpen s h bytes c p o)

    IsOpen-last :
        (s : ℕ) (h : H) (bytes c : Bytes) (p : Proto H)
        → IsOpen s h bytes p
        → IsDone s h (bytes ++ c) (feed_request_stream parse s c true p).0
    unfolding feed_request_stream
    IsOpen-last s h bytes c p o =
        rw (o.known, feed_request_stream)
          (end_request-IsDone s h (bytes ++ c) _ (feed_nonempty-IsOpen s h bytes c p o))

    -- The chunks after the one that completes the header.
    IsOpen-run :
        (s : ℕ) (h : H) (bytes c : Bytes) (l : List Bytes) (p : Proto H)
        → IsOpen s h bytes p
        → IsDone s h (bytes ++ concat (c ∷ l)) (feed_chunks parse s (c ∷ l) p)
    unfolding feed_chunks concat
    IsOpen-run s h bytes c [] p o = rw (append-nil c) (IsOpen-last s h bytes c p o)
    IsOpen-run s h bytes c (d ∷ l) p o =
        rw (← append_assoc bytes c (concat (d ∷ l)))
          (IsOpen-run s h (bytes ++ c) d l _ (IsOpen-step s h bytes c p o))

    -- The chunk that completes the header.
    header-IsOpen :
        (s : ℕ) (buf : Bytes) (p : Proto H) (h : H) (offset count : ℕ)
        → parse buf ≡ some (h, offset, count)
        → IsOpen s h (drop offset buf) (feed_header parse s buf false p).0
    unfolding feed_header end_request
    header-IsOpen s buf p h offset count e =
        rw (e, feed_header)
          (feed_nonempty-IsOpen s h [] (drop offset buf) _ (start_request-IsOpen s h p))

    header-IsDone :
        (s : ℕ) (buf : Bytes) (p : Proto H) (h : H) (offset count : ℕ)
        → parse buf ≡ some (h, offset, count)
        → IsDone s h (drop offset buf) (feed_header parse s buf true p).0
    unfolding feed_header
    header-IsDone s buf p h offset count e =
        rw (e, feed_header)
          (end_request-IsDone s h (drop offset buf) _
            (feed_nonempty-IsOpen s h [] (drop offset buf) _ (start_request-IsOpen s h p)))

    feed_waiting :
        (s : ℕ) (acc c : Bytes) (last : Bool) (p : Proto H)
        → IsWaiting s acc p
        → feed_request_stream parse s c last p
          ≡ feed_header parse s (acc ++ c) last (record p { buffer = put s (acc ++ c) p.buffer })
    unfolding feed_request_stream
    feed_waiting s acc c last p w = rw (w.unknown, feed_request_stream, w.collected)

    header-IsWaiting :
        (s : ℕ) (acc c : Bytes) (p : Proto H)
        → IsWaiting s acc p
        → parse (acc ++ c) ≡ none
        → IsWaiting s (acc ++ c) (feed_request_stream parse s c false p).0
    unfolding feed_header buffered
    header-IsWaiting s acc c p w e =
        rw (feed_waiting s acc c false p w, e, feed_header)
          (record {
            unknown = w.unknown;
            collected = rw (get-put_self s (acc ++ c) p.buffer, buffered);
          })

    IsWaiting-run :
        (s : ℕ) (acc c : Bytes) (l : List Bytes) (p : Proto H) (h : H) (offset count : ℕ)
        → IsWaiting s acc p
        → parse (acc ++ concat (c ∷ l)) ≡ some (h, offset, count)
        → IsDone s h (drop offset (acc ++ concat (c ∷ l))) (feed_chunks parse s (c ∷ l) p)
    unfolding feed_chunks concat
    IsWaiting-run s acc c [] p h offset count w e =
        rw (append-nil c, feed_chunks, feed_waiting s acc c true p w)
          (header-IsDone s (acc ++ c) _ h offset count (rw (append-nil c) at e))
    IsWaiting-run s acc c (d ∷ l) p h offset count w e =
        let rest = concat (d ∷ l) in
        let e' : parse ((acc ++ c) ++ rest) ≡ some (h, offset, count) =
          ap parse (append_assoc acc c rest) ∙ e in
        elim (Option-cases (parse (acc ++ c))) [
          | inl n ↦
              rw (← append_assoc acc c rest) (
                IsWaiting-run s (acc ++ c) d l _ h offset count (header-IsWaiting s acc c p w n) e')
          | inr ((h', offset', count'), f) ↦
              let complete =
                f ∙ sym (incremental.stable (acc ++ c) rest h' offset' count' f) ∙ e' in
              let bound = incremental.within (acc ++ c) h offset count complete in
              rw (← append_assoc acc c rest, drop-append_within offset (acc ++ c) rest bound)
                (IsOpen-run s h (drop offset (acc ++ c)) d l _ (
                  rw (feed_waiting s acc c false p w)
                    (header-IsOpen s (acc ++ c) _ h offset count complete)))
        ]

    -- A stream whose bytes are a whole request, cut into any chunks: its request gets the bytes after
    -- the header, and is finished once, as complete, and the tables forget the stream.
    pub feed_chunks-IsDone :
        (stream_id : ℕ) (c : Bytes) (l : List Bytes) (p : Proto H) (h : H) (offset count : ℕ)
        → get stream_id p.streams ≡ none
        → get stream_id p.buffer ≡ none
        → parse (concat (c ∷ l)) ≡ some (h, offset, count)
        → IsDone stream_id h (drop offset (concat (c ∷ l))) (feed_chunks parse stream_id (c ∷ l) p)
    unfolding buffered
    feed_chunks-IsDone stream_id c l p h offset count unknown unbuffered e =
        IsWaiting-run stream_id [] c l p h offset count
          (record { unknown = unknown; collected = rw (unbuffered, buffered) }) e
