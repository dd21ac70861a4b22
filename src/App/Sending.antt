-- ===== src/App/Sending.antt =====
-- server/_app.py: `sendRawResponse` and `sendRequest` of `App._ServerProto`, which send a header and
-- the chunks of a payload on a stream. `raises` says of each call of the connection, in the order of
-- the calls, whether it raises; the calls are `send_stream_data`, which queues a frame unless it
-- raises, `transmit` and `_drain_stream_send_buffer`.
pub mod Ended
pub mod Received
use gnserver.Base.{
  ℕ, suc, ◌+◌, Bool, true, false, not, ◌&&◌, List, [], ◌∷◌, ◌++◌, if◌then◌else◌, Bytes,
}

-- The frames on the stream with their end flags, the calls made, whether the stream is finished, and
-- whether the code has reset it.
pub record Sending : Type 0 where
  pub frames : List (Bytes × Bool)
  pub calls : ℕ
  pub stream_finished : Bool
  pub was_reset : Bool

abbrev pub idle : Sending
idle = record { frames = []; calls = 0; stream_finished = false; was_reset = false }

-- Where the code goes on, and where it has raised.
pub data Sent : Type 0 where
  went : Sending → Sent
  broke : Sending → Sent

infixl 5 ◌>>=◌
abbrev pub ◌>>=◌ : Sent → (Sending → Sent) → Sent
went s >>= next = next s
broke s >>= next = broke s

-- `_reset_stream_after_send_error`, unless the stream is finished; the exception goes on.
unfoldable pub reset_after_error : Sent → Sent
reset_after_error (went s) = went s
reset_after_error (broke s) = broke (if s.stream_finished then s else record s { was_reset = true })

module _ (raises : ℕ → Bool) where
  -- `send_stream_data(stream_id, chunk, end_stream)`
  unfoldable pub send_stream_data : Bytes → Bool → Sending → Sent
  send_stream_data chunk end_stream s =
      let t = record s { calls = suc s.calls } in
      if raises s.calls
      then broke t
      else went (record t { frames = s.frames ++ (chunk, end_stream) ∷ [] })

  -- `transmit`
  unfoldable pub transmit : Sending → Sent
  transmit s =
      let t = record s { calls = suc s.calls } in if raises s.calls then broke t else went t

  -- `_drain_stream_send_buffer`
  unfoldable pub drain : Sending → Sent
  drain s = let t = record s { calls = suc s.calls } in if raises s.calls then broke t else went t

  unfoldable pub send_frame : Bytes → Bool → Sending → Sent
  unfolding send_stream_data transmit
  send_frame chunk end_stream s = send_stream_data chunk end_stream s >>= transmit

  unfoldable pub send_drained : Bytes → Bool → Sending → Sent
  unfolding send_frame drain
  send_drained chunk end_stream s = send_frame chunk end_stream s >>= drain

  -- The loop over the payload.
  unfoldable pub send_chunks : List Bytes → Sending → Sent
  unfolding send_drained
  send_chunks [] s = went s
  send_chunks (c ∷ l) s = send_drained c false s >>= λ t. send_chunks l t

  -- The end of the stream after the payload.
  unfoldable pub send_end : Bool → Sending → Sent
  unfolding send_frame drain
  send_end true s = send_frame [] true s >>= λ t. drain (record t { stream_finished = true })
  send_end false s = went s

  -- The body of the `try`.
  unfoldable pub send_body : Bytes → Bool → List Bytes → Bool → Sending → Sent
  unfolding send_drained send_chunks send_end
  send_body header true chunks end_stream s =
      send_drained header false s >>= λ t. send_chunks chunks t >>= λ u. send_end end_stream u
  send_body header false chunks end_stream s =
      send_drained header end_stream s >>= λ t. went (record t { stream_finished = end_stream })

  -- `sendRawResponse`, and `sendRequest` on a new stream
  unfoldable pub send_message : Bytes → Bool → List Bytes → Bool → Sent
  unfolding send_body reset_after_error
  send_message header has_payload chunks end_stream =
      reset_after_error (send_body header has_payload chunks end_stream idle)
