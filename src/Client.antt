-- ===== src/Client.antt =====
-- client/_client.py: how the client takes a request that the server sends on a stream of its own. The
-- connection's `_buffer` and `_inflight_streams` are the fields `buffer` and `streams` of `Proto`, and a
-- message is a request; the steps on them are those of the server's side.
use gnserver.Base.{ℕ, Bool, Option, none, some, ◌++◌, Bytes, nat_eq}
use gnserver.Base.Dict.{get, put}
use gnserver.App.Streams.{Proto, buffered, feed_header, feed_nonempty, end_request}

module _ {ℓ} {H : Type ℓ} (parse : Bytes → Option (H × ℕ × ℕ)) where
  -- `_feed_incoming_request`
  unfoldable pub feed_incoming_request : ℕ → Bytes → Bool → Proto H → Proto H × Option H
  unfolding get put buffered feed_header feed_nonempty end_request
  feed_incoming_request stream_id chunk end_stream p = elim (get stream_id p.streams) [
    | none ↦
        let buf = buffered stream_id p ++ chunk in
        feed_header parse stream_id buf end_stream
          (record p { buffer = put stream_id buf p.buffer })
    | some r ↦ (end_request stream_id r end_stream (feed_nonempty r chunk p), none)
  ]
