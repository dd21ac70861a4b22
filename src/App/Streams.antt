-- ===== src/App/Streams.antt =====
-- server/_app.py: the streams and the end of a connection, `App._ServerProto`. The parser of a
-- request's header, `GNRequest.try_deserialize_header`, is the parameter `parse`: the header, the
-- offset and the length of the payload. A request object is found by the stream that it came on, and
-- records what is fed to it and how it is finished. The domains' table of connections holds the
-- number of a protocol object.
pub mod Chunks
pub mod Disconnect
use gnserver.Base.{
  ℕ, Bool, true, false, not, ◌&&◌, Option, none, some, List, [], ◌∷◌, ◌++◌, drop, is_empty, nat_beq,
  if◌then◌else◌, Text, Bytes, ◌==◌, list_eq, nat_eq, option_eq,
}
use gnserver.Base.Dict.{Dict, get, put, remove}

pub record Incoming {ℓ} (H : Type ℓ) : Type ℓ where
  pub header : H
  pub payload : Bytes
  pub finished : List Bool

pub record Proto {ℓ} (H : Type ℓ) : Type ℓ where
  pub ident : ℕ
  pub buffer : Dict ℕ Bytes
  pub streams : Dict ℕ ℕ
  pub requests : Dict ℕ (Incoming H)
  pub domain : Option Text
  pub disconnected : Bool
  pub dep_policy_denied : Bool
  pub events : List (Option Text)

-- `self._buffer.setdefault(stream_id, bytearray())`
unfoldable pub buffered {ℓ} : {H : Type ℓ} → ℕ → Proto H → Bytes
unfolding get
buffered stream_id p = elim (get stream_id p.buffer) [ none ↦ [] | some b ↦ b ]

module _ {ℓ} {H : Type ℓ} where
  -- `request._feedIncomingPayload(data)` and `request._finishIncomingPayload(complete)`
  unfoldable pub feed_payload : ℕ → Bytes → Proto H → Proto H
  unfolding get put
  feed_payload r chunk p = elim (get r p.requests) [
    | none ↦ p
    | some q ↦ record p { requests = put r (record q { payload = q.payload ++ chunk }) p.requests }
  ]

  unfoldable pub finish_payload : ℕ → Bool → Proto H → Proto H
  unfolding get put
  finish_payload r complete p = elim (get r p.requests) [
    | none ↦ p
    | some q ↦ record p {
      requests = put r (record q { finished = q.finished ++ complete ∷ [] }) p.requests;
    }
  ]

  -- The end of the stream, where the request is known.
  unfoldable pub end_request : ℕ → ℕ → Bool → Proto H → Proto H
  unfolding finish_payload remove
  end_request stream_id r end_stream p =
      if end_stream
      then (let q = finish_payload r true p in record q { streams = remove stream_id q.streams })
      else p

  unfoldable pub feed_nonempty : ℕ → Bytes → Proto H → Proto H
  unfolding feed_payload
  feed_nonempty r [] p = p
  feed_nonempty r (b ∷ chunk) p = feed_payload r (b ∷ chunk) p

  -- A new request, from its header.
  unfoldable pub start_request : ℕ → H → Proto H → Proto H
  unfolding put remove
  start_request stream_id h p = record p {
    requests = put stream_id (record { header = h; payload = []; finished = [] }) p.requests;
    buffer = remove stream_id p.buffer;
    streams = put stream_id stream_id p.streams;
  }

  module _ (parse : Bytes → Option (H × ℕ × ℕ)) where
    -- The stream has no request yet; `p` holds the bytes so far.
    unfoldable pub feed_header : ℕ → Bytes → Bool → Proto H → Proto H × Option H
    unfolding remove start_request feed_nonempty end_request
    feed_header stream_id buf end_stream p = elim (parse buf) [
      | none ↦ (if end_stream then record p { buffer = remove stream_id p.buffer } else p, none)
      | some (h, payload_offset, payload_length) ↦ (
        end_request stream_id stream_id end_stream
            (feed_nonempty stream_id (drop payload_offset buf) (start_request stream_id h p)),
        some h,
      )
    ]

    -- `_feed_request_stream`
    unfoldable pub feed_request_stream : ℕ → Bytes → Bool → Proto H → Proto H × Option H
    unfolding get put buffered feed_header feed_nonempty end_request
    feed_request_stream stream_id chunk end_stream p = elim (get stream_id p.streams) [
      | none ↦
          let buf = buffered stream_id p ++ chunk in
          feed_header stream_id buf end_stream (record p { buffer = put stream_id buf p.buffer })
      | some r ↦ (end_request stream_id r end_stream (feed_nonempty r chunk p), none)
    ]

  -- `StreamReset`
  unfoldable pub reset_stream : ℕ → Proto H → Proto H
  unfolding get remove finish_payload
  reset_stream stream_id p =
      let q = elim (get stream_id p.streams) as (λ _. Proto H) [
        | none ↦ p
        | some r ↦ finish_payload r false (record p { streams = remove stream_id p.streams })
      ] in
      record q { buffer = remove stream_id q.buffer }

  -- `for state in self._streams.values(): request._finishIncomingPayload(False)`
  unfoldable pub finish_all : Dict ℕ ℕ → Proto H → Proto H
  unfolding finish_payload
  finish_all [] p = p
  finish_all ((stream_id, r) ∷ l) p = finish_all l (finish_payload r false p)

  -- `self._api.connections.get(domain) is self`
  unfoldable pub is_connection : Text → Proto H → Dict Text ℕ → Bool
  unfolding get
  is_connection domain p connections = get domain connections == some p.ident

  unfoldable pub leave_connections : Option Text → Proto H → Dict Text ℕ → Dict Text ℕ
  unfolding is_connection remove
  leave_connections none p connections = connections
  leave_connections (some domain) p connections =
      if is_connection domain p connections then remove domain connections else connections

  -- The part of `_trigger_disconnect` after its guard, with the app's table of connections; the datagram
  -- endpoint's part, whose exceptions are caught, is left out. `events` records the event
  -- "disconnect".
  unfoldable pub end_connection : Proto H → Dict Text ℕ → Proto H × Dict Text ℕ
  unfolding finish_all leave_connections
  end_connection p connections =
      let q = finish_all p.streams (record p { disconnected = true }) in
      (
        record q { buffer = []; streams = []; events = q.events ++ q.domain ∷ [] },
        leave_connections q.domain q connections,
      )

  -- `_trigger_disconnect`
  unfoldable pub trigger_disconnect : Proto H → Dict Text ℕ → Proto H × Dict Text ℕ
  unfolding end_connection
  trigger_disconnect p connections =
      if p.disconnected then (p, connections) else end_connection p connections
