-- ===== src/App/Sending/Received.antt =====
-- server/_app.py: what `sendRequest` sends, as `_feed_incoming_request` of the client takes it.
use gnserver.Base.{ℕ, Bool, true, false, Option, List, [], ◌∷◌, is_empty, Bytes, nat_eq}
use gnserver.Client.{feed_incoming_request}
use gnserver.App.Streams.{Proto}
use gnserver.App.Streams.Chunks.{concat}
use gnserver.App.Sending.{Sending, Sent, went, broke}

-- No call raises.
abbrev pub never : ℕ → Bool
never n = false

abbrev pub frames_of : Sent → List (Bytes × Bool)
frames_of (went s) = s.frames
frames_of (broke s) = s.frames

-- The client takes the frames in their order.
module _ {ℓ} {H : Type ℓ} (parse : Bytes → Option (H × ℕ × ℕ)) where
  unfoldable pub feed_frames : ℕ → List (Bytes × Bool) → Proto H → Proto H
  unfolding feed_incoming_request
  feed_frames stream_id [] p = p
  feed_frames stream_id ((c, end_stream) ∷ l) p =
      feed_frames stream_id l (feed_incoming_request parse stream_id c end_stream p).0

-- The frames of a whole message: only the last has the end flag.
flagged : List Bytes → List (Bytes × Bool)
flagged [] = []
flagged (c ∷ l) = (c, is_empty l) ∷ flagged l

abbrev unflagged : List Bytes → List (Bytes × Bool)
unflagged [] = []
unflagged (c ∷ l) = (c, false) ∷ unflagged l

-- The payload that a message has.
abbrev pub payload_of : Bool → List Bytes → Bytes
payload_of true chunks = concat chunks
payload_of false chunks = []
