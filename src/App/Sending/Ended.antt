-- ===== src/App/Sending/Ended.antt =====
-- server/_app.py: how a stream stands after `sendRawResponse` or `sendRequest`, whatever call raises.
use gnserver.Base.{◌≡◌, ◌⊎◌, Bool, true, false, not, ◌||◌, List, [], ◌∷◌, Bytes}
use gnserver.App.Sending.{Sending, Sent, went, broke}

-- Whether a frame on the stream has the end flag.
abbrev pub has_end : List (Bytes × Bool) → Bool
has_end [] = false
has_end ((c, end_stream) ∷ l) = end_stream || has_end l

-- A stream that has not been reset, with what the code thinks of its end and what the frames say.
abbrev Stands : Bool → Bool → Sending → Type 0
Stands f e s = (s.stream_finished ≡ f) × (s.was_reset ≡ false) × (has_end s.frames ≡ e)

-- Where a call has raised, the code does not take an open stream for a finished one.
abbrev Keeps : Bool → Bool → Sent → Type 0
Keeps f e (went s) = Stands f e s
Keeps f e (broke s) =
    (s.was_reset ≡ false) × ((s.stream_finished ≡ false) ⊎ (has_end s.frames ≡ true))

-- How the stream ends. Without an error: with the end flag exactly if that was asked for, and not
-- reset. After an error: reset unless the code has taken it for finished, and never left open.
abbrev pub IsEndedAs : Bool → Sent → Type 0
IsEndedAs e (went s) = (has_end s.frames ≡ e) × (s.stream_finished ≡ e) × (s.was_reset ≡ false)
IsEndedAs e (broke s) =
    (s.was_reset ≡ not s.stream_finished) × ((has_end s.frames || s.was_reset) ≡ true)
