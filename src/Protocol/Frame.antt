-- ===== src/Protocol/Frame.antt =====
-- src/protocol.rs: `write_frame` and `read_frame`, over `serde_json` and over the bytes of a
-- connection.
use niri_bridge.Prelude.{
  ◌>>◌, ◌>>=◌, ltb, leb, if◌then◌else◌, length, take, drop, Result, ok, err, ensure, and_then, ℕ,
  ◌+◌, ◌*◌, ◌/◌, ◌%◌, String, ◌&&◌, List, [], ◌∷◌, ◌++◌,
}
use niri_bridge.Float.{Float}
use niri_bridge.Protocol.Message as Message
use niri_bridge.Protocol.Message.{Message, validate}

-- `serde_json::to_vec` and `serde_json::from_slice` on messages.
pub record Codec (F : Type 0) : Type 0 where
  pub to_vec : Message F → Result (List ℕ)
  pub from_slice : List ℕ → Result (Message F)

-- MAX_FRAME_BYTES
abbrev pub max_frame_bytes : ℕ
max_frame_bytes = 65536

-- `(n as u32).to_be_bytes()`
abbrev pub be_bytes : ℕ → List ℕ
be_bytes n = n / 16777216 % 256 ∷ n / 65536 % 256 ∷ n / 256 % 256 ∷ n % 256 ∷ []

-- `read_u32`, with what is left of the stream; a failed read leaves what it did not take.
abbrev pub read_u32 : List ℕ → Result ℕ × List ℕ
read_u32 (a ∷ b ∷ c ∷ d ∷ rest) = (ok (a * 16777216 + b * 65536 + c * 256 + d), rest)
read_u32 _ = (err "early eof", [])

-- `read_exact` of a number of bytes.
abbrev pub read_exact : ℕ → List ℕ → Result (List ℕ) × List ℕ
read_exact n stream =
    if leb n (length stream) then (ok (take n stream), drop n stream) else (err "early eof", [])

-- `map_err(|_| message)`
abbrev pub map_err {ℓ} : {A : Type ℓ} → Result A → String → Result A
map_err (ok a) message = ok a
map_err (err e) message = err message

module _ {F : Type 0} ⦃fl : Float F⦄ (codec : Codec F) where
  -- The bytes that `write_frame` gives to the writer; the writer's own failures are not these.
  unfoldable pub frame_of : Message F → Result (List ℕ)
  frame_of message = do
    Message.validate message
    bytes ← codec.to_vec message
    ensure (leb (length bytes) max_frame_bytes) "Protocol frame too large"
    ok (be_bytes (length bytes) ++ bytes)

  -- `read_frame` after the bytes of the body are there.
  unfoldable pub parse_body : List ℕ → Result (Message F)
  parse_body bytes = do
    message ← map_err (codec.from_slice bytes) "Invalid protocol frame"
    Message.validate message
    ok message

  -- The rest of `read_frame` after the header.
  unfoldable pub read_body : ℕ → List ℕ → Result (Message F) × List ℕ
  unfolding parse_body
  read_body n stream =
      if ltb 0 n && leb n max_frame_bytes
      then (and_then (read_exact n stream) (λ bytes rest. (parse_body bytes, rest)))
      else (err "Invalid protocol frame length", stream)

  unfoldable pub read_frame : List ℕ → Result (Message F) × List ℕ
  unfolding read_body
  read_frame stream = and_then (read_u32 stream) read_body
