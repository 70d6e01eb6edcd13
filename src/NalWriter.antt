-- ===== src/NalWriter.antt =====
-- h264writer/h264writer.go and h265writer/h265writer.go: `WriteRTP` and `Close`, which the two have in
-- common but for the test for key frames, a parameter here.
pub mod Gate
pub mod Tests
use format.Prelude.{
  ℕ, Bool, true, false, not, ◌&&◌, List, [], ◌∷◌, ◌==◌, if◌then◌else◌, Bytes, length, Option, none,
  some, Result, ok, err, either,
}
use format.Prelude.Io.{IoError, Sink, write}

pub data Error : Type 0 where
  depacketizer : Error
  stream : IoError → Error

-- `codecs.H264Packet` or `codecs.H265Depacketizer`, which are not of this repository: its state and its
-- `Unmarshal`.
pub record Depacketizer : Type 1 where
  pub State : Type 0
  pub fresh : State
  pub unmarshal : State → Bytes → Option Bytes × State

-- The writer, with the error that closing the output gives.
pub record NalWriter (State : Type 0) : Type 0 where
  pub sink : Sink
  pub close_error : Option IoError
  pub has_key_frame : Bool
  pub cached_packet : Option State

module _ (d : Depacketizer) where
  abbrev pub W : Type 0
  W = NalWriter d.State

  -- `NewWith`
  abbrev pub new_with : Sink → Option IoError → W
  new_with sink close_error = record {
    sink = sink;
    close_error = close_error;
    has_key_frame = false;
    cached_packet = none;
  }

  abbrev pub state_of : Option d.State → d.State
  state_of none = d.fresh
  state_of (some s) = s

  -- `WriteRTP` behind `Unmarshal`.
  abbrev pub write_data : W → Option Bytes → Result Error (Unit {0}) × W
  write_data w none = (err depacketizer, w)
  write_data w (some bytes) =
      let (written, sink) = write w.sink bytes in
      if length bytes == 0
      then (ok tt, w)
      else (either written (λ e. err (stream e)) (ok tt), record w { sink = sink })

  -- `WriteRTP` behind the test of key frames.
  abbrev pub write_payload : W → Bytes → Result Error (Unit {0}) × W
  write_payload w payload =
      let (out, state) = d.unmarshal (state_of w.cached_packet) payload in
      write_data (record w { has_key_frame = true; cached_packet = some state }) out

  -- `WriteRTP` of a packet with the payload.
  unfoldable pub write_rtp : (Bytes → Bool) → W → Bytes → Result Error (Unit {0}) × W
  write_rtp is_key_frame w payload =
      if length payload == 0
      then (ok tt, w)
      else if not w.has_key_frame && not (is_key_frame payload)
      then (ok tt, w)
      else write_payload w payload

  -- `Close`
  abbrev pub close : W → Option IoError × W
  close w = (w.close_error, record w { cached_packet = none })
