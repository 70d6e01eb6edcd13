-- ===== src/IvfWriter.antt =====
-- ivfwriter/ivfwriter.go: the header, the frames and the assembly of frames from packets.
pub mod Codecs
pub mod Frames
pub mod Header
pub mod Files
pub mod Tests
use format.Prelude.{
  ℕ, zero, suc, ◌+◌, ◌-◌, ◌*◌, ◌/◌, ◌%◌, ◌^◌, bit_and, Bool, true, false, not, ◌&&◌, ◌||◌, List, [],
  ◌∷◌, ◌++◌, ltb, ◌==◌, if◌then◌else◌, Bytes, length, take, drop, Option, none, some, Result, ok,
  err, either, ◌>>=◌, ◌>>◌,
}
use format.Prelude.Words.{byte_at, shr, equal}
use format.Prelude.Io.{IoError, fault, Sink, write, put_le_16, put_le_32, put_le_64}

pub data Error : Type 0 where
  file_not_opened codec_unset codec_already_set no_such_codec invalid_media_timebase : Error
  depacketizer : Error
  stream : IoError → Error

pub data Codec : Type 0 where
  unset vp8 vp9 av1 : Codec

-- What the code reads of the packets of the codecs package.
pub record Vp8Packet : Type 0 where
  pub payload : Bytes
  pub s : ℕ

pub record Vp9Packet : Type 0 where
  pub payload : Bytes
  pub p : Bool
  pub b : Bool

-- The depacketizers, which are not of this repository: `Unmarshal` of each, the state of the one for AV1
-- with its flag `N`, and of the obu package the temporal delimiter with a size field and the type
-- of a sequence header.
pub record Depacketizers : Type 1 where
  pub Av1 : Type 0
  pub new_av1 : Av1
  pub unmarshal_vp8 : Bytes → Option Vp8Packet
  pub unmarshal_vp9 : Bytes → Option Vp9Packet
  pub unmarshal_av1 : Av1 → Bytes → Option Bytes × Av1
  pub new_sequence : Av1 → Bool
  pub delimiter : Bytes
  pub sequence_header : ℕ

-- What the code reads of an `rtp.Packet`.
pub record Packet : Type 0 where
  pub payload : Bytes
  pub timestamp : ℕ
  pub marker : Bool

-- The output: whether it can be sought, whether that fails, and the error of its `Close`.
pub record Output : Type 0 where
  pub sink : Sink
  pub seekable : Bool
  pub seek_fails : Bool
  pub close_error : Option IoError

-- `IVFWriter`. A frame that is not begun, `nil` in the code, has no bytes.
pub record IvfWriter (Av1 : Type 0) : Type 0 where
  pub output : Output
  pub is_closed : Bool
  pub count : ℕ
  pub seen_key_frame : Bool
  pub codec : Codec
  pub timebase_denominator : ℕ
  pub timebase_numerator : ℕ
  pub first_frame_timestamp : ℕ
  pub clock_rate : ℕ
  pub video_width : ℕ
  pub video_height : ℕ
  pub direct_pts : Bool
  pub current_frame : Bytes
  pub av1_depacketizer : Option Av1

-- `WithCodec` of a MIME type, `WithWidthAndHeight`, `WithFrameRate` and `WithDirectPTS`.
pub data IvfOption : Type 0 where
  with_codec : Bytes → IvfOption
  with_width_and_height : (width height : ℕ) → IvfOption
  with_frame_rate : (numerator denominator : ℕ) → IvfOption
  with_direct_pts : IvfOption

-- "video/VP8", "video/VP9" and "video/AV1"
abbrev mime_type : (a b c : ℕ) → Bytes
mime_type a b c = 0x76 ∷ 0x69 ∷ 0x64 ∷ 0x65 ∷ 0x6F ∷ 0x2F ∷ a ∷ b ∷ c ∷ []

abbrev codec_of : Bytes → Result Error Codec
codec_of mime =
    if equal mime (mime_type 0x56 0x50 0x38)
    then ok vp8
    else if equal mime (mime_type 0x56 0x50 0x39)
    then ok vp9
    else if equal mime (mime_type 0x41 0x56 0x31)
    then ok av1
    else err no_such_codec

abbrev is_unset : Codec → Bool
is_unset unset = true
is_unset c = false

abbrev four_cc : Codec → Option Bytes
four_cc unset = none
four_cc vp8 = some (0x56 ∷ 0x50 ∷ 0x38 ∷ 0x30 ∷ [])
four_cc vp9 = some (0x56 ∷ 0x50 ∷ 0x39 ∷ 0x30 ∷ [])
four_cc av1 = some (0x41 ∷ 0x56 ∷ 0x30 ∷ 0x31 ∷ [])

abbrev pub frame_header : Bytes → ℕ → Bytes
frame_header frame pts = put_le_32 (length frame) ++ put_le_64 pts

module _ {Av1 : Type 0} where
  abbrev pub apply_option : IvfOption → IvfWriter Av1 → Result Error (IvfWriter Av1)
  apply_option (with_codec mime) w =
      if not (is_unset w.codec)
      then err codec_already_set
      else (codec_of mime >>= λ c. ok (record w { codec = c }))
  apply_option (with_width_and_height width height) w =
      ok (record w { video_width = width; video_height = height })
  apply_option (with_frame_rate numerator denominator) w =
      ok (record w { timebase_numerator = numerator; timebase_denominator = denominator })
  apply_option with_direct_pts w = ok (record w { direct_pts = true })

  abbrev pub apply_options : List IvfOption → IvfWriter Av1 → Result Error (IvfWriter Av1)
  apply_options [] w = ok w
  apply_options (o ∷ os) w = apply_option o w >>= λ w'. apply_options os w'

  -- The file header with its frame count.
  abbrev pub header_with : IvfWriter Av1 → Bytes → ℕ → Bytes
  header_with w cc count =
      0x44
      ∷ 0x4B
      ∷ 0x49
      ∷ 0x46
      ∷ (put_le_16 0
          ++ put_le_16 32
          ++ cc
          ++ put_le_16 w.video_width
          ++ put_le_16 w.video_height
          ++ put_le_32 w.timebase_denominator
          ++ put_le_32 w.timebase_numerator
          ++ put_le_32 count
          ++ put_le_32 0)

  abbrev pub write_bytes : IvfWriter Av1 → Bytes → Result Error (Unit {0}) × IvfWriter Av1
  write_bytes w p =
      let (written, sink) = write w.output.sink p in
      (
        either written (λ e. err (stream e)) (ok tt),
        record w { output = record w.output { sink = sink } },
      )

  abbrev pub write_header_with :
      IvfWriter Av1 → Option Bytes → Result Error (Unit {0}) × IvfWriter Av1
  write_header_with w none = (err codec_unset, w)
  write_header_with w (some cc) = write_bytes w (header_with w cc 900)

  -- `writeHeader`
  abbrev pub write_header : IvfWriter Av1 → Result Error (Unit {0}) × IvfWriter Av1
  write_header w = write_header_with w (four_cc w.codec)

  abbrev pub with_default : IvfWriter Av1 → IvfWriter Av1
  with_default w = record w { codec = if is_unset w.codec then vp8 else w.codec }

  abbrev pub written_header : Result Error (Unit {0}) × IvfWriter Av1 → Result Error (IvfWriter Av1)
  written_header (err e, w) = err e
  written_header (ok u, w) = ok w

  -- `NewWith`
  unfoldable pub new_with : Output → List IvfOption → Result Error (IvfWriter Av1)
  new_with out opts = do
    w ← apply_options opts (record {
      output = out;
      is_closed = false;
      count = 0;
      seen_key_frame = false;
      codec = unset;
      timebase_denominator = 30;
      timebase_numerator = 1;
      first_frame_timestamp = 0;
      clock_rate = 90000;
      video_width = 640;
      video_height = 480;
      direct_pts = false;
      current_frame = [];
      av1_depacketizer = none;
    })
    if w.timebase_denominator == 0 || w.timebase_numerator == 0
        then err invalid_media_timebase
        else written_header (write_header (with_default w))

  -- `timestampToPts`, on uint64.
  abbrev pub timestamp_to_pts : IvfWriter Av1 → ℕ → ℕ
  timestamp_to_pts w timestamp = timestamp * w.timebase_numerator % 2 ^ 64 / w.timebase_denominator

  abbrev pub pts_of : IvfWriter Av1 → ℕ → ℕ
  pts_of w timestamp = if w.direct_pts then timestamp else timestamp_to_pts w timestamp

  abbrev pub behind_header :
      Bytes → Result Error (Unit {0}) × IvfWriter Av1 → Result Error (Unit {0}) × IvfWriter Av1
  behind_header frame (err e, w) = (err e, w)
  behind_header frame (ok u, w) = write_bytes w frame

  -- `writeFrame`
  unfoldable pub write_frame : IvfWriter Av1 → Bytes → ℕ → Result Error (Unit {0}) × IvfWriter Av1
  write_frame w frame timestamp = behind_header frame (
      write_bytes (record w { count = (w.count + 1) % 2 ^ 64 })
        (frame_header frame (pts_of w timestamp)))

  -- A frame that has been written is begun anew.
  abbrev pub cleared :
      Result Error (Unit {0}) × IvfWriter Av1 → Result Error (Unit {0}) × IvfWriter Av1
  cleared (err e, w) = (err e, w)
  cleared (ok u, w) = (ok tt, record w { current_frame = [] })

  -- The end of `writeVP8` and `writeVP9`, behind their switch.
  abbrev pub add_to_frame :
      IvfWriter Av1 → Packet → Bytes → ℕ → Result Error (Unit {0}) × IvfWriter Av1
  add_to_frame w packet payload timestamp =
      let w' = record w { seen_key_frame = true; current_frame = w.current_frame ++ payload } in
      if not packet.marker || length w'.current_frame == 0
      then (ok tt, w')
      else cleared (write_frame w' w'.current_frame timestamp)
