-- ===== src/Mpegts/Payload.antt =====
-- mpegts/reader.go, `packetPayload`: what a packet carries behind its header and adaptation field.
use format.Prelude.{
  ℕ, ◌+◌, not, ◌||◌, Option, none, some, leb, if◌then◌else◌, Bytes, length, drop, Result, ok, ◌>>=◌,
}
use format.Mpegts.Packet.{PacketHeader}
use format.Mpegts.Adaptation.{AdaptationField, no_field, parse_adaptation_field}
use format.Mpegts.Errors.{Error}

abbrev payload_from : Bytes → PacketHeader → AdaptationField → ℕ → Option Bytes × AdaptationField
payload_from pkt hdr af off =
    if not hdr.has_payload || leb (length pkt) off then (none, af) else (some (drop off pkt), af)

-- `none` is the nil payload, which is not the empty one.
unfoldable pub packet_payload : Bytes → PacketHeader → Result Error (Option Bytes × AdaptationField)
packet_payload pkt hdr =
    if hdr.has_adaptation_field
    then (do (af, n) ← parse_adaptation_field (drop 4 pkt); ok (payload_from pkt hdr af (4 + n)))
    else ok (payload_from pkt hdr no_field 4)
