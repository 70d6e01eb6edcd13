-- ===== src/Lib.antt =====
-- pion/format reads and writes media containers. This development models its parts in the language of a
-- proof checker and proves what makes them correct.
--
-- Parts, and where they are modelled:
--   mpegts/crc32.go        Mpegts/Crc: crc32Table is crc32_table, crc32MPEG is crc32_mpeg.
--   mpegts/psi.go          Mpegts/Psi: psiSection, parseSectionBytes, parsePSISection, marshal, and the
--                          sectionAssembler, whose feed returns the new state and the section.
--   mpegts/pat.go, pmt.go  Mpegts/Pat and Mpegts/Pmt: both tables, inside sections.
--   mpegts/packet.go       Mpegts/Packet: packetHeader, parsed and written; mpegts/mpegts.go is there too.
--   mpegts/adaptation.go   Mpegts/Adaptation: adaptationField, encodedLen, marshalTo (marshal_field).
--   mpegts/pes.go          Mpegts/Pes and Mpegts/Pes/Timestamp: headers and 33-bit timestamps; the latter
--                          holds extendTimestamp of mpegts/reader.go as well.
--   mpegts/track.go        Mpegts/Track.
--   mpegts/h26x.go         Mpegts/Nal: forEachNAL with a callback on its own state.
--   mpegts/writer.go       Mpegts/Writer (state, NewWriter, writeSection), Mpegts/Writer/Pes (writePES),
--                          Mpegts/Writer/Units (maybeWritePSI, writeAccessUnit, WriteH264, WriteH265).
--   mpegts/reader.go       Mpegts/Payload (packetPayload), Mpegts/Reader (streams and handlePacket),
--                          Mpegts/Reader/Units (NextAccessUnit), Mpegts/Reader/Tables (NewReader).
--   rtpdump/rtpdump.go     Rtpdump: Header and Packet, Marshal and Unmarshal.
--   rtpdump/reader.go      Rtpdump/Files (NewReader, Next) and Rtpdump/Preamble (the regular expression).
--   rtpdump/writer.go      Rtpdump/Files (NewWriter, WritePacket).
--   internal/annexb        Annexb: the Reader, Next and readPrefix.
--   h264reader             H264Reader: NextNAL and the header; h265reader: H265Reader. The loop of both
--                          NextNAL is Annexb/Kept.
--   ivfreader              IvfReader: NewWith and ParseNextFrame.
--   ivfwriter              IvfWriter (options, NewWith, writeHeader, writeFrame) and IvfWriter/Codecs
--                          (writeVP8, writeVP9, writeAV1, WriteRTP and Close).
--   h264writer, h265writer NalWriter: WriteRTP and Close, which the two share; H264Writer and H265Writer: the
--                          tests for key frames.
--   oggreader              Ogg/Reader (ParseNextPage and its checksum), Ogg/OpusHead (ParseOpusHead, newWith)
--                          and Ogg/OpusTags (ParseOpusTags).
--   oggwriter              Ogg/Page (the pages of a packet), Ogg/OpusHead and Ogg/OpusTags (the headers and
--                          the checks of tags), Ogg/Channels (channel mappings), Ogg/Samples (durations),
--                          Ogg/Track (oggTrack: writePage, writeRTP, markTrackEndOfStream), Ogg/Single
--                          (OggWriter), Ogg/Options, and Ogg/Multi (Writer and Track).
-- In mpegts, a Writer turns the units of its tracks into PES packets, cuts those into transport packets,
-- and repeats its tables; a Reader learns the tracks from the tables and puts the units together again.
-- The modules below Mpegts/RoundTrip relate the two. In Ogg, a writer cuts packets into pages, and Ogg/File
-- relates its files to the reader; IvfWriter/Header, IvfWriter/Frames and IvfWriter/Files/Closed relate ivfwriter to ivfreader.
--
-- Conventions. A byte is a number, and what the code converts to a byte is taken modulo 256; int64 values are
-- integers. The methods of a pointer receiver return the new state. An io.Writer is what it has been
-- given and the faults that it will report, an io.Reader the bytes that are left and how it ends
-- (Prelude/Io). An error is a constructor of the package's Error. A nil slice is the empty list, except
-- where the code tells the two apart. Slices that the code reuses are values: each use writes them anew.
--
-- The codecs package of pion/rtp is not of this repository: its depacketizers are parameters (Depacketizers,
-- Depacketizer, and unmarshal for Opus), of which the theorems assume nothing that they do not name. Random
-- serial numbers are a list that NewTrack draws from. An Ogg output that can be sought is the stream itself,
-- as WithSeekableOutput is documented, with the faults that Seek and WriteAt will meet; its writes go to
-- the end, where Seek finds it. The map of tracks and the list of them hold the same tracks: one list.
--
-- Numbers. The lengths of slices are below 2^63, so that sums of two of them are the code's. The times of
-- mpegts are integers: int64 sums of them would wrap only within 2^34 of its end. Where the code counts on
-- uint32 or uint64, as in the length of the comment header, the wrap is written out.
--
-- Fuel. Loops over the input take the number of its bytes as fuel, since each round takes a byte at least;
-- where a theorem says so, no more rounds change the answer. The loop of parsePMT answers out_of_fuel, an
-- error that the code does not have, where it has no rounds left. The loop of writePES has one round for each
-- byte of its segments and one more, NextNAL one turn for each byte and one more, createPagesForSerial one
-- page for each byte and one more, the walk over an H.265 aggregation packet one unit for each byte and one more.
--
-- Not modelled: the creation of files by New, behind which it is NewWith; Close of mpegts.Writer, which only
-- closes what it is given; printing; nil streams; ResetReader, whose new stream comes from the caller;
-- the mutexes, which only serialise calls.
pub mod Prelude
pub mod Mpegts
pub mod Rtpdump
pub mod Annexb
pub mod H264Reader
pub mod H265Reader
pub mod IvfReader
pub mod Ogg
pub mod IvfWriter
pub mod NalWriter
pub mod H264Writer
pub mod H265Writer
