-- ===== src/Mpegts/RoundTrip/Sequence.antt =====
-- mpegts/writer.go and mpegts/reader.go: the units of one track, one after the other.
use format.Prelude.{
  ℕ, ◌+◌, ◌/◌, ◌<◌, ◌≡◌, refl, sym, ap, ◌∙◌, arith, Option, some, List, [], ◌∷◌, ◌++◌, append_assoc,
  append-nil, Bytes, length, concat, length-append, concat-append, map, All, ok, Result,
}
use format.Prelude.Int.{ℤ, pos, negsuc}
use format.Mpegts.Errors.{Error}
use format.Mpegts.Pes.Timestamp.{masked, timestamp_wrap, extend_timestamp}
use format.Mpegts.Pes.Timestamp.Nearest.{extend_timestamp-masked}
use format.Mpegts.Track.{Track}
use format.Mpegts.Writer.{Writer}
use format.Mpegts.Writer.Pes.Loop.{on}
use format.Mpegts.Writer.Units.{◌then_do◌}
use format.Mpegts.Reader.{AccessUnit, EsStream, Reader, finish, find_stream}
use format.Mpegts.Reader.Delivery.{handle_packets}
use format.Mpegts.Reader.Delivered.{begun, at_most_one}
use format.Mpegts.RoundTrip.Psi.{going_on, handle_packets-append}
use format.Mpegts.RoundTrip.Unit.{
  Access, InStep, IsAccess, some_bytes, IsElementary, Sent, write_access, write_access-Sent,
}

-- `WriteH264` or `WriteH265` once for each unit, up to the first error.
unfoldable pub write_accesses : Writer → Track → List Access → Result Error (Unit {0}) × Writer
write_accesses w track [] = (ok tt, w)
write_accesses w track (a ∷ rest) =
    write_access w track a then_do (λ w'. write_accesses w' track rest)

-- A time that a Reader recovers whose last one is `last`: within half of a wrap, or the first.
abbrev pub Near : ℤ → ℕ → Type 0
Near (negsuc r) d = d < timestamp_wrap
Near (pos r) d = (d < r + timestamp_wrap / 2) × (r < d + timestamp_wrap / 2)

extend_timestamp-Near :
    (last : ℤ) (d : ℕ) → Near last d → extend_timestamp last (masked (pos d)) ≡ pos d
unfolding extend_timestamp masked
extend_timestamp-Near (negsuc r) d h = ap pos (omega arith)
extend_timestamp-Near (pos r) d (after, before) = extend_timestamp-masked r d after before

pub record IsTimed (last : ℤ) (a : Access) : Type 0 where
  pub pts_at : ℕ
  pub dts_at : ℕ
  pub pts_is : a.pts ≡ pos pts_at
  pub dts_is : a.dts ≡ pos dts_at
  pub decoded : Near last dts_at
  pub shown : Near (pos dts_at) pts_at

-- Each unit is near to the one before.
abbrev pub AllTimed : ℤ → List Access → Type 0
AllTimed last [] = Unit {0}
AllTimed last (a ∷ rest) = IsTimed last a × AllTimed a.dts rest

-- The unit that the Reader is to give out.
abbrev pub unit_of : Track → Access → AccessUnit
unit_of track a = record {
  track = track;
  pts = a.pts;
  dts = a.dts;
  random_access = a.random_access;
  bytes = a.aud ++ a.access_unit;
}

dts_recovered :
    (last : ℤ) (a : Access) → IsTimed last a → extend_timestamp last (masked a.dts) ≡ a.dts
dts_recovered last a t = rw t.dts_is (extend_timestamp-Near last t.dts_at t.decoded)

pts_recovered :
    (last : ℤ) (a : Access) → IsTimed last a → extend_timestamp a.dts (masked a.pts) ≡ a.pts
pts_recovered last a t =
    rw (t.dts_is, t.pts_is) (extend_timestamp-Near (pos t.dts_at) t.pts_at t.shown)

-- The end of a unit gives it out whole.
finish-begun :
    (track : Track) (s : EsStream) (a : Access) (cc max : ℕ)
    → s.track ≡ track
    → IsAccess max a
    → IsTimed s.last_ts a
    → (finish (begun s a.pts a.dts a.random_access cc (a.aud ++ a.access_unit))).0
      ≡ some (unit_of track a)
unfolding finish
finish-begun track s a cc max tracked ok_unit t =
    rw
      (
        some_bytes (length (a.aud ++ a.access_unit))
            (omega (arith, ok_unit.nonempty, length-append a.aud a.access_unit)),
        dts_recovered s.last_ts a t,
        pts_recovered s.last_ts a t,
        tracked,
      )
      refl

-- What is left when the units have been written, and read.
pub record AllSent (w : Writer) (out : Bytes) (r : Reader) (track : Track) (s : EsStream)
    (accesses : List Access) : Type 0 where
  pub writer : Writer
  pub pkts : List Bytes
  pub units : List AccessUnit
  pub reader : Reader
  pub last : EsStream
  pub run : write_accesses (on w out) track accesses ≡ (ok tt, on writer (out ++ concat pkts))
  pub read : handle_packets r pkts ≡ (units, reader)
  pub held : find_stream track.pid reader.order ≡ some last
  pub whole :
      units ++ at_most_one (finish last).0
      ≡ at_most_one (finish s).0 ++ map (unit_of track) accesses

-- What a Writer writes for the access units of one of its tracks, tables included, a Reader gives out.
-- The destination takes every packet, and writing ends without an error. The PID of the track is one of
-- 13 bits that no table uses; the counters of the Writer are below 16; the Reader has a stream for the
-- track and none for the PIDs of the tables, and the stream waits for the counter that the Writer is at,
-- or has seen no packet yet; each unit is not empty, fits in the Reader's bound with its delimiter, and
-- has times from 0 on, the decoding time below 2^33 and each time within half of a wrap of the one it is
-- extended from. Then the units that the Reader's handling of the packets has given out, with the one
-- that its stream still holds, are those that it held before, followed by the units written, in order,
-- each with its bytes behind its delimiter, its PTS, its DTS and its random access flag.
pub write_accesses-handle_packets :
    (w : Writer) (out : Bytes) (r : Reader) (track : Track) (s : EsStream) (accesses : List Access)
    → IsElementary track.pid
    → InStep w r track s
    → All (IsAccess r.max_au_size) accesses
    → AllTimed s.last_ts accesses
    → AllSent w out r track s accesses
unfolding write_accesses handle_packets
write_accesses-handle_packets w out r track s [] e sync ok_units timed = record {
  writer = w;
  pkts = [];
  units = [];
  reader = r;
  last = s;
  run = ap (λ (l : Bytes). (ok tt, on w l)) (sym (append-nil out));
  read = refl;
  held = sync.found;
  whole = sym (append-nil (at_most_one (finish s).0));
}
write_accesses-handle_packets w out r track s (a ∷ rest) e sync (ok_unit, ok_units) (t, timed) =
    let sent : Sent w out r track s a = write_access-Sent w out r track s a e sync ok_unit in
    let unit : Bytes = a.aud ++ a.access_unit in
    let s' : EsStream = begun s a.pts a.dts a.random_access sent.counter unit in
    let r' : Reader = record r { order = sent.order } in
    let now : s'.last_ts ≡ a.dts = dts_recovered s.last_ts a t in
    let more : AllSent sent.writer (out ++ concat sent.pkts) r' track s' rest =
      write_accesses-handle_packets sent.writer (out ++ concat sent.pkts) r' track s' rest e
        sent.in_step ok_units (rw now timed) in
    let ended = finish-begun track s a sent.counter r.max_au_size sync.tracked ok_unit t in
    record {
      writer = more.writer;
      pkts = sent.pkts ++ more.pkts;
      units = at_most_one (finish s).0 ++ more.units;
      reader = more.reader;
      last = more.last;
      run =
          ap
            (λ (m : Result Error (Unit {0}) × Writer).
              m then_do (λ w'. write_accesses w' track rest))
            sent.run
          ∙ more.run
          ∙ ap (λ (l : Bytes). (ok tt, on more.writer l))
              (append_assoc out (concat sent.pkts) (concat more.pkts)
                ∙ ap (◌++◌ out) (sym (concat-append sent.pkts more.pkts)));
      read =
          handle_packets-append r sent.pkts more.pkts
          ∙ ap (λ (o : List AccessUnit × Reader). going_on o more.pkts) sent.read
          ∙ ap (λ (o : List AccessUnit × Reader). (at_most_one (finish s).0 ++ o.0, o.1)) more.read;
      held = more.held;
      whole =
          append_assoc (at_most_one (finish s).0) more.units (at_most_one (finish more.last).0)
          ∙ ap (◌++◌ (at_most_one (finish s).0)) (
              more.whole
              ∙ ap (λ (au : Option AccessUnit). at_most_one au ++ map (unit_of track) rest) ended);
    }
