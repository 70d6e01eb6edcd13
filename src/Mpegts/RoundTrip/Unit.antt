-- ===== src/Mpegts/RoundTrip/Unit.antt =====
-- mpegts/writer.go and mpegts/reader.go: one access unit, from `writeAccessUnit` to a Reader.
use format.Prelude.{
  ℕ, ◌+◌, ◌%◌, ◌^◌, ◌<◌, ◌≤◌, ◌≡◌, ◌≢◌, refl, sym, ap, ◌∙◌, arith, Bool, true, false, ◌⊎◌, ◌&&◌,
  none, some, List, [], ◌∷◌, ◌++◌, append_assoc, append-nil, ◌==◌, ==_iff, if◌then◌else◌,
  Bool-cases, inl, inr, Bytes, length, concat, length-append, concat-append, ok, Result,
}
use format.Prelude.Int.{ℤ, pos_part, ◌-ℤ◌}
use format.Mpegts.Errors.{Error}
use format.Mpegts.Packet.{pid_pat}
use format.Mpegts.Adaptation.RoundTrip.{IsPcr}
use format.Mpegts.Pes.{append_pes_header}
use format.Mpegts.Track.{Codec, unknown, h264, h265, Track, codec_eq}
use format.Mpegts.Writer.{Writer, by_pid, writer_pmt_pid}
use format.Mpegts.Writer.Pes.{PesJob, write_pes}
use format.Mpegts.Writer.Pes.Carried.{Carried}
use format.Mpegts.Writer.Pes.Loop.{on, write_pes_lem}
use format.Mpegts.Writer.Units.{
  segments, stream_id_video, job_of, pcr_value, maybe_write_psi, write_access_unit, ◌then_do◌,
}
use format.Mpegts.Reader.{AccessUnit, EsStream, Reader, finish, find_stream}
use format.Mpegts.Reader.Delivery.{handle_packets}
use format.Mpegts.Reader.Delivered.{begun, at_most_one, unit_collected}
use format.Mpegts.RoundTrip.Psi.{
  AllSmall, Repeated, maybe_write_psi_lem, going_on, handle_packets-append,
}

pub record Access : Type 0 where
  pub pts : ℤ
  pub dts : ℤ
  pub aud : Bytes
  pub access_unit : Bytes
  pub random_access : Bool

-- What a Writer and a Reader's stream have to agree on between two units.
pub record InStep (w : Writer) (r : Reader) (track : Track) (s : EsStream) : Type 0 where
  pub small : AllSmall w.cc
  pub known : by_pid track.pid w.tracks ≡ some track
  pub found : find_stream track.pid r.order ≡ some s
  pub tracked : s.track ≡ track
  pub follows : (s.has_cc ≡ false) ⊎ (w.cc track.pid ≡ (s.cc + 1) % 16)
  pub no_pat : find_stream pid_pat r.order ≡ none
  pub no_pmt : find_stream writer_pmt_pid r.order ≡ none

-- The bounds on a unit.
pub record IsAccess (max : ℕ) (a : Access) : Type 0 where
  pub nonempty : 0 < length a.access_unit
  pub fits : length a.aud + length a.access_unit ≤ max
  pub in_time : pos_part a.dts < 2 ^ 33

pcr_value-IsPcr : (dts : ℤ) → pos_part dts < 2 ^ 33 → IsPcr (pcr_value dts)
unfolding pcr_value ◌-ℤ◌
pcr_value-IsPcr dts h = ground arith

and_true : (b : Bool) → (b && true) ≡ b
and_true b = ground arith

pub some_bytes : (n : ℕ) → 0 < n → (n == 0) ≡ false
some_bytes n pos = ground arith

concat-segments :
    (pts dts : ℤ) (aud access_unit : Bytes)
    → concat (segments pts dts aud access_unit)
      ≡ append_pes_header [] stream_id_video pts dts ++ (aud ++ access_unit)
concat-segments pts dts aud access_unit =
    ap (λ (l : Bytes). append_pes_header [] stream_id_video pts dts ++ l) (behind aud)
  where
    behind :
        (aud : Bytes)
        → concat (if length aud == 0 then access_unit ∷ [] else aud ∷ access_unit ∷ [])
          ≡ aud ++ access_unit
    behind [] = append-nil access_unit
    behind (x ∷ aud) =
        rw (some_bytes (length (x ∷ aud)) (omega arith))
          (ap (◌++◌ (x ∷ aud)) (append-nil access_unit))

codec_eq_refl : (c : Codec) → codec_eq c c ≡ true
codec_eq_refl unknown = refl
codec_eq_refl h264 = refl
codec_eq_refl h265 = refl

abbrev pub write_access : Writer → Track → Access → Result Error (Unit {0}) × Writer
write_access w track a =
    write_access_unit w track.pid track.codec a.pts a.dts a.aud a.access_unit a.random_access

-- A unit of a track of the Writer, behind its guards.
write_access-guarded :
    (w : Writer) (track : Track) (a : Access)
    → by_pid track.pid w.tracks ≡ some track
    → 0 < length a.access_unit
    → write_access w track a ≡ (
        maybe_write_psi w a.dts then_do (λ w'.
          write_pes
            (job_of w' track.pid a.random_access a.dts)
            (segments a.pts a.dts a.aud a.access_unit)
            w'))
unfolding write_access_unit
write_access-guarded w track a known pos =
    rw (known, write_access_unit)
      (rw (codec_eq_refl track.codec) (rw (some_bytes (length a.access_unit) pos) refl))

-- What is left when a unit has been written, and read.
pub record Sent (w : Writer) (out : Bytes) (r : Reader) (track : Track) (s : EsStream) (a : Access)
    : Type 0 where
  pub writer : Writer
  pub pkts : List Bytes
  pub counter : ℕ
  pub order : List EsStream
  pub run : write_access (on w out) track a ≡ (ok tt, on writer (out ++ concat pkts))
  pub read : handle_packets r pkts ≡ (at_most_one (finish s).0, record r { order = order })
  pub in_step :
      InStep writer
        (record r { order = order })
        track
        (begun s a.pts a.dts a.random_access counter (a.aud ++ a.access_unit))

-- Both PIDs of the tables are none of the tracks'.
abbrev pub IsElementary : ℕ → Type 0
IsElementary pid = (pid < 2 ^ 13) × (pid ≢ pid_pat) × (pid ≢ writer_pmt_pid)

differs : (q pid : ℕ) → q ≡ pid → (q == pid) ≡ false → ⊥
differs q pid e differ = ground arith

counters-AllSmall :
    (pid n : ℕ) (cc cc' : ℕ → ℕ)
    → AllSmall cc
    → cc' pid ≡ n % 16
    → ((q : ℕ) → q ≢ pid → cc' q ≡ cc q)
    → AllSmall cc'
counters-AllSmall pid n cc cc' small moved others q = elim (Bool-cases (q == pid)) [
  | inl same ↦ omega (arith, moved, ap cc' ((==_iff q pid).0 same))
  | inr differ ↦ omega (arith, small q, others q (λ e. differs q pid e differ))
]

-- One access unit, under the same conditions but without any on the PTS, and none on the DTS but that it
-- is below 2^33: `writeAccessUnit` succeeds; the packets that it writes, the tables that are due in
-- front, make the Reader give out the unit that its stream held, and nothing else; the stream then holds
-- the new unit's bytes, behind its delimiter, with the times that the Reader extends from its last one;
-- and Writer and Reader are in step for the next unit.
pub write_access-Sent :
    (w : Writer) (out : Bytes) (r : Reader) (track : Track) (s : EsStream) (a : Access)
    → IsElementary track.pid
    → InStep w r track s
    → IsAccess r.max_au_size a
    → Sent w out r track s a
write_access-Sent w out r track s a (fits_pid, not_pat, not_pmt) sync ok_unit =
    let psi : Repeated w out r a.dts =
      maybe_write_psi_lem w out r a.dts sync.small sync.no_pat sync.no_pmt in
    let job : PesJob = job_of psi.writer track.pid a.random_access a.dts in
    let unit : Bytes = a.aud ++ a.access_unit in
    let h : Bytes = append_pes_header [] stream_id_video a.pts a.dts in
    let segs : List Bytes = segments a.pts a.dts a.aud a.access_unit in
    let whole : concat segs ≡ h ++ unit = concat-segments a.pts a.dts a.aud a.access_unit in
    let size : length (concat segs) ≡ length h + (length a.aud + length a.access_unit) =
      ap (λ (l : Bytes). length l) whole
      ∙ (length-append h unit ∙ ap (λ (n : ℕ). length h + n) (length-append a.aud a.access_unit)) in
    let w' : Writer = psi.writer in
    let (cc, pkts, run, written) =
      write_pes_lem job fits_pid (clock (track.pid == w'.pcr_pid)) segs w' (out ++ concat psi.pkts)
        (psi.small track.pid) (omega (arith, size, ok_unit.nonempty)) in
    let carried : Carried job true (w'.cc track.pid) (h ++ unit) pkts =
      rw whole at written.carried in
    let unit_size : length unit ≤ r.max_au_size =
      omega (arith, ok_unit.fits, length-append a.aud a.access_unit) in
    let kept : w'.cc track.pid ≡ w.cc track.pid = psi.others track.pid not_pat not_pmt in
    let (counter, order, below, moved, others, read, found) =
      unit_collected job r s stream_id_video a.pts a.dts unit carried sync.found
        (ap (λ (t : Track). t.pid) sync.tracked) (psi.small track.pid) (rw kept sync.follows)
        unit_size in
    record {
      writer = record w' { cc = cc };
      pkts = psi.pkts ++ pkts;
      counter = counter;
      order = order;
      run =
          write_access-guarded (on w out) track a sync.known ok_unit.nonempty
          ∙ ap
              (λ (m : Result Error (Unit {0}) × Writer).
                m then_do (λ v. write_pes (job_of v track.pid a.random_access a.dts) segs v))
              psi.run
          ∙ run
          ∙ ap (λ (l : Bytes). (ok tt, on (record w' { cc = cc }) l))
              (append_assoc out (concat psi.pkts) (concat pkts)
                ∙ ap (◌++◌ out) (sym (concat-append psi.pkts pkts)));
      read =
          handle_packets-append r psi.pkts pkts
          ∙ ap (λ (o : List AccessUnit × Reader). going_on o pkts) psi.passed
          ∙ read;
      in_step = record {
        small = counters-AllSmall track.pid _ w'.cc cc psi.small written.counter_is written.others;
        known = ap (by_pid track.pid) psi.tracks ∙ sync.known;
        found = rw (and_true a.random_access) at found;
        tracked = sync.tracked;
        follows = inr (written.counter_is ∙ sym moved);
        no_pat = others pid_pat (λ e. not_pat (sym e)) ∙ sync.no_pat;
        no_pmt = others writer_pmt_pid (λ e. not_pmt (sym e)) ∙ sync.no_pmt;
      };
    }
  where
    clock : (mine : Bool) → IsPcr (if mine then pcr_value a.dts else 0)
    clock true = pcr_value-IsPcr a.dts ok_unit.in_time
    clock false = omega arith
