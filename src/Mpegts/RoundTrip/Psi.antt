-- ===== src/Mpegts/RoundTrip/Psi.antt =====
-- mpegts/writer.go and mpegts/reader.go: the tables that a Writer repeats, and a Reader with streams.
use format.Prelude.{
  ℕ, ◌+◌, ◌^◌, ◌<◌, ◌≡◌, ◌≢◌, refl, sym, ap, ◌∙◌, arith, true, false, Option, none, some, List, [],
  ◌∷◌, ◌++◌, ◌⊎◌, ◌↔◌, ◌-◌, take, drop, length, length-append, length-take, replicate,
  length-replicate, append_assoc, append-nil, ◌==◌, Bool-cases, inl, inr, Bytes, concat, ok,
}
use format.Prelude.Io.{write}
use format.Prelude.Int.{ℤ, pos_part, neg_part, ◌≤ℤ◌, ◌-ℤ◌}
use format.Prelude.Words.{and_0f}
use format.Mpegts.Packet.{pid_pat, PacketHeader, parse_packet_header, marshal_header}
use format.Mpegts.Packet.RoundTrip.{parse_packet_header-marshal_header}
use format.Mpegts.Writer.{
  Writer, writer_pmt_pid, next_cc, plain_header, section_packet, write_section,
}
use format.Mpegts.Writer.Pes.Loop.{on, advance}
use format.Mpegts.Writer.Units.{psi_recent, maybe_write_psi}
use format.Mpegts.Reader.{AccessUnit, Reader, find_stream, handle_packet}
use format.Mpegts.Reader.Delivery.{handle_packets, handle_packets_step}

-- The packets `ys` after what has come out so far.
abbrev pub going_on : List AccessUnit × Reader → List Bytes → List AccessUnit × Reader
going_on out ys = (out.0 ++ (handle_packets out.1 ys).0, (handle_packets out.1 ys).1)

pub handle_packets-append :
    (r : Reader) (xs ys : List Bytes)
    → handle_packets r (xs ++ ys) ≡ going_on (handle_packets r xs) ys
unfolding handle_packets
handle_packets-append r [] ys = refl
handle_packets-append r (x ∷ xs) ys =
    ap (add (handle_packet r x).0) (handle_packets-append (handle_packet r x).1 xs ys)
    ∙ front (handle_packet r x).0 (handle_packets (handle_packet r x).1 xs)
  where
    add : Option AccessUnit → List AccessUnit × Reader → List AccessUnit × Reader
    add au out = (elim au [ none ↦ out.0 | some unit ↦ unit ∷ out.0 ], out.1)

    front :
        (au : Option AccessUnit) (out : List AccessUnit × Reader)
        → add au (going_on out ys) ≡ going_on (add au out) ys
    front none out = refl
    front (some unit) out = refl

-- A packet of a PID without a stream.
skip_section :
    (r : Reader) (pid counter : ℕ) (section : Bytes)
    → pid < 2 ^ 13
    → counter < 16
    → find_stream pid r.order ≡ none
    → handle_packet r (section_packet pid counter section) ≡ (none, r)
unfolding section_packet handle_packet
skip_section r pid counter section hp hc absent =
    rw
      (
        parse_packet_header-marshal_header (plain_header pid true counter false) _ (record {
          pid_fits = hp;
          scrambling_fits = omega arith;
          counter_fits = hc;
          carries = refl;
        }),
        handle_packet,
      )
      (rw absent refl)

write_section_lem :
    (w : Writer) (out : Bytes) (pid : ℕ) (section : Bytes)
    → write_section (on w out) pid section ≡ (
      ok tt,
      on (record w { cc = advance w.cc pid }) (out ++ section_packet pid (w.cc pid) section),
    )
unfolding write_section next_cc write
write_section_lem w out pid section = refl

abbrev pub AllSmall : (ℕ → ℕ) → Type 0
AllSmall cc = (pid : ℕ) → cc pid < 16

pub advance-AllSmall : (cc : ℕ → ℕ) (pid : ℕ) → AllSmall cc → AllSmall (advance cc pid)
advance-AllSmall cc pid h p = elim (Bool-cases (p == pid)) [
  | inl same ↦ rw (same, and_0f (cc pid + 1)) (omega arith)
  | inr differ ↦ rw differ (h p)
]

-- Tables sent at `last` are in time at `dts`: not from a later time, and less than 100 ms old, in ticks of
-- 90 kHz.
abbrev pub InTime : (last dts : ℤ) → Type 0
InTime last dts =
    (last ≤ℤ dts) × (pos_part dts + neg_part last < pos_part last + neg_part dts + 9000)

abbrev pub UpToDate : Writer → ℤ → Type 0
UpToDate w dts = (w.psi_written ≡ true) × InTime w.last_psi_dts dts

psi_recent_iff : (w : Writer) (dts : ℤ) → (psi_recent w dts ≡ true) ↔ UpToDate w dts
unfolding psi_recent ◌-ℤ◌
psi_recent_iff w dts = ground arith

-- A packet of 188 bytes that starts a section, stuffed up to its end.
pub record IsTable (pid counter : ℕ) (section pkt : Bytes) : Type 0 where
  pub header : parse_packet_header pkt ≡ ok (plain_header pid true counter false)
  pub carried : drop 4 pkt ≡ take 184 section ++ replicate (184 - length section) 0xFF
  pub size : length pkt ≡ 188

drop-marshal_header : (h : PacketHeader) (rest : Bytes) → drop 4 (marshal_header h ++ rest) ≡ rest
unfolding marshal_header
drop-marshal_header h rest = refl

length-marshal_header :
    (h : PacketHeader) (rest : Bytes) → length (marshal_header h ++ rest) ≡ 4 + length rest
unfolding marshal_header
length-marshal_header h rest = omega arith

section_packet-IsTable :
    (pid counter : ℕ) (section : Bytes)
    → pid < 2 ^ 13
    → counter < 16
    → IsTable pid counter section (section_packet pid counter section)
unfolding section_packet
section_packet-IsTable pid counter section hp hc = record {
  header =
      parse_packet_header-marshal_header (plain_header pid true counter false) _ (record {
        pid_fits = hp;
        scrambling_fits = omega arith;
        counter_fits = hc;
        carries = refl;
      });
  carried = drop-marshal_header (plain_header pid true counter false) _;
  size = omega (
    arith,
    length-marshal_header (plain_header pid true counter false)
        (take 184 section ++ replicate (184 - length section) 0xFF),
    length-append (take 184 section) (replicate (184 - length section) 0xFF),
    length-take 184 section,
    length-replicate {A = ℕ} (184 - length section) 0xFF,
  );
}

-- The two packets of a repetition, with the next counters of their PIDs.
abbrev pub AreTables : Writer → List Bytes → Type 0
AreTables w pkts =
    (pat : Bytes) × (pmt : Bytes) × (pkts ≡ pat ∷ pmt ∷ [])
    × IsTable 0 (w.cc 0) w.pat_raw pat
    × IsTable 0x1000 (w.cc 0x1000) w.pmt_raw pmt

-- What writing the tables leaves of a Writer, and of a Reader that gets them.
pub record Repeated (w : Writer) (out : Bytes) (r : Reader) (dts : ℤ) : Type 0 where
  pub writer : Writer
  pub pkts : List Bytes
  pub run : maybe_write_psi (on w out) dts ≡ (ok tt, on writer (out ++ concat pkts))
  pub sent : (UpToDate w dts × (pkts ≡ [])) ⊎ ((¬ UpToDate w dts) × AreTables w pkts)
  pub up_to_date : UpToDate writer dts
  pub small : AllSmall writer.cc
  pub others : (pid : ℕ) → pid ≢ pid_pat → pid ≢ writer_pmt_pid → writer.cc pid ≡ w.cc pid
  pub tracks : writer.tracks ≡ w.tracks
  pub clock : writer.pcr_pid ≡ w.pcr_pid
  pub passed : handle_packets r pkts ≡ ([], r)

advance_others : (cc : ℕ → ℕ) (pid p : ℕ) → p ≢ pid → advance cc pid p ≡ cc p
advance_others cc pid p ne = ground arith

module _ (w : Writer) (out : Bytes) (r : Reader) (dts : ℤ) (small : AllSmall w.cc) where
  recent : psi_recent w dts ≡ true → Repeated w out r dts
  unfolding maybe_write_psi handle_packets psi_recent
  recent is_recent = record {
    writer = w;
    pkts = [];
    run =
        rw (is_recent, maybe_write_psi)
          (ap (λ (l : Bytes). (ok tt, on w l)) (sym (append-nil out)));
    sent = inl ((psi_recent_iff w dts).0 is_recent, refl);
    up_to_date = (psi_recent_iff w dts).0 is_recent;
    small = small;
    others = λ pid a b. refl;
    tracks = refl;
    clock = refl;
    passed = refl;
  }

  written_due :
      psi_recent w dts ≡ false
      → let cc1 = advance w.cc pid_pat in
        let last = record w {
          cc = advance cc1 writer_pmt_pid;
          psi_written = true;
          last_psi_dts = dts;
        } in
        maybe_write_psi (on w out) dts ≡ (
          ok tt,
          on last (
              out
              ++ concat (
                  section_packet pid_pat (w.cc pid_pat) w.pat_raw
                  ∷ section_packet writer_pmt_pid (cc1 writer_pmt_pid) w.pmt_raw
                  ∷ [])),
        )
  unfolding maybe_write_psi psi_recent write_section next_cc write
  written_due is_due =
      let cc1 : ℕ → ℕ = advance w.cc pid_pat in
      let last : Writer = record w {
        cc = advance cc1 writer_pmt_pid;
        psi_written = true;
        last_psi_dts = dts;
      } in
      let pat_packet : Bytes = section_packet pid_pat (w.cc pid_pat) w.pat_raw in
      let pmt_packet : Bytes = section_packet writer_pmt_pid (cc1 writer_pmt_pid) w.pmt_raw in
      rw (is_due, maybe_write_psi)
        (ap (λ (l : Bytes). (ok tt, on last l))
          (append_assoc out pat_packet pmt_packet
            ∙ ap (λ (l : Bytes). out ++ (pat_packet ++ l)) (sym (append-nil pmt_packet))))

  due :
      psi_recent w dts ≡ false
      → find_stream pid_pat r.order ≡ none
      → find_stream writer_pmt_pid r.order ≡ none
      → Repeated w out r dts
  unfolding handle_packets
  due is_due no_pat no_pmt =
      let cc1 : ℕ → ℕ = advance w.cc pid_pat in
      let cc2 : ℕ → ℕ = advance cc1 writer_pmt_pid in
      let small1 : AllSmall cc1 = advance-AllSmall w.cc pid_pat small in
      let pat_packet : Bytes = section_packet pid_pat (w.cc pid_pat) w.pat_raw in
      let pmt_packet : Bytes = section_packet writer_pmt_pid (cc1 writer_pmt_pid) w.pmt_raw in
      record {
        writer = record w { cc = cc2; psi_written = true; last_psi_dts = dts };
        pkts = pat_packet ∷ pmt_packet ∷ [];
        run = written_due is_due;
        sent = inr (
          λ up. absurd (cc (sym is_due ∙ (psi_recent_iff w dts).1 up)),
          (
            pat_packet,
            pmt_packet,
            refl,
            section_packet-IsTable pid_pat (w.cc pid_pat) w.pat_raw (omega arith) (small pid_pat),
            section_packet-IsTable writer_pmt_pid (w.cc writer_pmt_pid) w.pmt_raw (omega arith)
                (small writer_pmt_pid),
          ),
        );
        up_to_date = (refl, (omega arith, omega arith));
        small = advance-AllSmall cc1 writer_pmt_pid small1;
        others =
            λ pid a b. advance_others cc1 writer_pmt_pid pid b ∙ advance_others w.cc pid_pat pid a;
        tracks = refl;
        clock = refl;
        passed =
            handle_packets_step r r pat_packet (pmt_packet ∷ [])
              (skip_section r pid_pat (w.cc pid_pat) w.pat_raw (omega arith) (small pid_pat) no_pat)
            ∙ handle_packets_step r r pmt_packet [] (
                skip_section r writer_pmt_pid (cc1 writer_pmt_pid) w.pmt_raw (omega arith)
                  (small1 writer_pmt_pid) no_pmt);
      }

  pub maybe_write_psi_lem :
      find_stream pid_pat r.order ≡ none
      → find_stream writer_pmt_pid r.order ≡ none
      → Repeated w out r dts
  maybe_write_psi_lem no_pat no_pmt = elim (Bool-cases (psi_recent w dts)) [
    | inl is_recent ↦ recent is_recent
    | inr is_due ↦ due is_due no_pat no_pmt
  ]
