-- ===== src/Mpegts/Reader/Delivered.antt =====
-- mpegts/reader.go: a Reader on the packets of a whole access unit.
use format.Prelude.{
  ℕ, ◌+◌, ◌%◌, ◌<◌, ◌≤◌, ◌≡◌, ◌≢◌, refl, sym, ap, ◌∙◌, arith, Bool, true, false, not, ◌⊎◌, ◌&&◌,
  ◌||◌, Option, none, some, List, [], ◌∷◌, ◌++◌, bit_and, ◌==◌, if◌then◌else◌, Bool-cases, inl, inr,
  Bytes, length, drop, take, take-append, take-append_le, take-append-drop, drop-append,
  length-append,
}
use format.Prelude.Int.{ℤ}
use format.Prelude.Words.{and_0f}
use format.Mpegts.Pes.{PesHeader, append_pes_header}
use format.Mpegts.Pes.Timestamp.{masked, extend_timestamp}
use format.Mpegts.Pes.RoundTrip.{
  visible, length-append_pes_header, parse_pes_header-append_pes_header,
}
use format.Mpegts.Writer.{plain_header}
use format.Mpegts.Writer.Pes.{PesJob}
use format.Mpegts.Writer.Pes.Copy.{drop-append_le}
use format.Mpegts.Writer.Pes.Carried.{PacketOf, Carried, next}
use format.Mpegts.Reader.{
  AccessUnit, EsStream, Reader, finish, start_unit, begin_unit, accept_packet, handle_es,
  find_stream, handle_packet,
}
use format.Mpegts.Reader.Streams.{find_stream-update_stream, find_stream-update_stream_other}
use format.Mpegts.Reader.Delivery.{
  handle_packets, with_stream, handle_packet-Carries, handle_packets_more,
}

-- Two ways to cut one list, where the first cut comes no earlier.
cut_later :
    (xs ys h d : Bytes)
    → xs ++ ys ≡ h ++ d
    → length h ≤ length xs
    → (xs ≡ h ++ drop (length h) xs) × (drop (length h) xs ++ ys ≡ d)
cut_later xs ys h d e le =
    let front : take (length h) xs ≡ h =
      sym (take-append_le (length h) xs ys le)
      ∙ ap (take (length h)) e
      ∙ take-append (length h) h d refl in
    (
      sym (rw front at (take-append-drop (length h) xs)),
      sym (drop-append_le (length h) xs ys le)
          ∙ ap (drop (length h)) e
          ∙ drop-append (length h) h d refl,
    )

-- The stream once a unit has begun with the timestamps `pts` and `dts`.
abbrev pub begun : EsStream → ℤ → ℤ → Bool → ℕ → Bytes → EsStream
begun s pts dts rai counter buf =
    let d = extend_timestamp s.last_ts (masked dts) in
    record s {
      last_ts = d;
      pts = extend_timestamp d (masked pts);
      dts = d;
      rai = rai;
      buf = buf;
      collecting = true;
      cc = counter;
      has_cc = true;
    }

decode_time :
    (stream_id : ℕ) (pts dts : ℤ)
    → let hdr = visible stream_id pts dts in (if hdr.has_dts then hdr.dts else hdr.pts) ≡ masked dts
decode_time stream_id pts dts = ground arith

begin_unit-visible :
    (s : EsStream) (stream_id : ℕ) (pts dts : ℤ) (rai : Bool) (rest : Bytes)
    → s.has_cc ≡ true
    → begin_unit s rai (append_pes_header [] stream_id pts dts ++ rest) (visible stream_id pts dts)
      ≡ begun s pts dts rai s.cc rest
begin_unit-visible s stream_id pts dts rai rest known =
    let hdr : PesHeader = visible stream_id pts dts in
    let h : Bytes = append_pes_header [] stream_id pts dts in
    let cut : drop hdr.header_length (h ++ rest) ≡ rest =
      drop-append hdr.header_length h rest (sym (length-append_pes_header stream_id pts dts)) in
    rw (decode_time stream_id pts dts, cut, known)

start_unit-append_pes_header :
    (s : EsStream) (stream_id : ℕ) (pts dts : ℤ) (rai : Bool) (rest : Bytes)
    → s.has_cc ≡ true
    → start_unit s rai (append_pes_header [] stream_id pts dts ++ rest)
      ≡ begun s pts dts rai s.cc rest
unfolding start_unit
start_unit-append_pes_header s stream_id pts dts rai rest known =
    rw (parse_pes_header-append_pes_header stream_id pts dts rest, start_unit)
      (begin_unit-visible s stream_id pts dts rai rest known)

-- `finish` and then a start give the same stream whether there was a unit to finish or not.
accept_start :
    (max : ℕ) (s : EsStream) (pid counter : ℕ) (field rai : Bool) (stream_id : ℕ) (pts dts : ℤ)
    (rest : Bytes)
    → accept_packet max s
        (plain_header pid true counter field)
        rai
        (append_pes_header [] stream_id pts dts ++ rest)
      ≡ ((finish s).0, begun s pts dts rai counter rest)
unfolding accept_packet finish
accept_start max s pid counter field rai stream_id pts dts rest =
    elim (Bool-cases (not s.collecting || length s.buf == 0)) [
      | inl nothing ↦ rw nothing (
          ap (λ (x : EsStream). (none, x))
            (start_unit-append_pes_header
              (record s { cc = counter; has_cc = true; collecting = false }) stream_id pts dts rai
              rest refl))
      | inr some_unit ↦ rw some_unit (
          ap (λ (x : EsStream). (some (unit_of s), x))
            (start_unit-append_pes_header
              (record s { cc = counter; has_cc = true; collecting = false; buf = [] }) stream_id pts
              dts rai rest refl))
    ]
  where
    unit_of : EsStream → AccessUnit
    unit_of s = record {
      track = s.track;
      pts = s.pts;
      dts = s.dts;
      random_access = s.rai;
      bytes = s.buf;
    }

in_order :
    (s : EsStream) (counter : ℕ)
    → (s.has_cc ≡ false) ⊎ (counter ≡ (s.cc + 1) % 16)
    → (s.has_cc && not (counter == bit_and (s.cc + 1) 0x0F)) ≡ false
in_order s counter follows = ground (arith, and_0f (s.cc + 1))

-- The packet that starts a unit completes the one before, unless a packet was lost between them.
handle_es_start :
    (max : ℕ) (s : EsStream) (pid counter : ℕ) (field rai : Bool) (stream_id : ℕ) (pts dts : ℤ)
    (rest : Bytes)
    → (s.has_cc ≡ false) ⊎ (counter ≡ (s.cc + 1) % 16)
    → handle_es max s
        (plain_header pid true counter field)
        rai
        (append_pes_header [] stream_id pts dts ++ rest)
      ≡ ((finish s).0, begun s pts dts rai counter rest)
unfolding handle_es
handle_es_start max s pid counter field rai stream_id pts dts rest follows =
    rw (same s.has_cc (counter == s.cc), in_order s counter follows)
      (accept_start max s pid counter field rai stream_id pts dts rest)
  where
    same : (a b : Bool) → (a && (b && false)) ≡ false
    same a b = ground arith

header_fits :
    (j : PesJob) {counter : ℕ} (stream_id : ℕ) (pts dts : ℤ) (unit : Bytes) {pkt rest : Bytes}
    (p : PacketOf j true counter (append_pes_header [] stream_id pts dts ++ unit) pkt rest)
    → length (append_pes_header [] stream_id pts dts) ≤ length p.payload
header_fits j stream_id pts dts unit {rest = rest} p =
    let h : Bytes = append_pes_header [] stream_id pts dts in
    let size = ap (λ (l : Bytes). length l) p.splits in
    elim p.fills [
      | inl all ↦ omega (
        arith,
        size,
        length-append p.payload rest,
        length-append h unit,
        ap (λ (l : Bytes). length l) all,
      )
      | inr many ↦ omega (arith, short stream_id pts dts)
    ]
  where
    short : (stream_id : ℕ) (pts dts : ℤ) → length (append_pes_header [] stream_id pts dts) ≤ 19
    short stream_id pts dts =
        rw (length-append_pes_header stream_id pts dts) (below (masked pts == masked dts))
      where
        below : (b : Bool) → (if b then 14 else 19) ≤ 19
        below b = ground arith

-- The packet that starts a unit.
start_step :
    (j : PesJob) (r : Reader) (s : EsStream) (counter stream_id : ℕ) (pts dts : ℤ) (unit : Bytes)
    {pkt rest : Bytes}
    (p : PacketOf j true counter (append_pes_header [] stream_id pts dts ++ unit) pkt rest)
    (tail : Bytes)
    → p.payload ≡ append_pes_header [] stream_id pts dts ++ tail
    → find_stream j.pid r.order ≡ some s
    → (s.has_cc ≡ false) ⊎ (counter ≡ (s.cc + 1) % 16)
    → handle_packet r pkt
      ≡ ((finish s).0, with_stream r j.pid (begun s pts dts (j.rai && true) counter tail))
start_step j r s counter stream_id pts dts unit p tail payload_is found follows =
    handle_packet-Carries r s p.carries found
    ∙ ap
        (λ (b : Bytes). put (
          handle_es r.max_au_size s (plain_header j.pid true counter p.carries.has_field)
            (j.rai && true) b))
        payload_is
    ∙ ap put (
        handle_es_start r.max_au_size s j.pid counter p.carries.has_field (j.rai && true) stream_id
          pts dts tail follows)
  where
    put : Option AccessUnit × EsStream → Option AccessUnit × Reader
    put out = (out.0, with_stream r j.pid out.1)

abbrev pub at_most_one : Option AccessUnit → List AccessUnit
at_most_one au = elim au [ none ↦ [] | some au ↦ au ∷ [] ]

handle_packets_first :
    (r r' r'' : Reader) (pkt : Bytes) (pkts : List Bytes) (au : Option AccessUnit)
    → handle_packet r pkt ≡ (au, r')
    → handle_packets r' pkts ≡ ([], r'')
    → handle_packets r (pkt ∷ pkts) ≡ (at_most_one au, r'')
unfolding handle_packets
handle_packets_first r r' r'' pkt pkts au e more =
    ap (λ (out : Option AccessUnit × Reader). add out.0 (handle_packets out.1 pkts)) e
    ∙ ap (add au) more
  where
    add : Option AccessUnit → List AccessUnit × Reader → List AccessUnit × Reader
    add au out = (elim au [ none ↦ out.0 | some unit ↦ unit ∷ out.0 ], out.1)

-- A Reader that handles the packets of one unit, a PES header and the bytes behind it, completes the unit
-- that the stream held, gives out no other, and then holds exactly those bytes, with the times extended
-- from the stream's last one. The stream is the one of the packets' PID; the first counter, below 16,
-- follows the stream's, or the stream has none; the bytes fit in the Reader's bound. The stream's counter
-- is then the one of the last packet, and the streams of other PIDs are unchanged.
pub unit_collected :
    (j : PesJob) (r : Reader) (s : EsStream) {counter : ℕ} (stream_id : ℕ) (pts dts : ℤ)
    (unit : Bytes) {pkts : List Bytes}
    → Carried j true counter (append_pes_header [] stream_id pts dts ++ unit) pkts
    → find_stream j.pid r.order ≡ some s
    → s.track.pid ≡ j.pid
    → counter < 16
    → (s.has_cc ≡ false) ⊎ (counter ≡ (s.cc + 1) % 16)
    → length unit ≤ r.max_au_size
    → (cc : ℕ) × (order : List EsStream) × (cc < 16)
      × ((cc + 1) % 16 ≡ (counter + length pkts) % 16)
      × ((q : ℕ) → q ≢ j.pid → find_stream q order ≡ find_stream q r.order)
      × (handle_packets r pkts ≡ (at_most_one (finish s).0, record r { order = order }))
      × (find_stream j.pid order ≡ some (begun s pts dts (j.rai && true) cc unit))
unit_collected j r s stream_id pts dts unit
      (next {counter = counter} {pkt = pkt} {rest = rest} {pkts = pkts} p more) found tracked small
      follows fits =
    let h : Bytes = append_pes_header [] stream_id pts dts in
    let tail : Bytes = drop (length h) p.payload in
    let (front, back) =
      cut_later p.payload rest h unit p.splits (header_fits j stream_id pts dts unit p) in
    let s' : EsStream = begun s pts dts (j.rai && true) counter tail in
    let r' : Reader = with_stream r j.pid s' in
    let found' : find_stream j.pid r'.order ≡ some s' =
      find_stream-update_stream j.pid s' r.order tracked (λ x. cc) in
    let size = ap (λ (l : Bytes). length l) back in
    let (cc, order, below, moved, others, run, last) =
      handle_packets_more j r' s' more found' tracked refl refl small refl
        (omega (arith, size, length-append tail rest)) in
    (
      cc,
      order,
      below,
      omega (arith, moved),
      (λ q ne. others q ne ∙ find_stream-update_stream_other j.pid q s' r.order tracked ne),
      handle_packets_first r r' (record r { order = order }) pkt pkts (finish s).0
          (start_step j r s counter stream_id pts dts unit p tail front found follows) run,
      last ∙ ap (λ (b : Bytes). some (begun s pts dts (j.rai && true) cc b)) back,
    )
