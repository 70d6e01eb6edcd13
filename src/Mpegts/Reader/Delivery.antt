-- ===== src/Mpegts/Reader/Delivery.antt =====
-- mpegts/reader.go: a Reader on the packets that go on with an access unit.
use format.Prelude.{
  ℕ, ◌+◌, ◌%◌, ◌<◌, ◌≤◌, ◌≡◌, ◌≢◌, refl, ap, ◌∙◌, arith, Bool, true, false, ◌&&◌, Option, none,
  some, List, [], ◌∷◌, ◌++◌, append_assoc, append-nil, Bytes, length, length-append,
}
use format.Prelude.Words.{and_0f}
use format.Mpegts.Writer.{plain_header}
use format.Mpegts.Writer.Pes.{PesJob}
use format.Mpegts.Writer.Pes.Carried.{Carries, PacketOf, Carried, done, next}
use format.Mpegts.Reader.{
  AccessUnit, EsStream, Reader, accept_packet, handle_es, find_stream, update_stream, deliver,
  handle_packet,
}
use format.Mpegts.Reader.Streams.{find_stream-update_stream, find_stream-update_stream_other}

-- The packets one after the other, with the units that they complete.
unfoldable pub handle_packets : Reader → List Bytes → List AccessUnit × Reader
handle_packets r [] = ([], r)
handle_packets r (pkt ∷ pkts) =
    let (au, r') = handle_packet r pkt in
    let (aus, r'') = handle_packets r' pkts in
    (elim au [ none ↦ aus | some unit ↦ unit ∷ aus ], r'')

abbrev pub with_stream : Reader → ℕ → EsStream → Reader
with_stream r pid s = record r { order = update_stream pid s r.order }

pub handle_packet-Carries :
    {pid counter : ℕ} {start rai : Bool} {payload pkt : Bytes} (r : Reader) (s : EsStream)
    (c : Carries pid start counter rai payload pkt)
    → find_stream pid r.order ≡ some s
    → let out =
        handle_es r.max_au_size s (plain_header pid start counter c.has_field) rai payload in
      handle_packet r pkt ≡ (out.0, with_stream r pid out.1)
unfolding handle_packet deliver
handle_packet-Carries r s c found =
    rw (c.header, handle_packet) (rw found (rw (c.body, deliver) (rw c.access)))

-- The stream with more of its unit collected.
abbrev pub collected : EsStream → Bytes → ℕ → EsStream
collected s buf cc = record s { buf = buf; cc = cc; has_cc = true; collecting = true }

-- A packet that goes on with the unit that is being collected.
handle_es_more :
    (max : ℕ) (s : EsStream) (pid counter : ℕ) (field rai : Bool) (payload : Bytes)
    → s.collecting ≡ true
    → s.cc < 16
    → counter ≡ (s.cc + 1) % 16
    → length s.buf + length payload ≤ max
    → handle_es max s (plain_header pid false counter field) rai payload
      ≡ (none, collected s (s.buf ++ payload) counter)
unfolding handle_es accept_packet
handle_es_more max s pid counter field rai payload on small follows fits =
    ground (arith, and_0f (s.cc + 1), length-append s.buf payload)

collected_self :
    (s : EsStream) → s.collecting ≡ true → s.has_cc ≡ true → s ≡ collected s (s.buf ++ []) s.cc
collected_self s on known = ground (arith, append-nil s.buf)

pub handle_packets_step :
    (r r' : Reader) (pkt : Bytes) (pkts : List Bytes)
    → handle_packet r pkt ≡ (none, r')
    → handle_packets r (pkt ∷ pkts) ≡ handle_packets r' pkts
unfolding handle_packets
handle_packets_step r r' pkt pkts e =
    ap
      (λ (out : Option AccessUnit × Reader).
        let (aus, last) = handle_packets out.1 pkts in
        (elim out.0 [ none ↦ aus | some unit ↦ unit ∷ aus ], last))
      e

-- One packet that goes on with a unit.
more_step :
    (j : PesJob) (r : Reader) (s : EsStream) (counter : ℕ) {whole pkt rest : Bytes}
    (p : PacketOf j false counter whole pkt rest)
    → find_stream j.pid r.order ≡ some s
    → s.collecting ≡ true
    → s.cc < 16
    → counter ≡ (s.cc + 1) % 16
    → length s.buf + length whole ≤ r.max_au_size
    → handle_packet r pkt ≡ (none, with_stream r j.pid (collected s (s.buf ++ p.payload) counter))
more_step j r s counter p found on small follows fits =
    let size = ap (λ (l : Bytes). length l) p.splits in
    let handled =
      handle_es_more r.max_au_size s j.pid counter p.carries.has_field (j.rai && false) p.payload on
        small follows (omega (arith, size, length-append p.payload _)) in
    handle_packet-Carries r s p.carries found
    ∙ ap (λ (out : Option AccessUnit × EsStream). (out.0, with_stream r j.pid out.1)) handled

-- All the packets that go on with a unit: none is given out, and their payloads are collected.
pub handle_packets_more :
    (j : PesJob) (r : Reader) (s : EsStream) {counter : ℕ} {rest : Bytes} {pkts : List Bytes}
    → Carried j false counter rest pkts
    → find_stream j.pid r.order ≡ some s
    → s.track.pid ≡ j.pid
    → s.collecting ≡ true
    → s.has_cc ≡ true
    → s.cc < 16
    → counter ≡ (s.cc + 1) % 16
    → length s.buf + length rest ≤ r.max_au_size
    → (cc : ℕ) × (order : List EsStream) × (cc < 16)
      × ((cc + 1) % 16 ≡ (counter + length pkts) % 16)
      × ((q : ℕ) → q ≢ j.pid → find_stream q order ≡ find_stream q r.order)
      × (handle_packets r pkts ≡ ([], record r { order = order }))
      × (find_stream j.pid order ≡ some (collected s (s.buf ++ rest) cc))
unfolding handle_packets
handle_packets_more j r s done found tracked on known small follows fits = (
  s.cc,
  r.order,
  small,
  omega arith,
  (λ q ne. refl),
  refl,
  found ∙ ap some (collected_self s on known),
)
handle_packets_more j r s (next {counter = counter} {pkt = pkt} {rest = rest} {pkts = pkts} p more)
      found tracked on known small follows fits =
    let s' : EsStream = collected s (s.buf ++ p.payload) counter in
    let r' : Reader = with_stream r j.pid s' in
    let size = ap (λ (l : Bytes). length l) p.splits in
    let found' : find_stream j.pid r'.order ≡ some s' =
      find_stream-update_stream j.pid s' r.order tracked (λ x. cc) in
    let (cc, order, below, moved, others, run, last) =
      handle_packets_more j r' s' more found' tracked refl refl (omega arith) (omega arith)
        (omega (arith, size, length-append p.payload rest, length-append s.buf p.payload)) in
    (
      cc,
      order,
      below,
      omega (arith, moved),
      (λ q ne. others q ne ∙ find_stream-update_stream_other j.pid q s' r.order tracked ne),
      handle_packets_step r r' pkt pkts (more_step j r s counter p found on small follows fits)
          ∙ run,
      last
          ∙ ap (λ (b : Bytes). some (collected s b cc))
              (append_assoc s.buf p.payload rest ∙ ap (◌++◌ s.buf) p.splits),
    )
