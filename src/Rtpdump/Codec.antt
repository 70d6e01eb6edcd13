-- ===== src/Rtpdump/Codec.antt =====
-- rtpdump/rtpdump.go: writing and reading the binary parts of a file.
use format.Prelude.{
  ℕ, ◌+◌, ◌-◌, ◌*◌, ◌/◌, ◌%◌, ◌^◌, ◌<◌, ◌≤◌, ◌≡◌, refl, sym, ap, ◌∙◌, arith, Bool, true, not, ◌⊎◌,
  ◌&&◌, [], ◌∷◌, ◌++◌, ◌==◌, if◌then◌else◌, le→ltb, Bytes, length, take, drop, take-append,
  drop-append, append_assoc, length-append, ok,
}
use format.Prelude.Int.{pos}
use format.Prelude.Words.{IsBytes}
use format.Prelude.Io.{be_16, be_32, put_be_16, put_be_32}
use format.Rtpdump.{
  Header, Packet, PacketHeader, ipv4, to_4, marshal_header, unmarshal_header, marshal_packet_header,
  unmarshal_packet_header, offset_of, marshal, unmarshal,
}

be_16-put : (v : ℕ) → v < 2 ^ 16 → be_16 (v / 2 ^ 8 % 256) (v % 256) ≡ v
be_16-put v h = omega arith

be_32-put :
    (v : ℕ)
    → v < 2 ^ 32
    → be_32 (v / 2 ^ 24 % 256) (v / 2 ^ 16 % 256) (v / 2 ^ 8 % 256) (v % 256) ≡ v
be_32-put v h = omega arith

-- What the two fields of a packet header can tell: some milliseconds below 2^32, and RTP only with a
-- payload.
pub record IsPacket (p : Packet) : Type 0 where
  pub millis : ℕ
  pub offset_is : p.offset ≡ pos (millis * 10 ^ 6)
  pub millis_fit : millis < 2 ^ 32
  pub fits : length p.payload + 8 < 2 ^ 16
  pub shown : (p.is_rtcp ≡ true) ⊎ (0 < length p.payload)

-- The header that `Packet.Marshal` writes.
abbrev pub header_of : Packet → ℕ → PacketHeader
header_of p millis = record {
  len = length p.payload + 8;
  packet_length = if p.is_rtcp then 0 else length p.payload;
  offset = millis;
}

pub marshal-header_of :
    (p : Packet) (v : IsPacket p)
    → marshal p ≡ ok (marshal_packet_header (header_of p v.millis) ++ p.payload)
unfolding marshal marshal_packet_header
marshal-header_of p v =
    let n : ℕ = length p.payload in
    let whole : (n % 2 ^ 16 + 8) % 2 ^ 16 ≡ n + 8 = omega (arith, v.fits) in
    let short : n % 2 ^ 16 ≡ n = omega (arith, v.fits) in
    let millis : v.millis * 10 ^ 6 / 10 ^ 6 % 2 ^ 32 ≡ v.millis = omega (arith, v.millis_fit) in
    rw (le→ltb (2 ^ 16 - 1 - 8) n (omega (arith, v.fits)), v.offset_is, whole, short, millis) refl

pub unmarshal_packet_header-marshal_packet_header :
    (h : PacketHeader) (rest : Bytes)
    → h.len < 2 ^ 16
    → h.packet_length < 2 ^ 16
    → h.offset < 2 ^ 32
    → unmarshal_packet_header (marshal_packet_header h ++ rest) ≡ ok h
unfolding unmarshal_packet_header marshal_packet_header
unmarshal_packet_header-marshal_packet_header h rest a b c =
    rw
      (
        le→ltb (length (marshal_packet_header h ++ rest)) 8 (omega arith),
        be_16-put h.len a,
        be_16-put h.packet_length b,
        be_32-put h.offset c,
      )
      refl

-- The packet that a reader makes of the header and the payload.
pub packet_of_header :
    (p : Packet) (v : IsPacket p)
    → record {
      offset = offset_of (header_of p v.millis);
      is_rtcp = (header_of p v.millis).packet_length == 0;
      payload = p.payload;
    }
      ≡ p
packet_of_header p v =
    rw (sym v.offset_is) (ap (λ (b : Bool). record p { is_rtcp = b }) (flag p.is_rtcp v.shown))
  where
    flag :
        (b : Bool)
        → (b ≡ true) ⊎ (0 < length p.payload)
        → ((if b then 0 else length p.payload) == 0) ≡ b
    flag b h = ground arith

pub header_of_fits : (p : Packet) (v : IsPacket p) → (header_of p v.millis).packet_length < 2 ^ 16
header_of_fits p v = ground (arith, v.fits)

unmarshal_of :
    (h : PacketHeader) (buf : Bytes)
    → unmarshal_packet_header buf ≡ ok h
    → 8 ≤ h.len
    → h.len ≤ length buf
    → unmarshal buf
      ≡ ok (record {
        offset = offset_of h;
        is_rtcp = h.packet_length == 0;
        payload = drop 8 (take h.len buf);
      })
unfolding unmarshal
unmarshal_of h buf parsed low high =
    rw (parsed, unmarshal)
      (rw (le→ltb h.len 8 low, le→ltb (length buf) h.len high)
        (ap
          (λ (b : Bool).
            ok (record { offset = offset_of h; is_rtcp = b; payload = drop 8 (take h.len buf) }))
          (flag h.len (h.packet_length == 0) low)))
  where
    flag : (n : ℕ) (b : Bool) → 8 ≤ n → (not (n == 0) && b) ≡ b
    flag n b low = ground arith

-- `Packet.Marshal` and `Packet.Unmarshal`: a packet whose offset is a number of milliseconds below 2^32,
-- whose payload is at most 65527 bytes, and not empty unless it is RTCP, is written in 8 bytes and
-- its payload, and read back whatever bytes follow.
pub unmarshal-marshal :
    (p : Packet) (rest : Bytes)
    → IsPacket p
    → (out : Bytes) × (marshal p ≡ ok out)
      × (length out ≡ 8 + length p.payload)
      × (unmarshal (out ++ rest) ≡ ok p)
unfolding unmarshal
unmarshal-marshal p rest v =
    let h : PacketHeader = header_of p v.millis in
    let hb : Bytes = marshal_packet_header h in
    let size : length hb ≡ 8 = unfold marshal_packet_header in refl in
    let cut : drop 8 (take (length p.payload + 8) ((hb ++ p.payload) ++ rest)) ≡ p.payload =
      ap (drop 8) (
        take-append (length p.payload + 8) (hb ++ p.payload) rest
          (omega (arith, size, length-append hb p.payload)))
      ∙ drop-append 8 hb p.payload (sym size) in
    (
      hb ++ p.payload,
      marshal-header_of p v,
      omega (arith, size, length-append hb p.payload),
      unmarshal_of h ((hb ++ p.payload) ++ rest)
            (ap unmarshal_packet_header (append_assoc hb p.payload rest)
              ∙ unmarshal_packet_header-marshal_packet_header h (p.payload ++ rest) v.fits
                  (header_of_fits p v) v.millis_fit)
            (omega arith)
            (omega (arith, size, length-append hb p.payload, length-append (hb ++ p.payload) rest))
          ∙ ap
              (λ (b : Bytes).
                ok (record { offset = offset_of h; is_rtcp = h.packet_length == 0; payload = b }))
              cut
          ∙ ap ok (packet_of_header p v),
    )

-- What the header of a file can tell: a start in microseconds, of 32 bits of seconds; an IPv4 address.
pub record IsHeader (h : Header) : Type 0 where
  pub sec : ℕ
  pub usec : ℕ
  pub a : ℕ
  pub b : ℕ
  pub c : ℕ
  pub d : ℕ
  pub start_is : h.start ≡ pos (sec * 10 ^ 9 + usec * 10 ^ 3)
  pub source_is : h.source ≡ ipv4 a b c d
  pub sec_fits : sec < 2 ^ 32
  pub usec_fits : usec < 10 ^ 6
  pub port_fits : h.port < 2 ^ 16
  pub address : IsBytes (a ∷ b ∷ c ∷ d ∷ [])

-- The sixteen bytes of a header.
abbrev fields : (sec usec a b c d port : ℕ) → Bytes → Bytes
fields sec usec a b c d port rest =
    put_be_32 sec
    ++ (put_be_32 usec ++ ((a ∷ b ∷ c ∷ d ∷ []) ++ (put_be_16 port ++ (0 ∷ 0 ∷ rest))))

unmarshal_header-fields :
    (sec usec a b c d port : ℕ) (rest : Bytes)
    → sec < 2 ^ 32
    → usec < 2 ^ 32
    → port < 2 ^ 16
    → unmarshal_header (fields sec usec a b c d port rest)
      ≡ ok (record {
        start = pos (sec * 10 ^ 9 + usec * 10 ^ 3);
        source = ipv4 a b c d;
        port = port;
      })
unfolding unmarshal_header
unmarshal_header-fields sec usec a b c d port rest hs hu hp =
    rw
      (
        le→ltb (length (fields sec usec a b c d port rest)) 16 (omega arith),
        be_32-put sec hs,
        be_32-put usec hu,
        be_16-put port hp,
      )
      refl

marshal_header-fields :
    (h : Header) (v : IsHeader h) → marshal_header h ≡ fields v.sec v.usec v.a v.b v.c v.d h.port []
unfolding marshal_header to_4
marshal_header-fields h v =
    let sec : (v.sec * 10 ^ 9 + v.usec * 10 ^ 3) / 10 ^ 9 % 2 ^ 32 ≡ v.sec =
      omega (arith, v.sec_fits, v.usec_fits) in
    let usec : (v.sec * 10 ^ 9 + v.usec * 10 ^ 3) % 10 ^ 9 / 10 ^ 3 % 2 ^ 32 ≡ v.usec =
      omega (arith, v.sec_fits, v.usec_fits) in
    rw (v.start_is, v.source_is, sec, usec) refl

rebuilt :
    (h : Header) (v : IsHeader h)
    → record {
      start = pos (v.sec * 10 ^ 9 + v.usec * 10 ^ 3);
      source = ipv4 v.a v.b v.c v.d;
      port = h.port;
    }
      ≡ h
rebuilt h v = rw (sym v.start_is, sym v.source_is) refl

-- `Header.Marshal` and `Header.Unmarshal`: a header whose start is a whole number of microseconds with
-- seconds of 32 bits, whose source is an IPv4 address as `net.IPv4` makes it, and whose port has 16
-- bits, is written in 16 bytes, and read back whatever bytes follow.
pub unmarshal_header-marshal_header :
    (h : Header) (rest : Bytes)
    → IsHeader h
    → (length (marshal_header h) ≡ 16) × (unmarshal_header (marshal_header h ++ rest) ≡ ok h)
unmarshal_header-marshal_header h rest v = (
  ap (λ (l : Bytes). length l) (marshal_header-fields h v),
  ap (λ (l : Bytes). unmarshal_header (l ++ rest)) (marshal_header-fields h v)
      ∙ unmarshal_header-fields v.sec v.usec v.a v.b v.c v.d h.port rest v.sec_fits
          (omega (arith, v.usec_fits)) v.port_fits
      ∙ ap ok (rebuilt h v),
)
