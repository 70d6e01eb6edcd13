-- ===== src/Mpegts/Writer/Pes/Carried.antt =====
-- mpegts/writer.go: one packet of `writePES`, and what it carries.
use format.Prelude.{
  ℕ, zero, suc, ◌+◌, ◌-◌, ◌%◌, ◌^◌, ◌<◌, ◌≤◌, ◌≡◌, refl, arith, Bool, true, false, ◌⊎◌, ◌&&◌, ◌||◌,
  some, List, [], ◌∷◌, ◌++◌, ltb, if◌then◌else◌, inl, inr, lt→leb, lt→ltb, Bytes, length, take,
  drop, concat, length-append, length-take, drop-append, take-append-drop, ok,
}
use format.Mpegts.Packet.{PacketHeader, packet_size, parse_packet_header, marshal_header}
use format.Mpegts.Packet.RoundTrip.{parse_packet_header-marshal_header}
use format.Mpegts.Adaptation.{AdaptationField, no_field, encoded_len, marshal_field}
use format.Mpegts.Adaptation.RoundTrip.{
  IsPcr, visible, length-marshal_field, parse_adaptation_field-marshal_field, parse_stuffing_byte,
}
use format.Mpegts.Adaptation.{parse_adaptation_field}
use format.Mpegts.Payload.{packet_payload}
use format.Mpegts.Writer.{plain_header}
use format.Mpegts.Writer.Pes.{PesJob, field_of, af_total, pes_packet}
use format.Mpegts.Writer.Pes.Copy.{copy_segs_lem}

-- What a reader finds in a packet: its header's PID, start flag and counter, the random access flag,
-- and the payload.
pub record Carries (pid : ℕ) (start : Bool) (counter : ℕ) (rai : Bool) (payload pkt : Bytes)
    : Type 0 where
  pub field : AdaptationField
  pub has_field : Bool
  pub size : length pkt ≡ packet_size
  pub header : parse_packet_header pkt ≡ ok (plain_header pid start counter has_field)
  pub body :
      packet_payload pkt (plain_header pid start counter has_field) ≡ ok (some payload, field)
  pub access : field.random_access ≡ rai

length-marshal_header : (h : PacketHeader) → length (marshal_header h) ≡ 4
unfolding marshal_header
length-marshal_header h = refl

or_true : (b : Bool) → (b || true) ≡ true
or_true b = ground arith

module _ (pid counter : ℕ) (start : Bool) (hp : pid < 2 ^ 13) (hc : counter < 16) where
  header_of : Bool → Bytes
  header_of field = marshal_header (plain_header pid start counter field)

  header_read :
      (field : Bool) (rest : Bytes)
      → parse_packet_header (header_of field ++ rest) ≡ ok (plain_header pid start counter field)
  unfolding header_of
  header_read field rest =
      parse_packet_header-marshal_header (plain_header pid start counter field) rest (record {
        pid_fits = hp;
        scrambling_fits = omega arith;
        counter_fits = hc;
        carries = or_true field;
      })

  without_field :
      (payload : Bytes)
      → length payload ≡ 184
      → Carries pid start counter false payload (header_of false ++ payload)
  unfolding header_of marshal_header packet_payload
  without_field payload h = record {
    field = no_field;
    has_field = false;
    size = omega (arith, length-append (header_of false) payload);
    header = header_read false payload;
    body = payload_read;
    access = refl;
  }
    where
      payload_read :
          packet_payload (header_of false ++ payload) (plain_header pid start counter false)
          ≡ ok (some payload, no_field)
      payload_read = rw (
          lt→leb (length (header_of false ++ payload)) 4
            (omega (arith, length-append (header_of false) payload)))

  -- `field` is anything that parses as an adaptation field in front of the payload.
  with_field :
      (field payload : Bytes) (af : AdaptationField)
      → length field + length payload ≡ 184
      → 0 < length payload
      → parse_adaptation_field (field ++ payload) ≡ ok (af, length field)
      → Carries pid start counter af.random_access payload (header_of true ++ (field ++ payload))
  unfolding header_of marshal_header packet_payload
  with_field field payload af h pos parsed = record {
    field = af;
    has_field = true;
    size = size;
    header = header_read true (field ++ payload);
    body = payload_read;
    access = refl;
  }
    where
      size : length (header_of true ++ (field ++ payload)) ≡ 188
      size =
          omega
            (arith, length-append (header_of true) (field ++ payload), length-append field payload)

      payload_read :
          packet_payload
            (header_of true ++ (field ++ payload))
            (plain_header pid start counter true)
          ≡ ok (some payload, af)
      payload_read = rw parsed (
          rw
            (lt→leb (length (header_of true ++ (field ++ payload))) (4 + length field)
              (omega (arith, size)))
            (rw (
              drop-append (4 + length field) (header_of true ++ field) payload
                (omega (arith, length-append (header_of true) field)))))

-- The three ways in which `afTotal` comes out: no field, the single stuffing byte, a whole field.
abbrev FieldFits : AdaptationField → ℕ → Type 0
FieldFits af total =
    ((total ≡ 0) × (af.random_access ≡ false))
    ⊎ ((total ≡ 1) × (af.random_access ≡ false))
    ⊎ ((2 ≤ total) × (encoded_len af ≤ total))

af_total-FieldFits :
    (af : AdaptationField) (remaining : ℕ)
    → 0 < remaining
    → FieldFits af (af_total af remaining)
      × (af_total af remaining < 184)
      × (184 ≤ remaining + af_total af remaining)
unfolding encoded_len
af_total-FieldFits af remaining h = by_flags af.random_access af.has_pcr
  where
    by_flags :
        (ra pc : Bool)
        → let af' : AdaptationField = record af { random_access = ra; has_pcr = pc } in
          FieldFits af' (af_total af' remaining)
          × (af_total af' remaining < 184)
          × (184 ≤ remaining + af_total af' remaining)
    by_flags ra pc = ground arith

-- The payload is all that is left, or most of the packet.
af_total_fills :
    (af : AdaptationField) (remaining : ℕ)
    → (remaining + af_total af remaining ≤ 184) ⊎ (af_total af remaining ≤ 8)
unfolding encoded_len
af_total_fills af remaining = by_flags af.random_access af.has_pcr
  where
    by_flags :
        (ra pc : Bool)
        → let af' : AdaptationField = record af { random_access = ra; has_pcr = pc } in
          (remaining + af_total af' remaining ≤ 184) ⊎ (af_total af' remaining ≤ 8)
    by_flags ra pc = ground arith

drop_all : (n : ℕ) (xs : Bytes) → length xs ≤ n → drop n xs ≡ []
drop_all zero [] h = refl
drop_all zero (x ∷ xs) h = absurd (omega arith)
drop_all (suc n) [] h = refl
drop_all (suc n) (x ∷ xs) h = drop_all n xs (omega arith)

module _ (pid counter : ℕ) (start : Bool) (hp : pid < 2 ^ 13) (hc : counter < 16) where
  field_packet :
      (af : AdaptationField) (total : ℕ) (payload : Bytes)
      → IsPcr af.pcr
      → FieldFits af total
      → total < 184
      → total + length payload ≡ 184
      → Carries pid start counter af.random_access payload (
          marshal_header (plain_header pid start counter (ltb 0 total))
          ++ ((if ltb 0 total then marshal_field af total else []) ++ payload))
  unfolding header_of marshal_field
  field_packet af total payload v (inl (none_left, ra)) lt h =
      rw (ra, none_left) (without_field pid counter start hp hc payload (omega arith))
  field_packet af total payload v (inr (inl (one, ra))) lt h =
      rw (ra, one)
        (with_field pid counter start hp hc (marshal_field af 1) payload no_field
          (omega (arith, single)) (omega arith) (rw single (parse_stuffing_byte af payload)))
    where
      single : length (marshal_field af 1) ≡ 1
      single = unfold marshal_field in refl
  field_packet af total payload v (inr (inr (two, enc))) lt h =
      let size : length (marshal_field af total) ≡ total = length-marshal_field af total enc in
      rw (lt→ltb 0 total (omega arith)) (
        with_field pid counter start hp hc (marshal_field af total) payload (visible af)
          (omega (arith, size)) (omega arith)
          (rw size (parse_adaptation_field-marshal_field af total payload v enc (omega arith))))

-- One packet of `writePES`: it carries the next bytes of the segments, at least one.
pub record PacketOf (j : PesJob) (first : Bool) (counter : ℕ) (whole : Bytes) (pkt rest : Bytes)
    : Type 0 where
  pub payload : Bytes
  pub nonempty : 0 < length payload
  pub carries : Carries j.pid first counter (j.rai && first) payload pkt
  pub splits : payload ++ rest ≡ whole
  pub fills : (rest ≡ []) ⊎ (176 ≤ length payload)

pub pes_packet-PacketOf :
    (j : PesJob) (first : Bool) (counter : ℕ) (segs : List Bytes)
    → j.pid < 2 ^ 13
    → counter < 16
    → IsPcr j.pcr
    → 0 < length (concat segs)
    → let out = pes_packet j first counter (length (concat segs)) segs in
      PacketOf j first counter (concat segs) out.0 (concat out.1)
unfolding pes_packet
pes_packet-PacketOf j first counter segs hp hc v h =
    let whole : Bytes = concat segs in
    let af : AdaptationField = field_of j first in
    let total : ℕ = af_total af (length whole) in
    let (fits, lt, enough) = af_total-FieldFits af (length whole) h in
    let room : ℕ = 184 - total in
    let copied = copy_segs_lem room segs in
    let size : length (take room whole) ≡ room = omega (arith, length-take room whole) in
    record {
      payload = take room whole;
      nonempty = omega arith;
      carries = rw copied.0 (
          field_packet j.pid counter first hp hc af total (take room whole) v fits lt
            (omega arith));
      splits = rw copied.1 (take-append-drop room whole);
      fills = elim (af_total_fills af (length whole)) [
        | inl all ↦ inl (rw copied.1 (drop_all room whole (omega arith)))
        | inr little ↦ inr (omega arith)
      ];
    }

-- The packets of one run: their PID, consecutive counters, the start flag and the random access flag on
-- the first alone, and payloads that are not empty and make up `whole`.
pub data Carried (j : PesJob) : Bool → ℕ → Bytes → List Bytes → Type 0 where
  done : {counter : ℕ} → Carried j false counter [] []
  next :
      {first : Bool} {counter : ℕ} {whole pkt rest : Bytes} {pkts : List Bytes}
      → PacketOf j first counter whole pkt rest
      → Carried j false ((counter + 1) % 16) rest pkts
      → Carried j first counter whole (pkt ∷ pkts)
