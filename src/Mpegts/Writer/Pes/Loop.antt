-- ===== src/Mpegts/Writer/Pes/Loop.antt =====
-- The loop of `writePES` on a destination that takes every packet.
use format.Prelude.{
  ℕ, zero, suc, ◌+◌, ◌%◌, ◌^◌, ◌<◌, ◌≡◌, ◌≢◌, refl, sym, ap, ◌∙◌, arith, Bool, true, false, ◌||◌,
  List, [], ◌∷◌, ◌++◌, append_assoc, append-nil, bit_and, ltb, ◌==◌, ==_iff, if◌then◌else◌,
  Bool-cases, inl, inr, Bytes, length, concat, length-append, ok,
}
use format.Prelude.Io.{Sink, write}
use format.Prelude.Words.{and_0f}
use format.Mpegts.Adaptation.RoundTrip.{IsPcr}
use format.Mpegts.Writer.{Writer, next_cc}
use format.Mpegts.Writer.Pes.{PesJob, pes_packet, pes_loop, write_pes}
use format.Mpegts.Writer.Pes.Carried.{PacketOf, pes_packet-PacketOf, Carried, done, next}

-- A destination that has taken `out` and will take all that follows.
abbrev pub taken : Bytes → Sink
taken out = record { written = out; faults = [] }

-- The writer `w` at such a destination.
abbrev pub on : Writer → Bytes → Writer
on w out = record w { dst = taken out }

abbrev pub advance : (ℕ → ℕ) → ℕ → ℕ → ℕ
advance cc pid = λ p. if p == pid then bit_and (cc pid + 1) 0x0F else cc p

-- What a run leaves: the packets on the wire, the counter of the PID moved on, the others alone.
pub record Written (j : PesJob) (first : Bool) (whole : Bytes) (cc cc' : ℕ → ℕ) (pkts : List Bytes)
    : Type 0 where
  pub carried : Carried j first (cc j.pid) whole pkts
  pub counter_is : cc' j.pid ≡ (cc j.pid + length pkts) % 16
  pub others : (pid : ℕ) → pid ≢ j.pid → cc' pid ≡ cc pid

length-eq_zero : (xs : Bytes) → length xs ≡ 0 → xs ≡ []
length-eq_zero [] h = refl
length-eq_zero (x ∷ xs) h = absurd (omega arith)

advance_self : (cc : ℕ → ℕ) (pid : ℕ) → advance cc pid pid ≡ (cc pid + 1) % 16
advance_self cc pid = rw ((==_iff pid pid).1 refl) (and_0f (cc pid + 1))

advance_other : (cc : ℕ → ℕ) (pid p : ℕ) → p ≢ pid → advance cc pid p ≡ cc p
advance_other cc pid p ne = ground arith

Written-next :
    (j : PesJob) (first : Bool) (cc cc' : ℕ → ℕ) {whole pkt rest : Bytes} {pkts : List Bytes}
    → PacketOf j first (cc j.pid) whole pkt rest
    → Written j false rest (advance cc j.pid) cc' pkts
    → Written j first whole cc cc' (pkt ∷ pkts)
Written-next j first cc cc' p r = record {
  carried = next p (rw (advance_self cc j.pid) at r.carried);
  counter_is = omega (arith, r.counter_is, advance_self cc j.pid);
  others = λ q ne. r.others q ne ∙ advance_other cc j.pid q ne;
}

Written-done :
    (j : PesJob) (first : Bool) (whole : Bytes) (cc : ℕ → ℕ)
    → cc j.pid < 16
    → (first || ltb 0 (length whole)) ≡ false
    → Written j first whole cc cc []
Written-done j true whole counters c over = cc
Written-done j false whole cc c over = record {
  carried = rw (length-eq_zero whole (ground arith)) done;
  counter_is = omega arith;
  others = λ q ne. refl;
}

-- One round that goes on.
pes_loop_step :
    (j : PesJob) (fuel : ℕ) (first : Bool) (segs : List Bytes) (w : Writer) (out : Bytes)
    → (first || ltb 0 (length (concat segs))) ≡ true
    → let packet = pes_packet j first (w.cc j.pid) (length (concat segs)) segs in
      pes_loop (suc fuel) j first segs (on w out)
      ≡ pes_loop fuel j false packet.1 (on (record w { cc = advance w.cc j.pid }) (out ++ packet.0))
unfolding pes_loop next_cc write
pes_loop_step j fuel first segs w out more = rw (more, pes_loop) refl

pes_loop_end :
    (j : PesJob) (fuel : ℕ) (first : Bool) (segs : List Bytes) (w : Writer)
    → (first || ltb 0 (length (concat segs))) ≡ false
    → pes_loop (suc fuel) j first segs w ≡ (ok tt, w)
unfolding pes_loop
pes_loop_end j fuel first segs w over = rw (over, pes_loop) refl

module _ (j : PesJob) (hp : j.pid < 2 ^ 13) (v : IsPcr j.pcr) where
  pes_loop_lem :
      (fuel : ℕ) (first : Bool) (segs : List Bytes) (w : Writer) (out : Bytes)
      → w.cc j.pid < 16
      → length (concat segs) < fuel
      → (first ≡ true → 0 < length (concat segs))
      → (cc : ℕ → ℕ) × (pkts : List Bytes) × (pes_loop fuel j first segs (on w out)
          ≡ (ok tt, on (record w { cc = cc }) (out ++ concat pkts)))
        × Written j first (concat segs) w.cc cc pkts
  pes_loop_lem zero first segs w out c h s = absurd (omega arith)
  pes_loop_lem (suc fuel) first segs w out c h s =
      elim (Bool-cases (first || ltb 0 (length (concat segs)))) [
        | inl more ↦
            let pos : 0 < length (concat segs) = positive first (length (concat segs)) s more in
            let packet = pes_packet j first (w.cc j.pid) (length (concat segs)) segs in
            let p = pes_packet-PacketOf j first (w.cc j.pid) segs hp c v pos in
            let cc1 : ℕ → ℕ = advance w.cc j.pid in
            let (cc2, pkts, run, rest) =
              pes_loop_lem fuel false packet.1 (record w { cc = cc1 }) (out ++ packet.0)
                (omega (arith, advance_self w.cc j.pid))
                (omega (
                  arith,
                  ap (λ (l : Bytes). length l) p.splits,
                  length-append p.payload (concat packet.1),
                  p.nonempty,
                ))
                (λ e. absurd (cc)) in
            (
              cc2,
              packet.0 ∷ pkts,
              pes_loop_step j fuel first segs w out more
                  ∙ run
                  ∙ ap (λ (l : Bytes). (ok tt, on (record w { cc = cc2 }) l))
                      (append_assoc out packet.0 (concat pkts)),
              Written-next j first w.cc cc2 p rest,
            )
        | inr over ↦ (
          w.cc,
          [],
          pes_loop_end j fuel first segs (on w out) over
              ∙ ap (λ (l : Bytes). (ok tt, on w l)) (sym (append-nil out)),
          Written-done j first (concat segs) w.cc c over,
        )
      ]
    where
      positive : (first : Bool) (n : ℕ) → (first ≡ true → 0 < n) → (first || ltb 0 n) ≡ true → 0 < n
      positive true n s m = s refl
      positive false n s m = ground arith

  -- For a PID of 13 bits, a clock value below 300 * 2^33, a counter below 16 and segments that are not all
  -- empty, on a destination that takes every packet, `writePES` succeeds within its rounds, and puts on the
  -- wire packets that carry the segments: each parses as a packet of 188 bytes of the PID, with consecutive
  -- counters modulo 16, the start flag and the random access flag on the first alone, and a payload that is
  -- not empty; the payloads together are the segments. The counter of the PID moves on by their number
  -- modulo 16, and no other counter changes.
  pub write_pes_lem :
      (segs : List Bytes) (w : Writer) (out : Bytes)
      → w.cc j.pid < 16
      → 0 < length (concat segs)
      → (cc : ℕ → ℕ) × (pkts : List Bytes) × (write_pes j segs (on w out)
          ≡ (ok tt, on (record w { cc = cc }) (out ++ concat pkts)))
        × Written j true (concat segs) w.cc cc pkts
  unfolding write_pes
  write_pes_lem segs w out c pos =
      pes_loop_lem (length (concat segs) + 1) true segs w out c (omega arith) (λ _. pos)
