-- ===== src/NalWriter/Gate.antt =====
-- h264writer/h264writer.go and h265writer/h265writer.go: what is written over a history of packets.
use format.Prelude.{
  ◌≡◌, refl, sym, ap, ◌∙◌, arith, Bool, true, false, not, ◌&&◌, List, [], ◌∷◌, ◌++◌, ◌==◌,
  if◌then◌else◌, if_cases_on, Bytes, length, Option, none, some, Result, ok, err, either,
  append-nil, append_assoc, Bool-cases, inl, inr,
}
use mathlib.Core.Path.{subst}
use format.Prelude.Io.{write_all}
use format.NalWriter.{
  Error, stream, Depacketizer, W, state_of, write_data, write_payload, write_rtp,
}

abbrev bytes_of : Option Bytes → Bytes
bytes_of none = []
bytes_of (some bytes) = bytes

module _ (d : Depacketizer) (is_key_frame : Bytes → Bool) where
  -- A history of calls of `WriteRTP`.
  abbrev pub run : W d → List Bytes → W d
  run w [] = w
  run w (p ∷ ps) = run (write_rtp d is_key_frame w p).1 ps

  -- What the depacketizer gives for packets in a row; one that it refuses gives nothing.
  abbrev pub depacketized : d.State → List Bytes → Bytes
  depacketized s [] = []
  depacketized s (p ∷ ps) = bytes_of (d.unmarshal s p).0 ++ depacketized (d.unmarshal s p).1 ps

  -- The packets that are not empty, and those from the first key frame on.
  abbrev pub full : List Bytes → List Bytes
  full [] = []
  full (p ∷ ps) = let rest = full ps in if length p == 0 then rest else p ∷ rest

  abbrev pub from_key_frame : List Bytes → List Bytes
  from_key_frame [] = []
  from_key_frame (p ∷ ps) = let rest = from_key_frame ps in if is_key_frame p then p ∷ ps else rest

  -- A writer that has seen a key frame, with the state of the depacketizer.
  record IsOpen (w : W d) (s : d.State) : Type 0 where
    sound : w.sink.faults ≡ []
    seen : w.has_key_frame ≡ true
    state_is : state_of d w.cached_packet ≡ s

  written_data :
      (w : W d) (s : d.State) (out : Option Bytes)
      → w.sink.faults ≡ []
      → let w' = (write_data d (record w { has_key_frame = true; cached_packet = some s }) out).1 in
        (w'.sink.written ≡ w.sink.written ++ bytes_of out) × IsOpen w' s
  written_data w s none e =
      (sym (append-nil w.sink.written), record { sound = e; seen = refl; state_is = refl })
  written_data w s (some bytes) e =
      let w1 : W d = record w { has_key_frame = true; cached_packet = some s } in
      let w2 : W d = record w1 {
        sink = record { written = w.sink.written ++ bytes; faults = [] };
      } in
      let P : Result Error (Unit {0}) × W d → Type 0 =
        λ o. (o.1.sink.written ≡ w.sink.written ++ bytes) × IsOpen o.1 s in
      if_cases_on P (length bytes == 0)
        (λ z. (
          sym (append-nil w.sink.written) ∙ ap (λ b. w.sink.written ++ b) (sym (no_bytes bytes z)),
          record { sound = e; seen = refl; state_is = refl },
        ))
        (λ z.
          subst (λ o. P (either o.0 (λ x. err (stream x)) (ok tt), record w1 { sink = o.1 }))
            (sym (write_all w.sink bytes e))
            (refl, record { sound = refl; seen = refl; state_is = refl }))
    where
      no_bytes : (b : Bytes) → (length b == 0) ≡ true → b ≡ []
      no_bytes [] e = refl
      no_bytes (x ∷ b) e = absurd (ground arith)

  written_payload :
      (w : W d) (p : Bytes)
      → w.sink.faults ≡ []
      → let w' = (write_payload d w p).1 in
        let s = state_of d w.cached_packet in
        (w'.sink.written ≡ w.sink.written ++ bytes_of (d.unmarshal s p).0)
        × IsOpen w' (d.unmarshal s p).1
  written_payload w p e =
      let s : d.State = state_of d w.cached_packet in
      written_data w (d.unmarshal s p).1 (d.unmarshal s p).0 e

  -- The three ways through `WriteRTP`.
  passed_over :
      (w : W d) (p : Bytes) → (length p == 0) ≡ true → (write_rtp d is_key_frame w p).1 ≡ w
  unfolding write_rtp
  passed_over w p z = rw z refl

  discarded :
      (w : W d) (p : Bytes)
      → (length p == 0) ≡ false
      → (not w.has_key_frame && not (is_key_frame p)) ≡ true
      → (write_rtp d is_key_frame w p).1 ≡ w
  unfolding write_rtp
  discarded w p z shut = rw (z, shut) refl

  let_through :
      (w : W d) (p : Bytes)
      → (length p == 0) ≡ false
      → (not w.has_key_frame && not (is_key_frame p)) ≡ false
      → (write_rtp d is_key_frame w p).1 ≡ (write_payload d w p).1
  unfolding write_rtp
  let_through w p z opened = rw (z, opened) refl

  after_payload :
      (w : W d) (s : d.State) (p : Bytes) (ps : List Bytes)
      → w.sink.faults ≡ []
      → state_of d w.cached_packet ≡ s
      → ((v : W d) (t : d.State)
          → IsOpen v t
          → (run v ps).sink.written ≡ v.sink.written ++ depacketized t (full ps))
      → (run (write_payload d w p).1 ps).sink.written
        ≡ w.sink.written ++ depacketized s (p ∷ full ps)
  after_payload w s p ps sound state more =
      let (bytes, opened) = written_payload w p sound in
      let s0 : d.State = state_of d w.cached_packet in
      more (write_payload d w p).1 (d.unmarshal s0 p).1 opened
      ∙ (ap (λ b. b ++ depacketized (d.unmarshal s0 p).1 (full ps)) bytes
          ∙ (append_assoc w.sink.written (bytes_of (d.unmarshal s0 p).0)
                (depacketized (d.unmarshal s0 p).1 (full ps))
              ∙ ap (λ t. w.sink.written ++ depacketized t (p ∷ full ps)) state))

  open_run :
      (w : W d) (s : d.State) (ps : List Bytes)
      → IsOpen w s
      → (run w ps).sink.written ≡ w.sink.written ++ depacketized s (full ps)
  unfolding write_rtp
  open_run w s [] o = sym (append-nil w.sink.written)
  open_run w s (p ∷ ps) o = elim (Bool-cases (length p == 0)) [
    | inl z ↦
        ap (λ v. (run v ps).sink.written) (passed_over w p z)
        ∙ (open_run w s ps o
            ∙ ap (λ b. w.sink.written ++ depacketized s (if b then full ps else p ∷ full ps))
                (sym z))
    | inr z ↦
        ap (λ v. (run v ps).sink.written)
          (let_through w p z (ap (λ b. not b && not (is_key_frame p)) o.seen))
        ∙ (after_payload w s p ps o.sound o.state_is (λ v t. open_run v t ps)
            ∙ ap (λ b. w.sink.written ++ depacketized s (if b then full ps else p ∷ full ps))
                (sym z))
  ]

  shut_and_key : (seen key : Bool) → key ≡ true → (not seen && not key) ≡ false
  shut_and_key true key e = refl
  shut_and_key false key e = ap not e

  -- A writer that has not seen a key frame, on an output without faults, writes what the depacketizer
  -- makes, from the state that it is in, of the packets from the first key frame on, the empty ones left out: nothing of what comes
  -- before, and all of what follows, whatever it is.
  pub run-from_key_frame :
      (w : W d) (ps : List Bytes)
      → w.sink.faults ≡ []
      → w.has_key_frame ≡ false
      → (run w ps).sink.written
        ≡ w.sink.written ++ depacketized (state_of d w.cached_packet) (from_key_frame (full ps))
  unfolding write_rtp
  run-from_key_frame w [] e shut = sym (append-nil w.sink.written)
  run-from_key_frame w (p ∷ ps) e shut = elim (Bool-cases (length p == 0)) [
    | inl z ↦
        ap (λ v. (run v ps).sink.written) (passed_over w p z)
        ∙ (run-from_key_frame w ps e shut
            ∙ ap
                (λ b.
                  w.sink.written
                  ++ depacketized s0 (from_key_frame (if b then full ps else p ∷ full ps)))
                (sym z))
    | inr z ↦ elim (Bool-cases (is_key_frame p)) [
      | inl key ↦
          ap (λ v. (run v ps).sink.written)
            (let_through w p z (shut_and_key w.has_key_frame (is_key_frame p) key))
          ∙ (after_payload w s0 p ps e refl (λ v t. open_run v t ps)
              ∙ (ap
                    (λ b.
                      w.sink.written
                      ++ depacketized s0 (if b then p ∷ full ps else from_key_frame (full ps)))
                    (sym key)
                  ∙ ap
                      (λ b.
                        w.sink.written
                        ++ depacketized s0 (from_key_frame (if b then full ps else p ∷ full ps)))
                      (sym z)))
      | inr plain ↦
          ap (λ v. (run v ps).sink.written)
            (discarded w p z (ap (λ b. not b && not (is_key_frame p)) shut ∙ ap not plain))
          ∙ (run-from_key_frame w ps e shut
              ∙ (ap
                    (λ b.
                      w.sink.written
                      ++ depacketized s0 (if b then p ∷ full ps else from_key_frame (full ps)))
                    (sym plain)
                  ∙ ap
                      (λ b.
                        w.sink.written
                        ++ depacketized s0 (from_key_frame (if b then full ps else p ∷ full ps)))
                      (sym z)))
    ]
  ]
    where
      s0 : d.State
      s0 = state_of d w.cached_packet
