-- ===== src/Ogg/Multi/History.antt =====
-- oggwriter/oggwriter.go: the tracks of a `Writer` over a history of calls.
use format.Prelude.{
  ℕ, ◌≡◌, refl, ap, arith, false, List, [], ◌∷◌, Bytes, Option, none, some, Result, ok, err,
  then_ok, bind_ok, reject_if,
}
use mathlib.Core.Path.{subst}
use format.Ogg.OpusTags.{validate_opus_tags}
use format.Ogg.Errors.{Error, output_not_opened, tracks_started, duplicate_track_ssrc}
use format.Ogg.Options.{TrackOption, TrackConfig, WriterOption, apply_writer_options}
use format.Ogg.Track.{Output, Packet}
use format.Ogg.Multi.{
  Entry, Writer, has_ssrc, serial_in_use, allocate_serial, choose_serial, new_track_config,
  add_with, add_checked, new_track, write_rtp_multi, close_multi, new_writer,
}
use format.Ogg.Multi.Distinct.{
  IsDistinct, IsDistinct-snoc, same_names, write_rtp_multi-Same, close_multi-Same,
}

-- The writer behind `NewTrack`; a call that draws on has done nothing yet.
abbrev writer_of : Writer → Option (Result Error (Unit {0}) × Writer) → Writer
writer_of w none = w
writer_of w (some o) = o.1

allocate_serial_lem :
    (randoms : List ℕ) (es : List Entry) (serial : ℕ)
    → allocate_serial randoms es ≡ some serial
    → serial_in_use serial es ≡ false
allocate_serial_lem [] es serial e = absurd (cc e)
allocate_serial_lem (r ∷ rs) es serial e = ground (arith, allocate_serial_lem rs es serial)

choose_serial_lem :
    (randoms : List ℕ) (c : TrackConfig) (es : List Entry) (serial : ℕ)
    → choose_serial randoms c es ≡ some (ok serial)
    → serial_in_use serial es ≡ false
choose_serial_lem randoms c es serial e = ground (arith, allocate_serial_lem randoms es serial)

add_with-IsDistinct :
    (w : Writer) (ssrc : ℕ) (c : TrackConfig) (chosen : Option (Result Error ℕ))
    → has_ssrc ssrc w.track_order ≡ false
    → ((serial : ℕ) → chosen ≡ some (ok serial) → serial_in_use serial w.track_order ≡ false)
    → IsDistinct w.track_order
    → IsDistinct (writer_of w (add_with w ssrc c chosen)).track_order
add_with-IsDistinct w ssrc c none new fresh h = h
add_with-IsDistinct w ssrc c (some (err e)) new fresh h = h
add_with-IsDistinct w ssrc c (some (ok serial)) new fresh h =
    IsDistinct-snoc w.track_order _ h new (fresh serial refl)

checked_new :
    (w : Writer) (ssrc : ℕ) (opts : List TrackOption) (c : TrackConfig)
    → new_track_config w ssrc opts ≡ ok c
    → has_ssrc ssrc w.track_order ≡ false
checked_new w ssrc opts c e =
    let (a, e1) = then_ok {m = reject_if w.is_closed output_not_opened} e in
    let (b, e2) = then_ok {m = reject_if w.started tracks_started} e1 in
    let (d, e3) = then_ok {m = reject_if (has_ssrc ssrc w.track_order) duplicate_track_ssrc} e2 in
    ground (arith, d)

new_track-IsDistinct :
    (randoms : List ℕ) (w : Writer) (ssrc : ℕ) (opts : List TrackOption)
    → IsDistinct w.track_order
    → IsDistinct (writer_of w (new_track randoms w ssrc opts)).track_order
unfolding new_track
new_track-IsDistinct randoms w ssrc opts h = by_config (new_track_config w ssrc opts) refl
  where
    by_config :
        (m : Result Error TrackConfig)
        → new_track_config w ssrc opts ≡ m
        → IsDistinct (writer_of w (add_checked randoms w ssrc m)).track_order
    by_config (err e) is = h
    by_config (ok c) is =
        add_with-IsDistinct w ssrc c (choose_serial randoms c w.track_order)
          (checked_new w ssrc opts c is) (choose_serial_lem randoms c w.track_order) h

-- The calls of a client, each with the random numbers it may draw.
pub data Call : Type 0 where
  tracks : List ℕ → ℕ → List TrackOption → Call
  packets : ℕ → Option Packet → Call
  closes : Call

module _ (unmarshal : Bytes → Option Bytes) where
  abbrev pub step : Writer → Call → Writer
  step w (tracks randoms ssrc opts) = writer_of w (new_track randoms w ssrc opts)
  step w (packets ssrc packet) = (write_rtp_multi unmarshal w ssrc packet).1
  step w closes = (close_multi w).1

  abbrev pub run : Writer → List Call → Writer
  run w [] = w
  run w (c ∷ cs) = run (step w c) cs

  step-IsDistinct :
      (w : Writer) (c : Call) → IsDistinct w.track_order → IsDistinct (step w c).track_order
  step-IsDistinct w (tracks randoms ssrc opts) h = new_track-IsDistinct randoms w ssrc opts h
  step-IsDistinct w (packets ssrc packet) h =
      same_names w.track_order _ (write_rtp_multi-Same unmarshal w ssrc packet) h
  step-IsDistinct w closes h = same_names w.track_order _ (close_multi-Same w) h

  run-IsDistinct :
      (w : Writer) (cs : List Call) → IsDistinct w.track_order → IsDistinct (run w cs).track_order
  run-IsDistinct w [] h = h
  run-IsDistinct w (c ∷ cs) h = run-IsDistinct (step w c) cs (step-IsDistinct w c h)

  -- Over any history of calls of `NewTrack`, `WriteRTP` and `Close`, on a writer that `NewWriter` makes,
  -- whatever their options, random numbers and outcomes, no two tracks of a writer share an SSRC or a serial number.
  pub run-new_writer-IsDistinct :
      (out : Output) (opts : List WriterOption) (w : Writer) (cs : List Call)
      → new_writer out opts ≡ ok w
      → IsDistinct (run w cs).track_order
  unfolding new_writer
  run-new_writer-IsDistinct out opts w cs e =
      let (c, options, e1) = bind_ok (apply_writer_options opts _) e in
      let (valid, e2) = then_ok {m = validate_opus_tags c.opus_tags} e1 in
      let none : [] ≡ w.track_order =
        ap (λ (r : Result Error Writer). elim r [ err x ↦ [] | ok v ↦ v.track_order ]) e2 in
      run-IsDistinct w cs (subst IsDistinct none tt)
