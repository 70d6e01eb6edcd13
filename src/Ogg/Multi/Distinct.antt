-- ===== src/Ogg/Multi/Distinct.antt =====
-- oggwriter/oggwriter.go: the tracks of a `Writer` over a history of calls.
use format.Prelude.{
  ℕ, ◌≡◌, refl, sym, ap, ◌∙◌, arith, Bool, false, not, ◌||◌, List, [], ◌∷◌, ◌++◌, ◌==◌, map,
  if_cases, Bytes, Option, none, some, Result, ok, err, either_cases,
}
use format.Ogg.Errors.{Error}
use format.Ogg.Track.{
  Output, Track, Outcome, Packet, write_track_id_header, write_track_comment_header,
  write_opus_payload, write_nil_end_of_stream_page, opus_payload_from_packet,
}
use format.Ogg.Track.Keeps.{
  Keeps, write_track_id_header-Keeps, write_track_comment_header-Keeps, write_opus_payload-Keeps,
  write_nil_end_of_stream_page-Keeps,
}
use format.Ogg.Multi.{
  Entry, Writer, Passed, has_ssrc, serial_in_use, each_track, start_locked, with_entry,
  write_to_track, written_when_started, written_unpacked, write_rtp_multi, end_tracks, close_multi,
}

-- The SSRC and the serial number of each track.
abbrev pub name : Entry → ℕ × ℕ
name e = (e.ssrc, e.track.serial)

unfoldable pub names : List Entry → List (ℕ × ℕ)
names es = map name es

-- No two tracks share an SSRC or a serial number.
abbrev pub IsDistinct : List Entry → Type 0
IsDistinct [] = Unit {0}
IsDistinct (e ∷ es) =
    (has_ssrc e.ssrc es ≡ false) × (serial_in_use e.track.serial es ≡ false) × IsDistinct es

-- Whether they are distinct is a matter of the names.
abbrev has_name : (ℕ × ℕ → ℕ) → ℕ → List (ℕ × ℕ) → Bool
has_name f x [] = false
has_name f x (n ∷ ns) = f n == x || has_name f x ns

abbrev Names : List (ℕ × ℕ) → Type 0
Names [] = Unit {0}
Names (n ∷ ns) =
    (has_name (λ m. m.0) n.0 ns ≡ false) × (has_name (λ m. m.1) n.1 ns ≡ false) × Names ns

ssrc_named : (x : ℕ) (es : List Entry) → has_ssrc x es ≡ has_name (λ m. m.0) x (map name es)
ssrc_named x [] = refl
ssrc_named x (e ∷ es) = ap (λ b. e.ssrc == x || b) (ssrc_named x es)

serial_named : (x : ℕ) (es : List Entry) → serial_in_use x es ≡ has_name (λ m. m.1) x (map name es)
serial_named x [] = refl
serial_named x (e ∷ es) = ap (λ b. e.track.serial == x || b) (serial_named x es)

IsDistinct-Names : (es : List Entry) → IsDistinct es → Names (map name es)
IsDistinct-Names [] h = tt
IsDistinct-Names (e ∷ es) h = (
  sym (ssrc_named e.ssrc es) ∙ h.0,
  sym (serial_named e.track.serial es) ∙ h.1,
  IsDistinct-Names es h.2,
)

Names-IsDistinct : (es : List Entry) → Names (map name es) → IsDistinct es
Names-IsDistinct [] h = tt
Names-IsDistinct (e ∷ es) h =
    (ssrc_named e.ssrc es ∙ h.0, serial_named e.track.serial es ∙ h.1, Names-IsDistinct es h.2)

pub same_names : (es fs : List Entry) → names fs ≡ names es → IsDistinct es → IsDistinct fs
unfolding names
same_names es fs e h = Names-IsDistinct fs (rw e (IsDistinct-Names es h))

-- The loops keep the names.
each_track-names :
    (f : Output → Track → Outcome) (keeps : (out : Output) (t : Track) → Keeps t (f out t))
    (out : Output) (es : List Entry)
    → names (each_track f out es).entries ≡ names es
unfolding each_track names
each_track-names f keeps out [] = refl
each_track-names f keeps out (e ∷ es) =
    let o : Outcome = f out e.track in
    let same : name (record e { track = o.track }) ≡ name e =
      ap (λ s. (e.ssrc, s)) (keeps out e.track) in
    either_cases (λ (p : Passed). map name p.entries ≡ map name (e ∷ es)) o.result
      (λ x. ap (λ n. n ∷ map name es) same)
      (ap (λ n. n ∷ map name (each_track f o.output es).entries) same
        ∙ ap (λ ns. name e ∷ ns) (each_track-names f keeps o.output es))

with_entry-names :
    (f : Entry → Output → Outcome) (keeps : (e : Entry) (out : Output) → Keeps e.track (f e out))
    (ssrc : ℕ) (out : Output) (es : List Entry)
    → names (with_entry f ssrc out es).entries ≡ names es
unfolding names
with_entry-names f keeps ssrc out [] = refl
with_entry-names f keeps ssrc out (e ∷ es) =
    if_cases (λ (p : Passed). map name p.entries ≡ map name (e ∷ es)) (e.ssrc == ssrc)
      (ap (λ s. (e.ssrc, s) ∷ map name es) (keeps e out))
      (ap (λ ns. name e ∷ ns) (with_entry-names f keeps ssrc out es))

end_tracks-names : (out : Output) (es : List Entry) → names (end_tracks out es).2 ≡ names es
unfolding end_tracks names
end_tracks-names out [] = refl
end_tracks-names out (e ∷ es) =
    let o : Outcome = write_nil_end_of_stream_page out e.track in
    ap (λ s. (e.ssrc, s) ∷ map name (end_tracks o.output es).2)
      (write_nil_end_of_stream_page-Keeps out e.track)
    ∙ ap (λ ns. name e ∷ ns) (end_tracks-names o.output es)

-- A call that adds no track.
abbrev pub Same : Writer → Writer → Type 0
Same w w' = names w'.track_order ≡ names w.track_order

start_locked-Same : (w : Writer) → Same w (start_locked w).1
unfolding start_locked
start_locked-Same w =
    let heads : Passed = each_track write_track_id_header w.output w.track_order in
    let tags : Passed = each_track write_track_comment_header heads.output heads.entries in
    let kept : names heads.entries ≡ names w.track_order =
      each_track-names write_track_id_header write_track_id_header-Keeps w.output w.track_order in
    let kept' : names tags.entries ≡ names w.track_order =
      each_track-names write_track_comment_header write_track_comment_header-Keeps heads.output
        heads.entries
      ∙ kept in
    if_cases (λ (o : Result Error (Unit {0}) × Writer). Same w o.1) w.started refl
      (either_cases (λ (o : Result Error (Unit {0}) × Writer). Same w o.1) heads.result (λ e. kept)
        (either_cases (λ (o : Result Error (Unit {0}) × Writer). Same w o.1) tags.result
          (λ e. kept') kept'))

written-Same :
    (w w' : Writer) (ssrc : ℕ) (payload : Bytes)
    → Same w w'
    → Same w (write_to_track w' ssrc payload).1
written-Same w w' ssrc payload kept =
    with_entry-names (λ e out. write_opus_payload out e.track payload)
      (λ e out. write_opus_payload-Keeps out e.track payload) ssrc w'.output w'.track_order
    ∙ kept

written_when_started-Same :
    (w : Writer) (ssrc : ℕ) (payload : Bytes) (r : Result Error (Unit {0})) (w' : Writer)
    → Same w w'
    → Same w (written_when_started ssrc payload (r, w')).1
written_when_started-Same w ssrc payload (err e) w' kept = kept
written_when_started-Same w ssrc payload (ok u) w' kept = written-Same w w' ssrc payload kept

written_unpacked-Same :
    (w : Writer) (ssrc : ℕ) (m : Result Error (Option Bytes)) → Same w (written_unpacked w ssrc m).1
written_unpacked-Same w ssrc (err e) = refl
written_unpacked-Same w ssrc (ok none) = refl
written_unpacked-Same w ssrc (ok (some payload)) =
    written_when_started-Same w ssrc payload (start_locked w).0 (start_locked w).1
      (start_locked-Same w)

pub write_rtp_multi-Same :
    (unmarshal : Bytes → Option Bytes) (w : Writer) (ssrc : ℕ) (packet : Option Packet)
    → Same w (write_rtp_multi unmarshal w ssrc packet).1
unfolding write_rtp_multi
write_rtp_multi-Same unmarshal w ssrc none =
    if_cases (λ (o : Result Error (Unit {0}) × Writer). Same w o.1) w.is_closed refl refl
write_rtp_multi-Same unmarshal w ssrc (some packet) =
    if_cases (λ (o : Result Error (Unit {0}) × Writer). Same w o.1) w.is_closed refl
      (if_cases (λ (o : Result Error (Unit {0}) × Writer). Same w o.1) (not (packet.ssrc == ssrc))
        refl (written_unpacked-Same w ssrc (opus_payload_from_packet unmarshal (some packet))))

pub close_multi-Same : (w : Writer) → Same w (close_multi w).1
unfolding close_multi
close_multi-Same w =
    let w' : Writer = (start_locked w).1 in
    if_cases (λ (o : List Error × Writer). Same w o.1) w.is_closed refl
      (if_cases (λ (o : List Error × Writer). Same w o.1) w'.output.rewriter (start_locked-Same w)
        (end_tracks-names w'.output w'.track_order ∙ start_locked-Same w))

has_ssrc-snoc :
    (x : ℕ) (es : List Entry) (e : Entry)
    → has_ssrc x es ≡ false
    → (e.ssrc == x) ≡ false
    → has_ssrc x (es ++ e ∷ []) ≡ false
has_ssrc-snoc x [] e h g = rw g refl
has_ssrc-snoc x (d ∷ es) e h g = ground (arith, has_ssrc-snoc x es e)

serial-snoc :
    (x : ℕ) (es : List Entry) (e : Entry)
    → serial_in_use x es ≡ false
    → (e.track.serial == x) ≡ false
    → serial_in_use x (es ++ e ∷ []) ≡ false
serial-snoc x [] e h g = rw g refl
serial-snoc x (d ∷ es) e h g = ground (arith, serial-snoc x es e)

pub IsDistinct-snoc :
    (es : List Entry) (e : Entry)
    → IsDistinct es
    → has_ssrc e.ssrc es ≡ false
    → serial_in_use e.track.serial es ≡ false
    → IsDistinct (es ++ e ∷ [])
IsDistinct-snoc [] e h s t = (refl, refl, tt)
IsDistinct-snoc (d ∷ es) e h s t = (
  has_ssrc-snoc d.ssrc es e h.0 (ground arith),
  serial-snoc d.track.serial es e h.1 (ground arith),
  IsDistinct-snoc es e h.2 (ground arith) (ground arith),
)
