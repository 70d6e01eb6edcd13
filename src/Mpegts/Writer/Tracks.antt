-- ===== src/Mpegts/Writer/Tracks.antt =====
-- mpegts/writer.go: the tracks of a Writer that `NewWriter` gives out.
use format.Prelude.{
  ℕ, ◌<◌, ◌≤◌, ◌≡◌, ◌≢◌, refl, sym, ap, ◌∙◌, arith, ◌||◌, none, some, List, [], ◌∷◌, ◌++◌,
  append_assoc, append-nil, ltb, ◌==◌, length, map, ◌-◌, All, All-append, Result, ok, err, ◌>>=◌,
  reject_if,
}
use format.Prelude.Io.{Sink}
use format.Mpegts.Errors.{Error, no_tracks, psi_too_large}
use format.Mpegts.Packet.{packet_size}
use format.Mpegts.Pat.{marshal_pat}
use format.Mpegts.Pmt.{marshal_pmt}
use format.Mpegts.Track.{Codec, Track}
use format.Mpegts.Writer.{
  Writer, by_pid, with_track, with_tracks, new_writer, writer_pmt_pid, the_program, first_pid,
  pmt_entry,
}

-- A PID that `withTrack` takes.
pub record IsFree (pid : ℕ) : Type 0 where
  pub low : 0x20 ≤ pid
  pub high : pid ≤ 0x1FFE
  pub not_pmt : pid ≢ writer_pmt_pid

-- Every track is the one that is found under its PID.
abbrev pub Indexed : List Track → List Track → Type 0
Indexed all tracks = All (λ t. by_pid t.pid all ≡ some t) tracks

-- No two tracks of a list have the same PID.
abbrev pub Apart : List Track → Type 0
Apart [] = Unit {0}
Apart (t ∷ ts) = All (λ u. t.pid ≢ u.pid) ts × Apart ts

by_pid-absent :
    (pid : ℕ) (tracks : List Track) → by_pid pid tracks ≡ none → All (λ u. u.pid ≢ pid) tracks
unfolding by_pid
by_pid-absent pid [] h = tt
by_pid-absent pid (x ∷ xs) h = let rest = by_pid-absent pid xs in ground arith

Apart-snoc :
    (t : Track) (tracks : List Track)
    → All (λ u. u.pid ≢ t.pid) tracks
    → Apart tracks
    → Apart (tracks ++ (t ∷ []))
Apart-snoc t [] h v = (tt, tt)
Apart-snoc t (x ∷ xs) (new, news) (far, v) =
    (All-append (λ u. x.pid ≢ u.pid) xs (t ∷ []) far (new, tt), Apart-snoc t xs news v)

by_pid-append :
    (pid : ℕ) (t u : Track) (tracks : List Track)
    → by_pid pid tracks ≡ some u
    → by_pid pid (tracks ++ (t ∷ [])) ≡ some u
unfolding by_pid
by_pid-append pid t u [] h = cc h
by_pid-append pid t u (x ∷ xs) h = let rest = by_pid-append pid t u xs in ground arith

by_pid-last :
    (t : Track) (tracks : List Track)
    → by_pid t.pid tracks ≡ none
    → by_pid t.pid (tracks ++ (t ∷ [])) ≡ some t
unfolding by_pid
by_pid-last t [] h = ground arith
by_pid-last t (x ∷ xs) h = let rest = by_pid-last t xs in ground arith

Indexed-append :
    (t : Track) (all tracks : List Track) → Indexed all tracks → Indexed (all ++ (t ∷ [])) tracks
Indexed-append t all [] h = tt
Indexed-append t all (x ∷ xs) (h, hs) = (by_pid-append x.pid t x all h, Indexed-append t all xs hs)

-- What a track that is taken tells.
with_track-ok :
    (codec : Codec) (pid : ℕ) (tracks more : List Track)
    → with_track codec pid tracks ≡ ok more
    → IsFree pid
      × (by_pid pid tracks ≡ none)
      × (more ≡ tracks ++ (record { pid = pid; codec = codec } ∷ []))
unfolding with_track
with_track-ok codec pid tracks more h = ground arith

-- The next option is taken, or the loop ends with its error.
with_tracks-ok :
    (tracks : List Track) (opt : Track) (opts out : List Track)
    → with_tracks tracks (opt ∷ opts) ≡ ok out
    → (more : List Track) × (with_track opt.codec opt.pid tracks ≡ ok more)
      × (with_tracks more opts ≡ ok out)
unfolding with_tracks
with_tracks-ok tracks opt opts out h = split (with_track opt.codec opt.pid tracks) h
  where
    split :
        (r : Result Error (List Track))
        → (r >>= λ more. with_tracks more opts) ≡ ok out
        → (more : List Track) × (r ≡ ok more) × (with_tracks more opts ≡ ok out)
    split (ok more) h = (more, refl, h)
    split (err e) h = cc h

with_tracks_lem :
    (tracks opts out : List Track)
    → Indexed tracks tracks
    → Apart tracks
    → with_tracks tracks opts ≡ ok out
    → (out ≡ tracks ++ opts) × All (λ t. IsFree t.pid) opts × Indexed out out × Apart out
unfolding with_tracks
with_tracks_lem tracks [] out v far h =
    let same : tracks ≡ out = cc h in
    (sym same ∙ sym (append-nil tracks), tt, rw same at v, rw same at far)
with_tracks_lem tracks (t ∷ opts) out v far h =
    let (more, taken, later) = with_tracks-ok tracks t opts out h in
    let (free, absent, is_more) = with_track-ok t.codec t.pid tracks more taken in
    let more_v : Indexed more more = rw is_more (
      All-append (λ u. by_pid u.pid (tracks ++ (t ∷ [])) ≡ some u) tracks (t ∷ [])
        (Indexed-append t tracks tracks v) (by_pid-last t tracks absent, tt)) in
    let more_far : Apart more =
      rw is_more (Apart-snoc t tracks (by_pid-absent t.pid tracks absent) far) in
    let (whole, all, indexed, apart) = with_tracks_lem more opts out more_v more_far later in
    (
      whole ∙ ap (λ (l : List Track). l ++ opts) is_more ∙ append_assoc tracks (t ∷ []) opts,
      (free, all),
      indexed,
      apart,
    )

-- A chain that ends well went well at its first step.
first_ok :
    {A B : Type 0} (f : A → Result Error B) (b : B) (m : Result Error A)
    → (m >>= f) ≡ ok b
    → (a : A) × (m ≡ ok a) × (f a ≡ ok b)
first_ok f b (err e) h = cc h
first_ok f b (ok a) h = (a, refl, h)

same_value : {A : Type 0} (a b : A) → ◌≡◌ {A = Result Error A} (ok a) (ok b) → a ≡ b
same_value a b h = cc h

not_empty : (n : ℕ) → reject_if (n == 0) no_tracks ≡ ok tt → 0 < n
not_empty n h = ground arith

-- A Writer that `NewWriter` gives out has the tracks of its options, one at least, in order. Their PIDs are
-- from 0x20 to 0x1FFE and not the one of the program map table, no two are the same, each track is the
-- one found under its PID, and every counter is 0.
pub new_writer-tracks :
    (dst : Sink) (opts : List Track) (w : Writer)
    → new_writer dst opts ≡ ok w
    → (w.tracks ≡ opts)
      × (0 < length opts)
      × All (λ t. IsFree t.pid) opts
      × Indexed w.tracks w.tracks
      × Apart w.tracks
      × ((pid : ℕ) → w.cc pid ≡ 0)
unfolding new_writer
new_writer-tracks dst opts w h =
    let (tracks, taken, h1) = first_ok _ w (with_tracks [] opts) h in
    let (u, some_track, h2) = first_ok _ w (reject_if (length tracks == 0) no_tracks) h1 in
    let (pat_raw, p, h3) = first_ok _ w (marshal_pat 1 (the_program ∷ [])) h2 in
    let (pmt_raw, q, h4) =
      first_ok _ w
        (marshal_pmt 1 (record { pcr_pid = first_pid tracks; streams = map pmt_entry tracks }))
        h3 in
    let (v, fits, built) =
      first_ok _ w
        (reject_if
          (ltb (packet_size - 4) (length pat_raw) || ltb (packet_size - 4) (length pmt_raw))
          psi_too_large)
        h4 in
    let (whole, free, indexed, apart) = with_tracks_lem [] opts tracks tt tt taken in
    let same = same_value _ w built in
    let kept : tracks ≡ w.tracks = ap (λ (x : Writer). x.tracks) same in
    (
      sym kept ∙ whole,
      omega (arith, ap (λ (l : List Track). length l) whole, not_empty (length tracks) some_track),
      free,
      rw (sym kept) indexed,
      rw (sym kept) apart,
      λ pid. sym (ap (λ (x : Writer). x.cc pid) same),
    )
