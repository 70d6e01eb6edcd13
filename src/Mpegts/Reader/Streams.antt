-- ===== src/Mpegts/Reader/Streams.antt =====
-- mpegts/reader.go: lookups in the map of a Reader's streams behind a write through a pointer.
use format.Prelude.{ℕ, ◌≡◌, ◌≢◌, refl, arith, none, some, Option-cases, List, [], ◌∷◌, inl, inr}
use format.Mpegts.Reader.{EsStream, find_stream, update_stream}

module _ (pid : ℕ) where
  pub find_stream-update_stream :
      (new : EsStream) (order : List EsStream)
      → new.track.pid ≡ pid
      → find_stream pid order ≢ none
      → find_stream pid (update_stream pid new order) ≡ some new
  unfolding find_stream update_stream
  find_stream-update_stream new [] e h = absurd (h refl)
  find_stream-update_stream new (s ∷ ss) e h = elim (Option-cases (find_stream pid ss)) [
    | inl gone ↦ ground arith
    | inr (t, found) ↦
        rw (found, update_stream) (rw (find_stream-update_stream new ss e (λ x. cc)) refl)
  ]

  pub update_stream-update_stream :
      (new old : EsStream) (order : List EsStream)
      → old.track.pid ≡ pid
      → update_stream pid new (update_stream pid old order) ≡ update_stream pid new order
  unfolding find_stream update_stream
  update_stream-update_stream new old [] e = refl
  update_stream-update_stream new old (s ∷ ss) e = elim (Option-cases (find_stream pid ss)) [
    | inl gone ↦ ground arith
    | inr (t, found) ↦
        let kept : find_stream pid (update_stream pid old ss) ≡ some old =
          find_stream-update_stream old ss e (λ x. cc) in
        ground (arith, update_stream-update_stream new old ss e, kept)
  ]

  pub find_stream-update_stream_other :
      (q : ℕ) (new : EsStream) (order : List EsStream)
      → new.track.pid ≡ pid
      → q ≢ pid
      → find_stream q (update_stream pid new order) ≡ find_stream q order
  unfolding find_stream update_stream
  find_stream-update_stream_other q new [] e ne = refl
  find_stream-update_stream_other q new (s ∷ ss) e ne =
      let others = find_stream-update_stream_other q new ss e ne in
      elim (Option-cases (find_stream pid ss)) [
        | inl gone ↦ ground arith
        | inr (t, found) ↦ rw (found, update_stream) (rw others refl)
      ]
