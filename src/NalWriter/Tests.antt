-- ===== src/NalWriter/Tests.antt =====
-- The theorem on the writers of NAL units at a concrete input.
use format.Prelude.{◌≡◌, refl, Bool, List, [], ◌∷◌, ◌++◌, ◌==◌, Bytes, none, some}
use format.Prelude.Words.{byte_at}
use format.NalWriter.{Depacketizer, W, new_with, state_of}
use format.NalWriter.Gate.{run, depacketized, from_key_frame, full, run-from_key_frame}

-- Puts a start code in front of a packet, and refuses none.
abbrev start_codes : Depacketizer
start_codes = record { State = Unit; fresh = tt; unmarshal = λ s p. (some (0 ∷ 0 ∷ 1 ∷ p), s) }

abbrev begins : Bytes → Bool
begins p = byte_at p 0 == 7

abbrev a_writer : W start_codes
a_writer = new_with start_codes (record { written = []; faults = [] }) none

abbrev payloads : List Bytes
payloads = (1 ∷ []) ∷ [] ∷ (7 ∷ 2 ∷ []) ∷ (1 ∷ 3 ∷ []) ∷ []

run-from_key_frame_example :
    (run start_codes begins a_writer payloads).sink.written
    ≡ a_writer.sink.written
      ++ depacketized start_codes begins
          (state_of start_codes a_writer.cached_packet)
          (from_key_frame start_codes begins (full start_codes begins payloads))
run-from_key_frame_example = run-from_key_frame start_codes begins a_writer payloads refl refl
