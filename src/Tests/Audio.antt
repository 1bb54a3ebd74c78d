-- ===== src/Tests/Audio.antt =====
-- The theorems on buffers of audio, at two speakers of whom one falls silent.
use attendee.Base.{
  zero, suc, ◌*◌, ◌==◌, ◌≡◌, refl, none, List, [], ◌∷◌, ◌++◌, arith, lookup, insert, remove,
}
use attendee.AudioInput.{
  Bytes, Loudness, Detector, Config, Manager, Queued, add_chunk, process_chunks, flush_utterances,
}
use attendee.AudioInput.Conservation.{IsKept, spoken, audio_of}
use attendee.AudioInput.Flushing.{Each, IsHeard, IsShort, ArePast, meeting_end_flushes_all}

-- Loud is what does not begin with a zero.
abbrev detector : Detector
detector = record {
  loudness = λ chunk. elim chunk [
    | [] ↦ Loudness.zero_rms
    | b ∷ rest ↦ elim b [ zero ↦ Loudness.zero_rms | suc n ↦ Loudness.loud ]
  ];
  vad = λ chunk. none;
  playing_time = λ keep. keep * 10;
}

abbrev config : Config
config = record {
  sample_rate = 16000;
  utterance_size_limit = 6;
  silence_duration_limit = 1000;
  split_at_size_limit = none;
  get_participant_callback = λ speaker. speaker == 1;
}

abbrev quiet_manager : Manager
quiet_manager = record { buffers = []; flushed = [] }

abbrev chunks : List Queued
chunks =
    add_chunk 1 40 (8 ∷ 9 ∷ [])
      (add_chunk 2 30 (0 ∷ 0 ∷ []) (add_chunk 1 20 (0 ∷ 1 ∷ []) (add_chunk 1 10 (7 ∷ 5 ∷ []) [])))

no_sound : Each (IsHeard 100) quiet_manager
unfolding lookup
no_sound k = tt

no_audio : Each (IsShort config) quiet_manager
unfolding lookup
no_audio k = tt

past : ArePast 100 chunks
past = (omega arith, (omega arith, (omega arith, (omega arith, tt))))

flushed_at_the_limit :
    spoken 1 (process_chunks detector config 100 chunks quiet_manager).flushed
    ≡ 7 ∷ 5 ∷ 0 ∷ 1 ∷ 8 ∷ 9 ∷ []
unfolding process_chunks lookup insert remove
flushed_at_the_limit = refl

meeting_end_flushes_all_example :
    let m =
      flush_utterances detector config 100
        (process_chunks detector config 100 chunks quiet_manager) in
    (lookup 1 m.buffers ≡ none)
    × ((audio : Bytes) × IsKept detector config 1 chunks audio
        × (spoken 1 m.flushed ≡ audio_of 1 quiet_manager ++ audio))
meeting_end_flushes_all_example =
    meeting_end_flushes_all detector config 100 1 chunks quiet_manager refl past no_sound
