-- ===== src/Tests/Local.antt =====
-- The theorems on local sessions, on audio that is played, and on lineages, at small inputs.
use attendee.Base.{
  ℕ, ◌*◌, ◌/◌, ◌≡◌, refl, ◌⊎◌, true, false, Option, some, List, [], ◌∷◌, ◌++◌, ◌==◌, if◌then◌else◌,
  arith,
}
use attendee.Base.Outcome.{ok, Ensures}
use attendee.LocalSessions.Groups.{Member, Drain, utterance_ids, has_audio, drain_session}
use attendee.LocalSessions.Groups.Closing.{
  sent, emitted, AreFit, new_source, before_last, drain_session_sends,
}
use attendee.LocalSessions.Split.{Loudness, quietest_split_point}
use attendee.LocalSessions.Split.Quietest.{IsQuietSplit, quietest_split_point-IsQuietSplit}
use attendee.AudioOutput.{Manager, add_chunk}
use attendee.AudioOutput.Chunks.{IsQueued, add_chunk-IsQueued}
use attendee.Lineage.{LineageBot, resolve_meeting_lineage}
use attendee.Lineage.Linked.{HasLineage, resolve_meeting_lineage-HasLineage}

abbrev member : ℕ → ℕ → Member
member id start = record {
  utterance_id = id;
  timestamp_ms = start;
  duration_ms = 2000;
  voice_ms = 1500;
  is_size_capped = false;
}

abbrev heard : List Member → ℕ → Drain
heard ms end_offset_ms = record {
  has_segments = true;
  has_tail_audio = true;
  group_members = ms;
  epoch_ms = 0;
  end_offset_ms = end_offset_ms;
}

-- A last drain that finds no segment, and no audio in the tail.
abbrev nothing : Drain
nothing = record (heard [] 11000) { has_segments = false; has_tail_audio = false }

-- The speaker is quiet after the first utterance, so that it is sent alone.
abbrev drains : List Drain
drains = heard (member 1 0 ∷ []) 3000 ∷ heard [] 8000 ∷ heard (member 2 9000 ∷ []) 11000 ∷ []

two_requests :
    sent (drain_session drains (heard (member 3 12000 ∷ []) 14000) new_source).requests
    ≡ 1 ∷ 2 ∷ 3 ∷ []
unfolding drain_session
two_requests = refl

-- The second utterance is held for ever.
one_request : sent (drain_session drains nothing new_source).requests ≡ 1 ∷ []
unfolding drain_session
one_request = refl

drain_session_sends_example :
    let s = drain_session drains nothing new_source in
    (sent s.requests ++ utterance_ids s.group ≡ emitted drains nothing)
    × (s.group ≡ (if has_audio true nothing then [] else (before_last drains new_source).group))
    × AreFit s.requests
drain_session_sends_example = drain_session_sends drains nothing

-- The window that starts at the sixth sample is quiet.
abbrev quiet_at_six : Loudness
quiet_at_six = record {
  rms = λ start window. if start == 6 then 1 else 9;
  silence_rms_threshold = 2;
}

split_in_the_gap : quietest_split_point quiet_at_six 20 1000 8 2 ≡ ok 14
unfolding quietest_split_point
split_in_the_gap = refl

quietest_split_point-IsQuietSplit_example :
    Ensures
      (λ offset.
        (offset ≡ 20)
        ⊎ IsQuietSplit quiet_at_six 20 (20 / 2) (1000 * 2 / 1000) (1000 * 8 / 1000) offset)
      (quietest_split_point quiet_at_six 20 1000 8 2)
quietest_split_point-IsQuietSplit_example =
    quietest_split_point-IsQuietSplit quiet_at_six 20 1000 8 2

abbrev playing : Manager
playing = record { audio_queue = []; inner_chunk_buffer = 1 ∷ []; last_chunk_time = 100 }

add_chunk-IsQueued_example :
    IsQueued 120 (2 ∷ 3 ∷ 4 ∷ 5 ∷ []) 10 playing (add_chunk 120 (2 ∷ 3 ∷ 4 ∷ 5 ∷ []) 10 playing)
add_chunk-IsQueued_example = add_chunk-IsQueued 120 (2 ∷ 3 ∷ 4 ∷ 5 ∷ []) 10 playing (omega arith)

abbrev lineage_bot : ℕ → Option ℕ → LineageBot
lineage_bot id replaces = record {
  id = id;
  object_id = id;
  replaces = replaces;
  meeting_dedup_key = some 4;
  created_at = id;
}

-- Two bots that replaced each other, and one that replaced the second.
abbrev table : List LineageBot
table = lineage_bot 1 (some 2) ∷ lineage_bot 2 (some 1) ∷ lineage_bot 3 (some 2) ∷ []

three_bots : resolve_meeting_lineage table (lineage_bot 2 (some 1)) ≡ some table
unfolding resolve_meeting_lineage
three_bots = refl

resolve_meeting_lineage-HasLineage_example :
    HasLineage (lineage_bot 2 (some 1)) (resolve_meeting_lineage table (lineage_bot 2 (some 1)))
resolve_meeting_lineage-HasLineage_example =
    resolve_meeting_lineage-HasLineage table (lineage_bot 2 (some 1))
