-- ===== src/LocalSessions/Groups/Closing.antt =====
-- bots/local_utterance_group.py and _settle_group of bots/tasks/process_local_audio_segment_task.py: what is
-- sent over a session.
use mathlib.Core.List.{append_assoc, append-nil}
use attendee.Base.{
  ℕ, ◌+◌, ◌-◌, ◌≤◌, ◌≡◌, ◌≢◌, refl, sym, ap, ◌∙◌, Bool, true, false, Option, none, some, List, [],
  ◌∷◌, ◌++◌, not, if◌then◌else◌, length, arith,
}
use attendee.LocalSessions.Groups.{
  Member, CloseReason, Request, request_of, hold_or_send, Source, Drain, utterance_ids,
  shortened_silence_ms, gaps_ms, close_reason, settle_group, has_audio, drain, drain_session,
  silence_since_last_member_ms, max_gap_ms, end_ms,
}

-- The utterances of some requests, in order.
abbrev pub sent : List Request → List ℕ
sent [] = []
sent (r ∷ rs) = r.utterance_ids ++ sent rs

-- The utterances that drains emit, in order.
abbrev pub emitted_by : Bool → Drain → List ℕ
emitted_by is_final d = if has_audio is_final d then utterance_ids d.group_members else []

abbrev pub emitted : List Drain → Drain → List ℕ
emitted [] final = emitted_by true final
emitted (d ∷ ds) final = emitted_by false d ++ emitted ds final

-- A request has utterances, a gap between each two of them, and no gap above the bound.
abbrev pub AreBounded : List ℕ → Type 0
AreBounded [] = Unit
AreBounded (gap ∷ gaps) = (gap ≤ max_gap_ms) × AreBounded gaps

abbrev pub IsFit : Request → Type 0
IsFit r =
    (r.utterance_ids ≢ []) × (length r.gaps_ms + 1 ≡ length r.utterance_ids) × AreBounded r.gaps_ms

abbrev pub AreFit : List Request → Type 0
AreFit [] = Unit
AreFit (r ∷ rs) = IsFit r × AreFit rs

sent-append : (rs qs : List Request) → sent (rs ++ qs) ≡ sent rs ++ sent qs
sent-append [] qs = refl
sent-append (r ∷ rs) qs =
    ap (λ ids. r.utterance_ids ++ ids) (sent-append rs qs)
    ∙ sym (append_assoc r.utterance_ids (sent rs) (sent qs))

AreFit-append : (rs : List Request) (r : Request) → AreFit rs → IsFit r → AreFit (rs ++ r ∷ [])
AreFit-append [] r fit new = (new, tt)
AreFit-append (q ∷ rs) r (old, fit) new = (old, AreFit-append rs r fit new)

utterance_ids-append :
    (ms ns : List Member) → utterance_ids (ms ++ ns) ≡ utterance_ids ms ++ utterance_ids ns
utterance_ids-append [] ns = refl
utterance_ids-append (m ∷ ms) ns = ap (λ ids. m.utterance_id ∷ ids) (utterance_ids-append ms ns)

shortened_silence_bounded : (silence_ms : ℕ) → shortened_silence_ms silence_ms ≤ max_gap_ms
unfolding shortened_silence_ms
shortened_silence_bounded silence_ms = ground arith

gaps-AreBounded :
    (m : Member) (ms : List Member)
    → AreBounded (gaps_ms (m ∷ ms))
      × (length (gaps_ms (m ∷ ms)) + 1 ≡ length (utterance_ids (m ∷ ms)))
unfolding gaps_ms
gaps-AreBounded m [] = (tt, omega arith)
gaps-AreBounded m (n ∷ ms) =
    let (bounded, counted) = gaps-AreBounded n ms in
    ((shortened_silence_bounded (n.timestamp_ms - end_ms m), bounded), omega (arith, counted))

-- A group that is closed has a member.
closed-IsFit :
    (members : List Member) (quiet_ms : ℕ) (is_ended : Bool) (reason : CloseReason)
    → close_reason members quiet_ms is_ended ≡ some reason
    → IsFit (request_of members)
unfolding close_reason
closed-IsFit [] quiet_ms is_ended reason e = absurd (ground (arith, e))
closed-IsFit (m ∷ ms) quiet_ms is_ended reason e =
    let (bounded, counted) = gaps-AreBounded m ms in (λ empty. cc, counted, bounded)

-- All utterances of a source: those that were sent, and then those that are held.
abbrev pub total : Source → List ℕ
total s = sent s.requests ++ utterance_ids s.group

hold_or_send-total :
    (members : List Member) (s : Source) (o : Option CloseReason)
    → total (hold_or_send members s o) ≡ sent s.requests ++ utterance_ids members
hold_or_send-total members s none = refl
hold_or_send-total members s (some reason) =
    append-nil (sent (s.requests ++ request_of members ∷ []))
    ∙ sent-append s.requests (request_of members ∷ [])
    ∙ ap (λ ids. sent s.requests ++ ids) (append-nil (utterance_ids members))

settle-total :
    (d : Drain) (is_ended : Bool) (s : Source)
    → total (settle_group d is_ended s) ≡ total s ++ utterance_ids d.group_members
unfolding settle_group
settle-total d is_ended s =
    let members = s.group ++ d.group_members in
    hold_or_send-total members s (
      close_reason members (silence_since_last_member_ms members d.epoch_ms d.end_offset_ms)
        is_ended)
    ∙ ap (λ ids. sent s.requests ++ ids) (utterance_ids-append s.group d.group_members)
    ∙ sym (append_assoc (sent s.requests) (utterance_ids s.group) (utterance_ids d.group_members))

hold_or_send-AreFit :
    (members : List Member) (s : Source) (o : Option CloseReason)
    → AreFit s.requests
    → ((reason : CloseReason) → o ≡ some reason → IsFit (request_of members))
    → AreFit (hold_or_send members s o).requests
hold_or_send-AreFit members s none fit new = fit
hold_or_send-AreFit members s (some reason) fit new =
    AreFit-append s.requests (request_of members) fit (new reason refl)

settle-AreFit :
    (d : Drain) (is_ended : Bool) (s : Source)
    → AreFit s.requests
    → AreFit (settle_group d is_ended s).requests
unfolding settle_group
settle-AreFit d is_ended s fit =
    let members = s.group ++ d.group_members in
    let quiet_ms = silence_since_last_member_ms members d.epoch_ms d.end_offset_ms in
    hold_or_send-AreFit members s (close_reason members quiet_ms is_ended) fit
      (closed-IsFit members quiet_ms is_ended)

ended_group :
    (members : List Member) (quiet_ms : ℕ) (s : Source)
    → (hold_or_send members s (close_reason members quiet_ms true)).group ≡ []
unfolding close_reason
ended_group [] quiet_ms s = refl
ended_group (m ∷ ms) quiet_ms s = refl

settle_ended : (d : Drain) (s : Source) → (settle_group d true s).group ≡ []
unfolding settle_group
settle_ended d s = ended_group (s.group ++ d.group_members) _ s

drain-total :
    (is_final : Bool) (d : Drain) (s : Source)
    → total (drain is_final d s) ≡ total s ++ emitted_by is_final d
unfolding drain
drain-total is_final d s = ground (arith, settle-total d is_final s, append-nil (total s))

drain-AreFit :
    (is_final : Bool) (d : Drain) (s : Source)
    → AreFit s.requests
    → AreFit (drain is_final d s).requests
unfolding drain
drain-AreFit is_final d s fit =
    elim (has_audio is_final d)
      as (λ b. AreFit (if not b then s else settle_group d is_final s).requests) [
        | true ↦ settle-AreFit d is_final s fit
        | false ↦ fit
      ]

drain_session-total :
    (ds : List Drain) (final : Drain) (s : Source)
    → total (drain_session ds final s) ≡ total s ++ emitted ds final
unfolding drain_session
drain_session-total [] final s = drain-total true final s
drain_session-total (d ∷ ds) final s =
    drain_session-total ds final (drain false d s)
    ∙ ap (λ ids. ids ++ emitted ds final) (drain-total false d s)
    ∙ append_assoc (total s) (emitted_by false d) (emitted ds final)

drain_session-AreFit :
    (ds : List Drain) (final : Drain) (s : Source)
    → AreFit s.requests
    → AreFit (drain_session ds final s).requests
unfolding drain_session
drain_session-AreFit [] final s fit = drain-AreFit true final s fit
drain_session-AreFit (d ∷ ds) final s fit =
    drain_session-AreFit ds final (drain false d s) (drain-AreFit false d s fit)

-- The source before its last drain.
abbrev pub before_last : List Drain → Source → Source
before_last [] s = s
before_last (d ∷ ds) s = before_last ds (drain false d s)

drain_session-group :
    (ds : List Drain) (final : Drain) (s : Source)
    → (drain_session ds final s).group
      ≡ (if has_audio true final then [] else (before_last ds s).group)
unfolding drain_session drain
drain_session-group [] final s = ground (arith, settle_ended final s)
drain_session-group (d ∷ ds) final s = drain_session-group ds final (drain false d s)

-- The source before its first drain.
abbrev pub new_source : Source
new_source = record { group = []; requests = [] }

-- Over the drains of a session and its last one, every utterance that they emit is sent in exactly one
-- request or held in the group at the end, and in order. The group at the end is empty if the last drain
-- finds a segment, or audio in the tail; otherwise it is the group before it, which is not sent. No
-- request is empty, each has one gap fewer than utterances, and no gap is above the bound.
pub drain_session_sends :
    (ds : List Drain) (final : Drain)
    → let s = drain_session ds final new_source in
      (sent s.requests ++ utterance_ids s.group ≡ emitted ds final)
      × (s.group ≡ (if has_audio true final then [] else (before_last ds new_source).group))
      × AreFit s.requests
drain_session_sends ds final = (
  drain_session-total ds final new_source,
  drain_session-group ds final new_source,
  drain_session-AreFit ds final new_source tt,
)
