-- ===== src/MediaRequests/Exclusive.antt =====
-- bots/models.py, BotMediaRequestManager: the requests of the table that are playing.
use attendee.Base.{
  ℕ, ◌≤◌, ◌≡◌, ◌⊎◌, Bool, true, false, List, [], ◌∷◌, arith, any, Bool-cases, inl, inr, count, ◌==◌,
  if◌then◌else◌,
}
use attendee.Base.Outcome.{require, ◌>>◌, ok, raise, Ensures}
use attendee.Errors.{value_error, Result}
use attendee.MediaRequests.{
  MediaRequestState, MediaRequest, is, plays, conflicts, write, Saved, save_request,
  set_media_request_playing, set_media_request_finished, set_media_request_failed_to_play,
  set_media_request_dropped,
}

-- The identifiers of the table are distinct.
abbrev pub IsKeyed : List MediaRequest → Type 0
IsKeyed [] = Unit
IsKeyed (r ∷ rs) = (any (λ s. s.id == r.id) rs ≡ false) × IsKeyed rs

-- For every bot and kind of media at most one request is playing.
abbrev pub IsExclusive : List MediaRequest → Type 0
IsExclusive table = (bot kind : ℕ) → count (plays bot kind) table ≤ 1

-- The public operations of `BotMediaRequestManager`.
pub data Call : Type 0 where
  start finish fail drop : Call

unfoldable pub call : Call → MediaRequest → List MediaRequest → Result Saved
unfolding set_media_request_playing set_media_request_finished set_media_request_failed_to_play
    set_media_request_dropped
call start m table = set_media_request_playing m table
call finish m table = set_media_request_finished m table
call fail m table = set_media_request_failed_to_play m table
call drop m table = set_media_request_dropped m table

other_key :
    (k : ℕ) (m : MediaRequest) (table : List MediaRequest)
    → (m.id == k) ≡ false
    → any (λ s. s.id == k) table ≡ false
    → any (λ s. s.id == k) (write m table) ≡ false
other_key k m [] h g = ground arith
other_key k m (r ∷ rs) h g = ground (arith, other_key k m rs)

write-IsKeyed :
    (m : MediaRequest) (table : List MediaRequest) → IsKeyed table → IsKeyed (write m table)
write-IsKeyed m [] keyed = ground arith
write-IsKeyed m (r ∷ rs) keyed = ground (arith, write-IsKeyed m rs, other_key r.id m rs)

none_plays :
    (bot kind : ℕ) (m : MediaRequest) (table : List MediaRequest)
    → any (λ s. s.id == m.id) table ≡ false
    → any (conflicts m) table ≡ false
    → plays bot kind m ≡ true
    → count (plays bot kind) table ≡ 0
none_plays bot kind m [] others free h = ground arith
none_plays bot kind m (r ∷ rs) others free h = ground (arith, none_plays bot kind m rs)

-- Where no other row plays, the rows that play are those of the identifier.
count-write :
    (bot kind : ℕ) (m : MediaRequest) (table : List MediaRequest)
    → IsKeyed table
    → any (conflicts m) table ≡ false
    → plays bot kind m ≡ true
    → count (plays bot kind) (write m table) ≡ 1
count-write bot kind m [] keyed free h = ground arith
count-write bot kind m (r ∷ rs) keyed free h =
    ground (arith, count-write bot kind m rs, none_plays bot kind m rs)

count-write_idle :
    (bot kind : ℕ) (m : MediaRequest) (table : List MediaRequest)
    → plays bot kind m ≡ false
    → count (plays bot kind) (write m table) ≤ count (plays bot kind) table
count-write_idle bot kind m [] h = ground arith
count-write_idle bot kind m (r ∷ rs) h = ground (arith, count-write_idle bot kind m rs h)

save_request-IsExclusive :
    (m : MediaRequest) (table : List MediaRequest)
    → IsKeyed table
    → IsExclusive table
    → Ensures (λ s. IsKeyed s.1 × IsExclusive s.1) (save_request m table)
unfolding save_request
save_request-IsExclusive m table keyed exclusive = elim (Bool-cases (any (conflicts m) table)) [
  | inl taken ↦ rw taken tt
  | inr free ↦ rw free (
    write-IsKeyed m table keyed,
    λ bot kind. elim (Bool-cases (plays bot kind m)) [
      | inl on ↦ ground (arith, count-write bot kind m table keyed free on)
      | inr off ↦ ground (arith, count-write_idle bot kind m table off, exclusive bot kind)
    ],
  )
]

guarded-IsExclusive :
    (already allowed : Bool) (m m' : MediaRequest) (table : List MediaRequest)
    → IsKeyed table
    → IsExclusive table
    → Ensures
        (λ s. IsKeyed s.1 × IsExclusive s.1)
        (if already then ok (m, table) else (require allowed value_error >> save_request m' table))
guarded-IsExclusive true allowed m m' table keyed exclusive = (keyed, exclusive)
guarded-IsExclusive false true m m' table keyed exclusive =
    save_request-IsExclusive m' table keyed exclusive
guarded-IsExclusive false false m m' table keyed exclusive = tt

call-IsExclusive :
    (c : Call) (m : MediaRequest) (table : List MediaRequest)
    → IsKeyed table
    → IsExclusive table
    → Ensures (λ s. IsKeyed s.1 × IsExclusive s.1) (call c m table)
unfolding call
call-IsExclusive start m table keyed exclusive =
    guarded-IsExclusive _ _ m (record m { state = MediaRequestState.playing }) table keyed exclusive
call-IsExclusive finish m table keyed exclusive =
    guarded-IsExclusive _ _ m (record m { state = MediaRequestState.finished }) table keyed
      exclusive
call-IsExclusive fail m table keyed exclusive =
    guarded-IsExclusive _ _ m (record m { state = MediaRequestState.failed_to_play }) table keyed
      exclusive
call-IsExclusive drop m table keyed exclusive =
    guarded-IsExclusive _ _ m (record m { state = MediaRequestState.dropped }) table keyed exclusive

-- The state in which each operation leaves a request.
abbrev pub target : Call → MediaRequestState
target start = MediaRequestState.playing
target finish = MediaRequestState.finished
target fail = MediaRequestState.failed_to_play
target drop = MediaRequestState.dropped

-- The states from which it may.
abbrev pub may_move : Call → MediaRequestState → Bool
may_move start MediaRequestState.enqueued = true
may_move finish MediaRequestState.playing = true
may_move fail MediaRequestState.playing = true
may_move drop MediaRequestState.enqueued = true
may_move drop MediaRequestState.playing = true
may_move c s = false

abbrev pub moved : Call → MediaRequest → MediaRequest
moved c m = record m { state = target c }

-- What an operation may do: nothing to a request that is there already; a move that is allowed, of this
-- row only, if no other request of the bot and kind plays; or an exception in all other cases.
abbrev pub IsStep : Call → MediaRequest → List MediaRequest → Result Saved → Type 0
IsStep c m table (ok s) =
    (m.state ≡ target c) × (s.0 ≡ m) × (s.1 ≡ table)
    ⊎ (may_move c m.state ≡ true)
      × (any (conflicts (moved c m)) table ≡ false)
      × (s.0 ≡ moved c m)
      × (s.1 ≡ write (moved c m) table)
IsStep c m table (raise e) =
    (is m.state (target c) ≡ false)
    × ((may_move c m.state ≡ false) ⊎ (any (conflicts (moved c m)) table ≡ true))

call-IsStep :
    (c : Call) (m : MediaRequest) (table : List MediaRequest) → IsStep c m table (call c m table)
unfolding call save_request set_media_request_playing set_media_request_finished
    set_media_request_failed_to_play set_media_request_dropped
call-IsStep start m table = ground arith
call-IsStep finish m table = ground arith
call-IsStep fail m table = ground arith
call-IsStep drop m table = ground arith

-- An operation on a request in memory does nothing if the request is in the operation's target state
-- already, moves it there if its state allows that and no other request of the bot and kind plays, and
-- writes that row alone, and raises in all other cases. What it returns has distinct identifiers and,
-- for each bot and kind of media, at most one request playing, if the table had.
pub call-IsCarriedOut :
    (c : Call) (m : MediaRequest) (table : List MediaRequest)
    → IsKeyed table
    → IsExclusive table
    → IsStep c m table (call c m table)
      × Ensures (λ s. IsKeyed s.1 × IsExclusive s.1) (call c m table)
call-IsCarriedOut c m table keyed exclusive =
    (call-IsStep c m table, call-IsExclusive c m table keyed exclusive)
