-- ===== src/Summaries/Azure.antt =====
-- bots/tasks/generate_meeting_summary_task.py, _call_azure, and bots/summarization/generation.py: the
-- calls of the language model and their retries.
use mathlib.Core.Path.{subst}
use attendee.Base.{
  ℕ, zero, suc, ◌+◌, ◌-◌, ◌⊎◌, inl, inr, Option-cases, ◌≤◌, ◌≡◌, refl, sym, ap, ◌∙◌, String, Bool,
  true, false, ◌&&◌, Option, none, some, List, [], ◌∷◌, if◌then◌else◌, ltb, is_in, arith,
}
use attendee.Summaries.{Reason}

-- An exception of a request: whether it is a lost connection or a timeout, and the status of the
-- response, if there is one.
pub record RequestException : Type 0 where
  pub unreachable : Bool
  pub status : Option ℕ

-- What one call of `summarize` gives.
pub data Reply : Type 0 where
  text : String → Reply
  truncated : Reply
  request_failed : RequestException → Reply
  crashed : Reply

abbrev pub transient_statuses : List ℕ
transient_statuses = 429 ∷ 500 ∷ 502 ∷ 503 ∷ 504 ∷ []

abbrev pub status_in : Option ℕ → List ℕ → Bool
status_in none statuses = false
status_in (some s) statuses = is_in s statuses

unfoldable pub is_transient : RequestException → Bool
is_transient e = if e.unreachable then true else status_in e.status transient_statuses

unfoldable pub classify_failure : RequestException → Reason
classify_failure e =
    if e.unreachable
    then Reason.unreachable
    else if status_in e.status (401 ∷ 403 ∷ [])
    then Reason.authentication_failed
    else if status_in e.status (404 ∷ [])
    then Reason.deployment_not_found
    else if status_in e.status (400 ∷ [])
    then Reason.request_rejected
    else if status_in e.status (429 ∷ [])
    then Reason.rate_limited
    else if status_in e.status transient_statuses
    then Reason.temporary_error
    else elim e.status [ none ↦ Reason.generation_failed | some s ↦ Reason.http_error s ]

abbrev pub azure_max_attempts : ℕ
azure_max_attempts = 3

-- The loop's variables: whether the concise retry was made, with its messages and its budget, and how
-- many transient errors there were.
pub record Attempts : Type 0 where
  pub concise_tried : Bool
  pub transient_attempts : ℕ

-- What the loop does after a reply: it goes on, or it ends with that reply.
abbrev pub after_reply : Reply → Attempts → Option Attempts
after_reply (text t) a = none
after_reply truncated a = if a.concise_tried then none else some (record a { concise_tried = true })
after_reply (request_failed e) a =
    let a' = record a { transient_attempts = a.transient_attempts + 1 } in
    if is_transient e && ltb a'.transient_attempts azure_max_attempts then some a' else none
after_reply crashed a = none

-- `_call_azure`: the reply that it ends with, none without fuel, and the number of calls. The call
-- with a number is answered by `replies`, which is told whether the concise messages are sent.
unfoldable pub call_azure_loop : (replies : ℕ → Bool → Reply) → ℕ → ℕ → Attempts → Option Reply × ℕ
unfolding is_transient
call_azure_loop replies zero calls a = (none, calls)
call_azure_loop replies (suc fuel) calls a =
    let reply = replies calls a.concise_tried in
    elim (after_reply reply a) [
      | none ↦ (some reply, calls + 1)
      | some a' ↦ call_azure_loop replies fuel (calls + 1) a'
    ]

abbrev pub fresh : Attempts
fresh = record { concise_tried = false; transient_attempts = 0 }

-- Two transient errors and one truncation are retried, so four calls are enough.
unfoldable pub call_azure : (replies : ℕ → Bool → Reply) → Option Reply × ℕ
unfolding call_azure_loop
call_azure replies = call_azure_loop replies 4 0 fresh

-- The retries that are left.
abbrev retries_left : Attempts → ℕ
retries_left a = (if a.concise_tried then 0 else 1) + (2 - a.transient_attempts)

after_reply_retries :
    (r : Reply) (a a' : Attempts) → after_reply r a ≡ some a' → retries_left a' + 1 ≡ retries_left a
after_reply_retries (text t) a a' e = ground arith
after_reply_retries truncated a a' e = ground arith
after_reply_retries (request_failed x) a a' e = ground arith
after_reply_retries crashed a a' e = ground arith

-- The loop ends with the reply to its last call, of which there is at least one.
abbrev pub EndsWith : (ℕ → Bool → Reply) → ℕ → Option Reply × ℕ → Type 0
EndsWith replies most (none, calls) = ⊥
EndsWith replies most (some reply, calls) =
    (1 ≤ calls)
    × (calls ≤ most)
    × ((reply ≡ replies (calls - 1) false) ⊎ (reply ≡ replies (calls - 1) true))

-- The loop after a reply.
next : (ℕ → Bool → Reply) → ℕ → ℕ → Reply → Option Attempts → Option Reply × ℕ
next replies fuel calls reply none = (some reply, calls + 1)
next replies fuel calls reply (some a) = call_azure_loop replies fuel (calls + 1) a

call_azure_loop-eq-next :
    (replies : ℕ → Bool → Reply) (fuel calls : ℕ) (a : Attempts) {o : Option Attempts}
    → let reply = replies calls a.concise_tried in
      after_reply reply a ≡ o
      → call_azure_loop replies (suc fuel) calls a ≡ next replies fuel calls reply o
unfolding call_azure_loop next
call_azure_loop-eq-next replies fuel calls a {o} e =
    unfolded (after_reply (replies calls a.concise_tried) a)
    ∙ ap (next replies fuel calls (replies calls a.concise_tried)) e
  where
    unfolded :
        (x : Option Attempts)
        → (elim x as (λ y. Option Reply × ℕ) [
          | none ↦ (some (replies calls a.concise_tried), calls + 1)
          | some a' ↦ call_azure_loop replies fuel (calls + 1) a'
        ])
          ≡ next replies fuel calls (replies calls a.concise_tried) x
    unfolded none = refl
    unfolded (some a') = refl

call_azure_loop-EndsWith :
    (replies : ℕ → Bool → Reply) (fuel calls most : ℕ) (a : Attempts)
    → retries_left a + 1 ≤ fuel
    → calls + (retries_left a + 1) ≤ most
    → EndsWith replies most (call_azure_loop replies fuel calls a)
unfolding next
call_azure_loop-EndsWith replies zero calls most a enough few = absurd (omega arith)
call_azure_loop-EndsWith replies (suc fuel) calls most a enough few =
    let reply = replies calls a.concise_tried in
    elim (Option-cases (after_reply reply a)) [
      | inl e ↦
          subst (EndsWith replies most) (sym (call_azure_loop-eq-next replies fuel calls a e))
            (ground (arith, few))
      | inr (a', e) ↦
          (let fewer = after_reply_retries reply a a' e in
            subst (EndsWith replies most) (sym (call_azure_loop-eq-next replies fuel calls a e)) (
              call_azure_loop-EndsWith replies fuel (calls + 1) most a'
                (omega (arith, fewer, enough)) (omega (arith, fewer, few))))
    ]

-- Whatever the model replies, _call_azure ends after four calls at most, with the reply to the last of
-- them.
pub call_azure-EndsWith : (replies : ℕ → Bool → Reply) → EndsWith replies 4 (call_azure replies)
unfolding call_azure
call_azure-EndsWith replies =
    call_azure_loop-EndsWith replies 4 0 4 fresh (omega arith) (omega arith)
