-- ===== src/Server/Commands/Requests.antt =====
-- crates/rdesk_server/src/main.rs: the requests that the server handles while a command waits.
use rdesk.Prelude.{
  ℕ, ◌+◌, ◌≤◌, ◌≡◌, ◌≢◌, inl, inr, refl, Text, text_eq, text_eq_iff, false, Option, none, some,
  List, [], ◌∷◌, arith, All, Bool-cases,
}
use rdesk.Map
use rdesk.Server.State.{AppState, PendingCommand, CommandResult, Payload}
use rdesk.Server.Sessions.{validate_viewer}
use rdesk.Server.Commands.{
  put_queue, pop_front, poll_round, complete_host_command, begin_command, end_command,
}

-- What other requests do to the commands: a request queues one, a host answers one, a host's poll
-- looks at its queue, or a request's wait ends.
pub data Request : Type 0 where
  begins : ℕ → Text → Text → Text → Text → Payload → Request
  completes : ℕ → Text → Text → Text → CommandResult → Request
  polls : ℕ → Text → Request
  ends : Text → Request

unfoldable pub perform : Request → AppState → AppState
perform (begins now device_id token command_id kind payload) s =
    (begin_command now device_id token command_id kind payload s).0
perform (completes now device_id host_token command_id result) s =
    (complete_host_command now device_id host_token command_id result s).0
perform (polls now device_id) s = (poll_round now device_id s).0
perform (ends command_id) s = (end_command command_id s).0

unfoldable pub run : List Request → AppState → AppState
unfolding perform
run [] s = s
run (r ∷ requests) s = run requests (perform r s)

-- Another request, which neither begins nor ends the command of that id. Anyone may answer it.
abbrev pub IsOther : Text → Request → Type 0
IsOther id (begins now device_id token command_id kind payload) = command_id ≢ id
IsOther id (completes now device_id host_token command_id result) = Unit
IsOther id (polls now device_id) = Unit
IsOther id (ends command_id) = command_id ≢ id

-- Another request that does not answer the command either, and if it is a poll it comes within the
-- fifteen seconds for which the command, begun at that time, may wait.
abbrev pub IsSparing : Text → ℕ → Request → Type 0
IsSparing id began (completes now device_id host_token command_id result) = command_id ≢ id
IsSparing id began (polls now device_id) = now ≤ began + 15000
IsSparing id began r = IsOther id r

-- No queue has a command of that id.
abbrev pub IsUnused : Text → AppState → Type 0
IsUnused id s =
    (device_id : Text) (queue : List PendingCommand)
    → Map.get device_id s.command_queues ≡ some queue
    → All (λ c. c.command_id ≢ id) queue

pub text_ne : (a b : Text) → a ≢ b → text_eq a b ≡ false
text_ne a b h = elim (Bool-cases (text_eq a b)) [
  | inl e ↦ absurd (h ((text_eq_iff a b).0 e))
  | inr e ↦ e
]

-- Two states with the same waiters and replies.
pub record SameWaits (s t : AppState) : Type 0 where
  pub waiters : t.command_waiters ≡ s.command_waiters
  pub replies : t.replies ≡ s.replies

pub viewer-waits :
    (now : ℕ) (device_id token : Text) (s : AppState)
    → SameWaits s (validate_viewer now device_id token s).0
unfolding validate_viewer
viewer-waits now device_id token s = record { waiters = ground arith; replies = ground arith }

pub pop_front-waits : (device_id : Text) (s : AppState) → SameWaits s (pop_front device_id s).0
unfolding pop_front put_queue
pop_front-waits device_id s = go (Map.get device_id s.command_queues) refl
  where
    go :
        (o : Option (List PendingCommand))
        → Map.get device_id s.command_queues ≡ o
        → SameWaits s (pop_front device_id s).0
    go none e = record { waiters = ground arith; replies = ground arith }
    go (some []) e = record { waiters = ground arith; replies = ground arith }
    go (some (c ∷ queue)) e = record { waiters = ground arith; replies = ground arith }
