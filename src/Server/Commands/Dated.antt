-- ===== src/Server/Commands/Dated.antt =====
-- crates/rdesk_server/src/main.rs: the queues while a command waits, and when it was begun.
use rdesk.Prelude.{
  ℕ, ◌≡◌, ◌≢◌, ◌⊎◌, inl, inr, refl, Text, text_eq, Option, none, some, List, [], ◌∷◌, ◌++◌, arith,
  All, All-append, Bool-cases,
}
use rdesk.Map
use rdesk.Map.Laws.{get-insert}
use rdesk.Server.State.{AppState, PendingCommand}
use rdesk.Server.Commands.{put_queue, pop_front, enqueue}

-- A command in a queue is another one, or it is the one of that id, begun at that time.
abbrev pub IsFor : Text → ℕ → PendingCommand → Type 0
IsFor id began c = (c.command_id ≢ id) ⊎ (c.queued_at_ms ≡ began)

abbrev pub IsDated : Text → ℕ → AppState → Type 0
IsDated id began s =
    (device_id : Text) (queue : List PendingCommand)
    → Map.get device_id s.command_queues ≡ some queue
    → All (IsFor id began) queue

module _ (id : Text) (began : ℕ) where
  pub put_queue-IsDated :
      (device_id : Text) (queue : List PendingCommand) (s : AppState)
      → All (IsFor id began) queue
      → IsDated id began s
      → IsDated id began (put_queue device_id queue s)
  unfolding put_queue
  put_queue-IsDated device_id queue s all dated other found e =
      elim (Bool-cases (text_eq device_id other)) [
        | inl same ↦
            let is : queue ≡ found =
              ground (arith, get-insert other device_id queue s.command_queues) in
            rw (← is) all
        | inr ne ↦
            dated other found (ground (arith, get-insert other device_id queue s.command_queues))
      ]

  pub pop_front-IsDated :
      (device_id : Text) (s : AppState)
      → IsDated id began s
      → IsDated id began (pop_front device_id s).0
  unfolding pop_front
  pop_front-IsDated device_id s dated = go (Map.get device_id s.command_queues) refl
    where
      go :
          (o : Option (List PendingCommand))
          → Map.get device_id s.command_queues ≡ o
          → IsDated id began (pop_front device_id s).0
      go none e = rw (e, pop_front) dated
      go (some []) e = rw (e, pop_front) dated
      go (some (c ∷ queue)) e =
          rw (e, pop_front)
            (put_queue-IsDated device_id queue s (dated device_id (c ∷ queue) e).1 dated)

  pub enqueue-IsDated :
      (device_id : Text) (c : PendingCommand) (s : AppState)
      → IsFor id began c
      → IsDated id began s
      → IsDated id began (enqueue device_id c s)
  unfolding enqueue
  enqueue-IsDated device_id c s is dated = go (Map.get device_id s.command_queues) refl
    where
      t : AppState
      t = record s { command_waiters = Map.insert c.command_id tt s.command_waiters }

      go :
          (o : Option (List PendingCommand))
          → Map.get device_id s.command_queues ≡ o
          → IsDated id began
              (put_queue device_id (elim o [ none ↦ c ∷ [] | some queue ↦ queue ++ c ∷ [] ]) t)
      go none e = put_queue-IsDated device_id (c ∷ []) t (is, tt) dated
      go (some queue) e =
          put_queue-IsDated device_id (queue ++ c ∷ []) t
            (All-append (IsFor id began) queue (c ∷ []) (dated device_id queue e) (is, tt)) dated

  pub carried_dates :
      (s t : AppState)
      → t.command_queues ≡ s.command_queues
      → IsDated id began s
      → IsDated id began t
  carried_dates s t same dated device_id queue found =
      dated device_id queue (ground (arith, found, same))
