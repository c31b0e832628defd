-- ===== src/Server/Commands/Waiting.antt =====
-- crates/rdesk_server/src/main.rs: a command that waits for its answer.
use rdesk.Prelude.{
  ℕ, ◌+◌, ◌≤◌, ◌≡◌, ◌≢◌, inl, inr, refl, Text, text_eq_refl, true, false, Bool, if◌then◌else◌, some,
  List, [], ◌∷◌, arith, All, Option-cases, Bool-cases,
}
use rdesk.Map
use rdesk.Map.Laws.{get-insert, get-remove}
use rdesk.Server.State.{
  AppState, PendingCommand, CommandResult, Payload, Response, success, bare, is_fresh,
  command_ttl_ms, if_state,
}
use rdesk.Server.Sessions.{validate_viewer, validate_host}
use rdesk.Server.Commands.{
  answer, refused, drop_stale, put_queue, expire_stale_device_commands, poll_round,
  complete_host_command, enqueue, hosted, begin_command, end_command,
}
use rdesk.Server.Commands.Requests.{
  Request, begins, completes, polls, ends, perform, run, IsSparing, IsUnused, text_ne,
  pop_front-waits,
}
use rdesk.Server.Commands.Dated.{
  IsFor, IsDated, put_queue-IsDated, pop_front-IsDated, enqueue-IsDated, carried_dates,
}

-- The command still waits for its answer.
pub record IsWaiting (id : Text) (began : ℕ) (s : AppState) : Type 0 where
  pub waits : Map.get id s.command_waiters ≡ some tt
  pub dated : IsDated id began s

module _ (id : Text) (began : ℕ) where
  answer-waits :
      (j : Text) (r : CommandResult) (s : AppState)
      → j ≢ id
      → IsWaiting id began s
      → IsWaiting id began (answer j r s)
  unfolding answer
  answer-waits j r s other w = record {
    waits = ground (arith, w.waits, text_ne j id other, get-remove id j s.command_waiters);
    dated = if_dated (Map.contains_key j s.command_waiters);
  }
    where
      if_dated :
          (b : Bool)
          → IsDated id began (
              if b
              then record s {
                command_waiters = Map.remove j s.command_waiters;
                replies = Map.insert j r s.replies;
              }
              else s)
      if_dated true = w.dated
      if_dated false = w.dated

  -- The stale commands that a poll drops are others, so the command goes on waiting.
  drop_stale-waits :
      (now : ℕ) (queue : List PendingCommand) (s : AppState)
      → now ≤ began + 15000
      → All (IsFor id began) queue
      → IsWaiting id began s
      → All (IsFor id began) (drop_stale now queue s).0
        × IsWaiting id began (drop_stale now queue s).1
  unfolding drop_stale
  drop_stale-waits now [] s early all w = (tt, w)
  drop_stale-waits now (c ∷ queue) s early all w =
      elim (Bool-cases (is_fresh now c.queued_at_ms command_ttl_ms)) [
        | inl fresh ↦ rw fresh (all, w)
        | inr stale ↦ rw stale (
            drop_stale-waits now queue (answer c.command_id refused s) early all.1
              (answer-waits c.command_id refused s (stale_other all.0 stale) w))
      ]
    where
      stale_other :
          IsFor id began c → is_fresh now c.queued_at_ms command_ttl_ms ≡ false → c.command_id ≢ id
      stale_other (inl other) stale = other
      stale_other (inr same) stale = absurd (ground arith)

  expire-waits :
      (now : ℕ) (device_id : Text) (s : AppState)
      → now ≤ began + 15000
      → IsWaiting id began s
      → IsWaiting id began (expire_stale_device_commands now device_id s)
  unfolding expire_stale_device_commands
  expire-waits now device_id s early w = elim (Option-cases (Map.get device_id s.command_queues)) [
    | inl missing ↦ rw (missing, expire_stale_device_commands) w
    | inr (queue, found) ↦
        let left = drop_stale-waits now queue s early (w.dated device_id queue found) w in
        let t = drop_stale now queue s in
        rw (found, expire_stale_device_commands)
          (record {
            waits = unfold put_queue in left.1.waits;
            dated = put_queue-IsDated id began device_id t.0 t.1 left.0 left.1.dated;
          })
  ]

  poll-waits :
      (now : ℕ) (device_id : Text) (s : AppState)
      → now ≤ began + 15000
      → IsWaiting id began s
      → IsWaiting id began (poll_round now device_id s).0
  unfolding poll_round
  poll-waits now device_id s early w =
      let t = expire_stale_device_commands now device_id s in
      let held = expire-waits now device_id s early w in
      let same = pop_front-waits device_id t in
      record {
        waits = ground (arith, same.waiters, held.waits);
        dated = pop_front-IsDated id began device_id t held.dated;
      }

  viewer-keeps :
      (now : ℕ) (device_id token : Text) (s : AppState)
      → IsWaiting id began s
      → IsWaiting id began (validate_viewer now device_id token s).0
  unfolding validate_viewer
  viewer-keeps now device_id token s w = record {
    waits = ground (arith, w.waits);
    dated =
        carried_dates id began s (validate_viewer now device_id token s).0 (ground arith) w.dated;
  }

  begin-waits :
      (now : ℕ) (device_id token command_id kind : Text) (payload : Payload) (s : AppState)
      → command_id ≢ id
      → IsWaiting id began s
      → IsWaiting id began (begin_command now device_id token command_id kind payload s).0
  unfolding begin_command
  begin-waits now device_id token command_id kind payload s other w =
      let t = (validate_viewer now device_id token s).0 in
      let held = viewer-keeps now device_id token s w in
      let c : PendingCommand = record {
        command_id = command_id;
        kind = kind;
        payload = payload;
        queued_at_ms = now;
      } in
      if_state (IsWaiting id began) (validate_viewer now device_id token s).1 _ _
        (if_state (IsWaiting id began) (hosted now device_id t) _ _
          (record {
            waits =
                unfold enqueue put_queue in
                ground (
                  arith,
                  held.waits,
                  text_ne command_id id other,
                  get-insert id command_id tt t.command_waiters,
                );
            dated = enqueue-IsDated id began device_id c t (inl other) held.dated;
          })
          held)
        held

  end-waits :
      (j : Text) (s : AppState)
      → j ≢ id
      → IsWaiting id began s
      → IsWaiting id began (end_command j s).0
  unfolding end_command
  end-waits j s other w = record {
    waits = ground (arith, w.waits, text_ne j id other, get-remove id j s.command_waiters);
    dated = carried_dates id began s (end_command j s).0 (ground arith) w.dated;
  }

  perform-waits :
      (r : Request) (s : AppState)
      → IsSparing id began r
      → IsWaiting id began s
      → IsWaiting id began (perform r s)
  unfolding perform complete_host_command
  perform-waits (begins now device_id token command_id kind payload) s other w =
      begin-waits now device_id token command_id kind payload s other w
  perform-waits (completes now device_id host_token command_id r) s other w =
      if_state (IsWaiting id began) (validate_host now device_id host_token s)
        (answer command_id r s, 200) (s, 401) (answer-waits command_id r s other w) w
  perform-waits (polls now device_id) s early w = poll-waits now device_id s early w
  perform-waits (ends command_id) s other w = end-waits command_id s other w

  pub run-waits :
      (requests : List Request) (s : AppState)
      → All (IsSparing id began) requests
      → IsWaiting id began s
      → IsWaiting id began (run requests s)
  unfolding run
  run-waits [] s others w = w
  run-waits (r ∷ requests) s others w =
      run-waits requests (perform r s) others.1 (perform-waits r s others.0 w)

abbrev outcome : Bool → Bool → AppState → AppState → AppState × Response (Unit {0})
outcome valid lives t u =
    if valid then (if lives then (u, success tt) else (t, bare 404)) else (t, bare 401)

pub begun-waits :
    (now : ℕ) (device_id token command_id kind : Text) (payload : Payload) (s : AppState)
    → IsUnused command_id s
    → (begin_command now device_id token command_id kind payload s).1 ≡ success tt
    → IsWaiting command_id now (begin_command now device_id token command_id kind payload s).0
unfolding begin_command
begun-waits now device_id token command_id kind payload s unused e =
    let t = (validate_viewer now device_id token s).0 in
    let c : PendingCommand = record {
      command_id = command_id;
      kind = kind;
      payload = payload;
      queued_at_ms = now;
    } in
    let w : IsWaiting command_id now (enqueue device_id c t) = record {
      waits =
          unfold enqueue put_queue in
          ground
            (arith, text_eq_refl command_id, get-insert command_id command_id tt t.command_waiters);
      dated = enqueue-IsDated command_id now device_id c t (inr refl) (λ other queue found.
          All-others queue (unused other queue (unfold validate_viewer in ground (arith, found))));
    } in
    go t (enqueue device_id c t) (validate_viewer now device_id token s).1 (hosted now device_id t)
      w e
  where
    All-others :
        (queue : List PendingCommand)
        → All (λ c. c.command_id ≢ command_id) queue
        → All (IsFor command_id now) queue
    All-others [] h = tt
    All-others (c ∷ queue) h = (inl h.0, All-others queue h.1)

    go :
        (t u : AppState) (valid lives : Bool)
        → IsWaiting command_id now u
        → (outcome valid lives t u).1 ≡ success tt
        → IsWaiting command_id now (outcome valid lives t u).0
    go t u true true w e = w
    go t u true false w e = absurd (ground arith)
    go t u false lives w e = absurd (ground arith)
