-- ===== src/Server/Commands/Answered.antt =====
-- crates/rdesk_server/src/main.rs: a command that is answered, until its request takes the answer.
use rdesk.Prelude.{
  ℕ, ◌≡◌, ◌≢◌, inl, inr, Text, text_eq_iff, none, some, List, [], ◌∷◌, arith, All, Option-cases,
  Bool-cases,
}
use rdesk.Map
use rdesk.Map.Laws.{get-insert, get-remove}
use rdesk.Server.State.{
  AppState, PendingCommand, CommandResult, Payload, is_fresh, command_ttl_ms, if_state,
}
use rdesk.Server.Sessions.{validate_viewer, validate_host}
use rdesk.Server.Commands.{
  answer, refused, drop_stale, put_queue, expire_stale_device_commands, pop_front, poll_round,
  complete_host_command, enqueue, hosted, begin_command, end_command,
}
use rdesk.Server.Commands.Requests.{
  Request, begins, completes, polls, ends, perform, run, IsOther, text_ne, SameWaits, viewer-waits,
  pop_front-waits,
}

-- The command is answered by that result, and the request has not yet taken it.
pub record IsAnswered (id : Text) (result : CommandResult) (s : AppState) : Type 0 where
  pub gone : Map.get id s.command_waiters ≡ none
  pub kept : Map.get id s.replies ≡ some result

module _ (id : Text) (result : CommandResult) where
  carried : (s t : AppState) → SameWaits s t → IsAnswered id result s → IsAnswered id result t
  carried s t same a = record {
    gone = ground (arith, same.waiters, a.gone);
    kept = ground (arith, same.replies, a.kept);
  }

  answer-kept :
      (j : Text) (r : CommandResult) (s : AppState)
      → IsAnswered id result s
      → IsAnswered id result (answer j r s)
  unfolding answer
  answer-kept j r s a = record {
    gone = ground (arith, a.gone, get-remove id j s.command_waiters);
    kept = ground (arith, a.gone, a.kept, text_eq_iff j id, get-insert id j r s.replies);
  }

  drop_stale-kept :
      (now : ℕ) (queue : List PendingCommand) (s : AppState)
      → IsAnswered id result s
      → IsAnswered id result (drop_stale now queue s).1
  unfolding drop_stale
  drop_stale-kept now [] s a = a
  drop_stale-kept now (c ∷ queue) s a =
      elim (Bool-cases (is_fresh now c.queued_at_ms command_ttl_ms)) [
        | inl fresh ↦ rw fresh a
        | inr stale ↦ rw stale (
            drop_stale-kept now queue (answer c.command_id refused s)
              (answer-kept c.command_id refused s a))
      ]

module _ (id : Text) (result : CommandResult) where
  expire-kept :
      (now : ℕ) (device_id : Text) (s : AppState)
      → IsAnswered id result s
      → IsAnswered id result (expire_stale_device_commands now device_id s)
  unfolding expire_stale_device_commands put_queue
  expire-kept now device_id s a = elim (Option-cases (Map.get device_id s.command_queues)) [
    | inl missing ↦ rw (missing, expire_stale_device_commands) a
    | inr (queue, found) ↦
        let left = drop_stale-kept id result now queue s a in
        rw (found, expire_stale_device_commands) (record { gone = left.gone; kept = left.kept })
  ]

  enqueue-kept :
      (device_id : Text) (c : PendingCommand) (s : AppState)
      → c.command_id ≢ id
      → IsAnswered id result s
      → IsAnswered id result (enqueue device_id c s)
  unfolding enqueue put_queue
  enqueue-kept device_id c s other a = record {
    gone = ground (
      arith,
      a.gone,
      text_ne c.command_id id other,
      get-insert id c.command_id tt s.command_waiters,
    );
    kept = ground (arith, a.kept);
  }

  begin-kept :
      (now : ℕ) (device_id token command_id kind : Text) (payload : Payload) (s : AppState)
      → command_id ≢ id
      → IsAnswered id result s
      → IsAnswered id result (begin_command now device_id token command_id kind payload s).0
  unfolding begin_command
  begin-kept now device_id token command_id kind payload s other a =
      let t = (validate_viewer now device_id token s).0 in
      let held = carried id result s t (viewer-waits now device_id token s) a in
      let c : PendingCommand = record {
        command_id = command_id;
        kind = kind;
        payload = payload;
        queued_at_ms = now;
      } in
      if_state (IsAnswered id result) (validate_viewer now device_id token s).1 _ _
        (if_state (IsAnswered id result) (hosted now device_id t) _ _
          (enqueue-kept device_id c t other held) held)
        held

  end-kept :
      (j : Text) (s : AppState)
      → j ≢ id
      → IsAnswered id result s
      → IsAnswered id result (end_command j s).0
  unfolding end_command
  end-kept j s other a = record {
    gone = ground (arith, a.gone, text_ne j id other, get-remove id j s.command_waiters);
    kept = ground (arith, a.kept, text_ne j id other, get-remove id j s.replies);
  }

  perform-kept :
      (r : Request) (s : AppState)
      → IsOther id r
      → IsAnswered id result s
      → IsAnswered id result (perform r s)
  unfolding perform complete_host_command poll_round
  perform-kept (begins now device_id token command_id kind payload) s other a =
      begin-kept now device_id token command_id kind payload s other a
  perform-kept (completes now device_id host_token command_id r) s other a =
      if_state (IsAnswered id result) (validate_host now device_id host_token s)
        (answer command_id r s, 200) (s, 401) (answer-kept id result command_id r s a) a
  perform-kept (polls now device_id) s other a =
      let t = expire_stale_device_commands now device_id s in
      carried id result t (pop_front device_id t).0 (pop_front-waits device_id t)
        (expire-kept now device_id s a)
  perform-kept (ends command_id) s other a = end-kept command_id s other a

  pub run-kept :
      (requests : List Request) (s : AppState)
      → All (IsOther id) requests
      → IsAnswered id result s
      → IsAnswered id result (run requests s)
  unfolding run
  run-kept [] s others a = a
  run-kept (r ∷ requests) s others a =
      run-kept requests (perform r s) others.1 (perform-kept r s others.0 a)
