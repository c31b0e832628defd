-- ===== src/Wake/Model.antt =====
-- crates/rdesk_server/src/wake/model.rs: the records of one account, the life of a wake request,
-- and the errors of the service. Times are milliseconds, and are far below 2 ^ 64.
pub mod Order
pub mod Life
use rdesk.Prelude.{
  ℕ, ◌-◌, Text, text_eq, Bool, true, false, ◌&&◌, Option, none, some, List, [], ◌∷◌, map, take,
  keep, ltb, leb, if◌then◌else◌, is_some, is_some_and, codes,
}

pub data WakeError : Type 0 where
  unauthorized not_found agent_offline target_online setup_incomplete conflict expired : WakeError
  rate_limited storage invalid_mac invalid_name invalid_device invalid_phase : WakeError
  invalid_proof invalid_token : WakeError

-- The status of the response that an error becomes.
unfoldable pub status_of : WakeError → ℕ
status_of unauthorized = 401
status_of not_found = 404
status_of agent_offline = 409
status_of target_online = 409
status_of setup_incomplete = 409
status_of conflict = 409
status_of WakeError.expired = 410
status_of rate_limited = 429
status_of storage = 503
status_of invalid_mac = 400
status_of invalid_name = 400
status_of invalid_device = 400
status_of invalid_phase = 400
status_of invalid_proof = 400
status_of invalid_token = 400

pub data WakeResult {ℓ} (A : Type ℓ) : Type ℓ where
  ok : A → WakeResult A
  err : WakeError → WakeResult A

infixl 5 ◌>>=◌ ◌>>◌
abbrev pub ◌>>=◌ {ℓ κ} :
    {A : Type ℓ} {B : Type κ} → WakeResult A → (A → WakeResult B) → WakeResult B
ok a >>= f = f a
err e >>= f = err e

abbrev pub ◌>>◌ {ℓ} : {B : Type ℓ} → WakeResult (Unit {0}) → WakeResult B → WakeResult B
m >> k = m >>= λ _. k

-- `if c { return Err(e) }`.
abbrev pub fail_if : Bool → WakeError → WakeResult (Unit {0})
fail_if true e = err e
fail_if false e = ok tt

-- `Option::ok_or`.
abbrev pub ok_or {ℓ} : {A : Type ℓ} → Option A → WakeError → WakeResult A
ok_or none e = err e
ok_or (some a) e = ok a

pub record WakeTarget : Type 0 where
  pub setup_complete : Bool
  pub id : Text
  pub name : Text
  pub device_id : Text
  pub mac : Text
  pub agent_id : Text
  pub revision : ℕ
  pub token_hash : Text
  pub created_at_ms : ℕ

pub record WakeAgent : Type 0 where
  pub id : Text
  pub name : Text
  pub token_hash : Text
  pub enabled : Bool

pub data WakePhase : Type 0 where
  queued claimed sent online unconfirmed expired failed cancelled interrupted : WakePhase

-- `WakePhase::active`.
unfoldable pub active : WakePhase → Bool
active queued = true
active claimed = true
active sent = true
active _ = false

-- `matches!(phase, Queued | Claimed)`.
unfoldable pub waiting : WakePhase → Bool
waiting queued = true
waiting claimed = true
waiting _ = false

unfoldable pub is_sent : WakePhase → Bool
is_sent sent = true
is_sent _ = false

pub record WakeRequest : Type 0 where
  pub id : Text
  pub target_id : Text
  pub agent_id : Text
  pub target_revision : ℕ
  pub created_at_ms : ℕ
  pub expires_at_ms : ℕ
  pub observe_until_ms : ℕ
  pub phase : WakePhase
  pub claimed_at_ms : Option ℕ
  pub authorized_at_ms : Option ℕ
  pub sent_at_ms : Option ℕ
  pub online_at_ms : Option ℕ
  pub error_code : Option Text

unfoldable pub observed_online : ℕ → Option ℕ → Option ℕ → ℕ → Bool
observed_online created sent_at heartbeat now =
    is_some sent_at
    && is_some_and (λ seen. ltb created seen && leb seen now && ltb (now - seen) 30000) heartbeat

-- `WakeRequest::advance`.
unfoldable pub advance : ℕ → Option ℕ → WakeRequest → WakeRequest
unfolding is_sent waiting observed_online
advance now heartbeat r =
    if is_sent r.phase
    then (if observed_online r.created_at_ms r.sent_at_ms heartbeat now
        then record r { phase = online; online_at_ms = heartbeat }
        else if leb r.observe_until_ms now
        then record r { phase = unconfirmed }
        else r)
    else if waiting r.phase && leb r.expires_at_ms now
    then record r { phase = WakePhase.expired }
    else r

pub record WakeAccountData : Type 0 where
  pub targets : List WakeTarget
  pub agents : List WakeAgent
  pub requests : List WakeRequest

abbrev pub no_wake_data : WakeAccountData
no_wake_data = record { targets = []; agents = []; requests = [] }

abbrev pub retention_ms : ℕ
retention_ms = 604800000

-- `sort_by_key(Reverse(created_at_ms))`: stable, newest first.
unfoldable pub insert_newest : WakeRequest → List WakeRequest → List WakeRequest
insert_newest r [] = r ∷ []
insert_newest r (q ∷ qs) =
    if ltb r.created_at_ms q.created_at_ms then q ∷ insert_newest r qs else r ∷ q ∷ qs

unfoldable pub sort_newest : List WakeRequest → List WakeRequest
unfolding insert_newest
sort_newest [] = []
sort_newest (r ∷ rs) = insert_newest r (sort_newest rs)

abbrev pub is_recent : ℕ → WakeRequest → Bool
is_recent now r = ltb (now - r.created_at_ms) retention_ms

unfoldable pub prune : ℕ → WakeAccountData → WakeAccountData
unfolding sort_newest
prune now d = record d { requests = take 50 (sort_newest (keep (is_recent now) d.requests)) }

-- The body of the loop of `recover_after_restart`.
unfoldable pub interrupt : WakeRequest → WakeRequest
unfolding active
interrupt r =
    if active r.phase
    then record r { phase = interrupted; error_code = some (codes "server_restarted") }
    else r

unfoldable pub recover_after_restart : ℕ → WakeAccountData → WakeAccountData
unfolding prune interrupt
recover_after_restart now d =
    let d' = prune now d in record d' { requests = map interrupt d'.requests }

-- `if p(r) && r.phase.active() { r.phase = Cancelled }`.
unfoldable pub cancel_if : (WakeRequest → Bool) → WakeRequest → WakeRequest
unfolding active
cancel_if p r = if p r && active r.phase then record r { phase = cancelled } else r

abbrev pub for_target : Text → WakeRequest → Bool
for_target id r = text_eq r.target_id id

abbrev pub for_agent : Text → WakeRequest → Bool
for_agent id r = text_eq r.agent_id id

unfoldable pub cancel_target : Text → WakeAccountData → WakeAccountData
unfolding cancel_if
cancel_target id d = record d { requests = map (cancel_if (for_target id)) d.requests }
