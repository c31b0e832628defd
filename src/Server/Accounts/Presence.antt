-- ===== src/Server/Accounts/Presence.antt =====
-- crates/rdesk_server/src/main.rs: the devices of an account.
use rdesk.Prelude.{
  ℕ, Text, text_eq, codes, trim, Bool, true, false, ◌&&◌, Option, none, some, List, [], ◌∷◌, ltb,
  if◌then◌else◌, is_empty, is_some_and,
}
use rdesk.Map
use rdesk.Map.{Map}
use rdesk.Server.State.{
  AppState, AccountPresence, PreviewRegistration, Response, success, failure, is_fresh,
  account_presence_ttl_ms, preview_ttl_ms,
}
use rdesk.Server.Sessions.{authenticated_user}

pub record UpsertAccountPresenceRequest : Type 0 where
  pub device_id : Text
  pub platform : Text
  pub hostname : Text
  pub can_host : Bool

unfoldable pub upsert_account_presence :
    ℕ → Option Text → UpsertAccountPresenceRequest → AppState → AppState × Response Bool
upsert_account_presence now header request s =
    let (s1, caller) = authenticated_user now header s in
    elim caller [
      | none ↦ (s1, failure 401 (codes "登录状态已失效"))
      | some user ↦
          if is_empty (trim request.device_id) then (s1, failure 400 (codes "设备ID不能为空")) else (
            record s1 {
              account_presence =
                  Map.insert (trim request.device_id)
                    (record {
                      device_id = trim request.device_id;
                      user_id = user.user_id;
                      platform = trim request.platform;
                      hostname = trim request.hostname;
                      can_host = request.can_host;
                      updated_at_ms = now;
                    })
                    s1.account_presence;
            },
            success true,
          )
    ]

pub record AccountDeviceSummary : Type 0 where
  pub device_id : Text
  pub hostname : Text
  pub platform : Text
  pub can_host : Bool
  pub hosting : Bool
  pub updated_at_ms : ℕ

-- The devices that have reported themselves, by their ids.
unfoldable pub present_devices :
    ℕ → Text → Map AccountPresence → Map AccountDeviceSummary → Map AccountDeviceSummary
present_devices now user_id [] devices = devices
present_devices now user_id ((k, p) ∷ rest) devices = present_devices now user_id rest (
    if text_eq p.user_id user_id && is_fresh now p.updated_at_ms account_presence_ttl_ms
    then Map.insert p.device_id
        (record {
          device_id = p.device_id;
          hostname = p.hostname;
          platform = p.platform;
          can_host = p.can_host;
          hosting = false;
          updated_at_ms = p.updated_at_ms;
        })
        devices
    else devices)

-- What a registered host makes of its device's summary.
unfoldable pub hosted_summary :
    PreviewRegistration → Option AccountDeviceSummary → AccountDeviceSummary
hosted_summary r none = record {
  device_id = r.device_id;
  hostname = r.hostname;
  platform = r.platform;
  can_host = false;
  hosting = true;
  updated_at_ms = r.updated_at_ms;
}
hosted_summary r (some summary) = record summary {
  hostname = r.hostname;
  platform = r.platform;
  hosting = true;
  updated_at_ms =
      if ltb summary.updated_at_ms r.updated_at_ms then r.updated_at_ms else summary.updated_at_ms;
}

abbrev pub owned_by : Text → Option Text → Bool
owned_by user_id = is_some_and (λ owner. text_eq owner user_id)

unfoldable pub hosting_devices :
    ℕ → Text → Map PreviewRegistration → Map AccountDeviceSummary → Map AccountDeviceSummary
unfolding hosted_summary
hosting_devices now user_id [] devices = devices
hosting_devices now user_id ((k, r) ∷ rest) devices = hosting_devices now user_id rest (
    if owned_by user_id r.user_id && is_fresh now r.updated_at_ms preview_ttl_ms
    then Map.insert r.device_id (hosted_summary r (Map.get r.device_id devices)) devices
    else devices)

-- `sort_by(|left, right| right.updated_at_ms.cmp(&left.updated_at_ms))`.
unfoldable pub insert_latest :
    AccountDeviceSummary → List AccountDeviceSummary → List AccountDeviceSummary
insert_latest d [] = d ∷ []
insert_latest d (e ∷ es) =
    if ltb d.updated_at_ms e.updated_at_ms then e ∷ insert_latest d es else d ∷ e ∷ es

unfoldable pub sort_latest : List AccountDeviceSummary → List AccountDeviceSummary
unfolding insert_latest
sort_latest [] = []
sort_latest (d ∷ ds) = insert_latest d (sort_latest ds)

unfoldable pub list_account_devices :
    ℕ → Option Text → AppState → AppState × Response (List AccountDeviceSummary)
unfolding present_devices hosting_devices sort_latest
list_account_devices now header s =
    let (s1, caller) = authenticated_user now header s in
    elim caller [
      | none ↦ (s1, failure 401 (codes "登录状态已失效"))
      | some user ↦ (
        s1,
        success (
            sort_latest (
              Map.values (
                hosting_devices now user.user_id s1.previews
                  (present_devices now user.user_id s1.account_presence [])))),
      )
    ]
