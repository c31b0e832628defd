-- ===== src/Tests/Accounts.antt =====
-- The theorems on accounts and on the cleanup, at concrete states.
use rdesk.Server.Sessions.{parse_bearer_token}
use rdesk.Prelude.{
  ◌≡◌, refl, Text, text_eq, codes, Bool, true, false, Option, some, List, [], ◌∷◌, All, trim,
}
use rdesk.Map
use rdesk.Server.State.{AppState, AccountPresence}
use rdesk.Server.Sessions.{authenticated_user, validate_auth_session}
use rdesk.Server.Accounts.{AccountDeviceSummary, delete_account, list_account_devices}
use rdesk.Server.Accounts.Deletion.{delete_account-IsGone, IsGone}
use rdesk.Server.Accounts.Listing.{list_account_devices-IsOwn, IsLatestFirst, IsOwn}
use rdesk.Tests.Data.{user, with_user, host}

abbrev presence : AccountPresence
presence = record {
  device_id = codes "phone";
  user_id = codes "u1";
  platform = codes "android";
  hostname = codes "Phone";
  can_host = false;
  updated_at_ms = 2000;
}

-- The user is logged in, with a phone that is online and a computer that is hosted.
abbrev logged_in : AppState
logged_in = record with_user {
  auth_sessions = (codes "token", record { user_id = codes "u1"; last_seen_ms = 1000 }) ∷ [];
  account_presence = (codes "phone", presence) ∷ [];
  previews = (codes "pc", host) ∷ [];
}

abbrev verify : Text → Text → Option Bool
verify password hash = some (text_eq password hash)

abbrev plain : Text → Option Text
plain password = some password

delete_account-IsGone_example :
    let t =
      (delete_account
        (λ t. t)
        plain
        verify
        2000
        (some (codes "Bearer token"))
        true
        true
        (λ s. s)
        (codes "secret")
        logged_in).0 in
    (verify (trim (codes "secret")) user.password_hash ≡ some true)
    × IsGone user 2001 (codes "token") (codes "phone") t
unfolding authenticated_user parse_bearer_token validate_auth_session Map.get text_eq delete_account
    trim
delete_account-IsGone_example =
    delete_account-IsGone user 2001 (codes "token") (codes "phone") (λ t. t) plain verify 2000
      (some (codes "Bearer token")) true true (λ s. s) (codes "secret") logged_in refl refl

abbrev listed : List AccountDeviceSummary
listed =
    record {
      device_id = codes "phone";
      hostname = codes "Phone";
      platform = codes "android";
      can_host = false;
      hosting = false;
      updated_at_ms = 2000;
    }
    ∷ record {
      device_id = codes "pc";
      hostname = codes "PC";
      platform = codes "windows";
      can_host = false;
      hosting = true;
      updated_at_ms = 1000;
    }
    ∷ []

list_account_devices-IsOwn_example :
    IsLatestFirst listed
    × All
        (IsOwn (codes "u1") (authenticated_user 2000 (some (codes "Bearer token")) logged_in).0)
        listed
unfolding authenticated_user parse_bearer_token validate_auth_session Map.get text_eq
    list_account_devices Map.values Map.insert
list_account_devices-IsOwn_example =
    list_account_devices-IsOwn 2000 (some (codes "Bearer token")) logged_in user listed refl refl
