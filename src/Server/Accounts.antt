-- ===== src/Server/Accounts.antt =====
-- crates/rdesk_server/src/main.rs: the accounts, their sessions and their devices. `others` is what
-- other requests do while a request waits for the store's lock.
pub mod Records
pub mod Entry
pub mod Presence
pub mod Durable
pub mod Lives
pub mod Index
pub mod Deletion
pub mod Listing
unfoldable pub use rdesk.Server.Accounts.Records.{
  write_user_snapshot, persist_users, persist_auth_sessions, load_user, load_users,
  load_auth_sessions, commit_user, purge_user, commit_deletion,
}
pub use rdesk.Server.Accounts.Entry.{
  display_name_of, verified, bad_login, user_named, AccountAuthRequest,
}
unfoldable pub use rdesk.Server.Accounts.Entry.{
  normalize_username, register_account, login_account, delete_account,
}
pub use rdesk.Server.Accounts.Presence.{
  owned_by, UpsertAccountPresenceRequest, AccountDeviceSummary,
}
unfoldable pub use rdesk.Server.Accounts.Presence.{
  upsert_account_presence, present_devices, hosted_summary, hosting_devices, insert_latest,
  sort_latest, list_account_devices,
}
