-- ===== src/Server/Previews.antt =====
-- crates/rdesk_server/src/main.rs: the registration of hosts, how a viewer is let in, and the
-- frames of the host's screen.
pub mod Registration
pub mod Resolve
pub mod Frames
pub mod Audience
pub mod Epochs
pub mod Access
pub mod Entitled
pub mod Renewal
pub mod Admission
pub use rdesk.Server.Previews.Registration.{
  or_empty, same_owner, token_matches, bound_user, registration, RegisterPreviewRequest,
}
unfoldable pub use rdesk.Server.Previews.Registration.{
  host_token_for, enter_preview, register_preview, remove_preview_state, unregister_preview,
  disconnect_viewers,
}
pub use rdesk.Server.Previews.Resolve.{
  unresolved_response, unauthorized_response, password_ok, trusted_ok, passwordless,
  ResolvePreviewRequest, ResolvePreviewResponse, OriginHeaders, Resolved, answered, asking,
}
unfoldable pub use rdesk.Server.Previews.Resolve.{
  same_account, request_public_origin, endpoint_of, admit_viewer, ask_host, resolve_preview,
  end_resolve,
}
pub use rdesk.Server.Previews.Frames.{or_time, epoch_matches, FrameUpload}
unfoldable pub use rdesk.Server.Previews.Frames.{
  broadcast, store_frame, receive_frame, upload_frame, frame_answer, fetch_frame,
}
