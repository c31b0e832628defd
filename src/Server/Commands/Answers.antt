-- ===== src/Server/Commands/Answers.antt =====
-- crates/rdesk_server/src/main.rs: a command from the viewer's request to the host's answer.
