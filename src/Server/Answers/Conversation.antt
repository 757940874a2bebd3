-- ===== src/Server/Answers/Conversation.antt =====
-- A whole conversation over a connection: a client's requests in bytes, and the answers that it
-- reads back.
use azure_s_sftp.Server.{Server}
