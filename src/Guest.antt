-- ===== src/Guest.antt =====
-- tools/guest-reply: the command-line client that answers a guest's message from a guidebook,
-- through rag-documents and llm-client.
pub mod Errors
pub mod World
pub mod Caller
pub mod Clients
pub mod Prompt
pub mod Flows
pub mod Settings
pub mod Cli
mod Tests
