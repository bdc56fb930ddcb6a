-- ===== src/Chat.antt =====
-- chat-orchestrator: the chatbot's turn, its tools, and the actions that wait for the user's word.
pub mod Types
pub mod Registry
pub mod World
pub mod Coords
pub mod Guard
pub mod Tools
pub mod Sessions
pub mod Actions
pub mod Replies
pub mod Turn
pub mod Http
mod Tests
