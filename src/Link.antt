-- ===== src/Link.antt =====
-- The agent link of the realtime service, apps/realtime/src/link: the messages of its wire, what it
-- needs of the store, the conversation with one observatory's agent, and the registry of links.
pub mod Messages
pub mod Storage
pub mod State
pub mod Handlers
pub mod Conversation
pub mod Ownership
pub mod Reach
pub mod Replay
pub mod Silence
pub mod Frames
pub mod Keys
pub mod Uploads
pub mod Registry
mod Tests
