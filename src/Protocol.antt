-- ===== src/Protocol.antt =====
-- src/protocol.rs: the protocol over one connection.
pub mod State
pub mod Results
pub mod Halting
pub mod Invariant
pub mod Accepting
pub mod Handlers
pub mod Sending
pub mod IoLaws
pub mod Steady
pub mod PollNext
pub mod Completes
pub mod CloseExchange
pub mod Conversation
pub mod Signals
pub mod Events
pub mod Polling
pub mod Reach
pub mod Opening
pub mod Exchange
pub mod Inbound
pub mod OnClose
pub mod Commands
pub mod Handshake
pub mod Step
pub mod Outbound
pub mod Accept
pub mod Close
