-- ===== src/Bus.antt =====
-- rann_agent/orchestration/message_bus.py: messages, subscriptions and delivery. `Message` has the
-- messages with their dictionaries, `Methods` the methods; the proofs stand in the other children.
pub mod Message
pub mod Methods
pub mod Delivery
pub mod Unsubscribed
mod Examples
