-- ===== src/Subscriptions.antt =====
-- src/subscriptions: the state machine of a subscription, and its service.
pub mod StateMachine
pub mod Service
pub mod Lifecycle
pub mod Creation
pub mod PlanChange
