-- ===== src/RoutePolicy.antt =====
-- src/auth/route_policy: the engine that decides each request against the policy of its route.
pub mod Policy
pub mod Fields
pub mod Standing
pub mod Engine
pub mod Cases
pub mod Decide
pub mod Rights
pub mod Levels
pub mod Realm
pub mod Spanning
pub mod Hidden
pub mod Tests
