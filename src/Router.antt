-- ===== src/Router.antt =====
-- internal/router: which provider serves a request.
pub mod Info
pub mod Weights
pub mod WeightedRoundRobin
pub mod RoundRobin
pub mod Shuffle
pub mod Failover
pub mod WeightedOrder
pub mod Triggers
pub mod Retry
pub mod LeastLoaded
