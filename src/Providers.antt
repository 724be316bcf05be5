-- ===== src/Providers.antt =====
-- The providers package (providers/): the circuit breaker and the router before the models.
pub mod Breaker
pub mod Router
pub mod Tests
