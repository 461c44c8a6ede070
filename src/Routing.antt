-- ===== src/Routing.antt =====
-- internal/routing: where a transmission goes. Endpoint and Table are routing.go, Trigger is
-- trigger.go.
pub mod Endpoint
pub mod Table
pub mod Trigger
pub mod Reservation
pub mod Core
pub mod Tests
