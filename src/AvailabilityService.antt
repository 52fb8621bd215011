-- ===== src/AvailabilityService.antt =====
-- apps/services/go/availability: the settings and the process of the availability service; its holds
-- and its answers are `Hold` and `Availability`.
pub mod Config
pub mod Main
pub mod Served
mod Tests
