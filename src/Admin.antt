-- ===== src/Admin.antt =====
-- libs/ui/src/components/templates/AdminHome.tsx: what the listings of a page come to, and which of
-- them are shown.
pub mod Listings
pub mod Card
pub mod Dashboard
pub mod Metrics
pub mod Queue
mod Tests
