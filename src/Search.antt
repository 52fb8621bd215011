-- ===== src/Search.antt =====
-- The search for garages: its form (libs/forms/src/searchGarages.tsx), the page that fills it in
-- (apps/web/src/app/search/page.tsx) and the query that is made of it (searchFormAdapter.ts).
pub mod Form
pub mod Page
pub mod Adapter
pub mod Queries
pub mod Results
pub mod Panel
pub mod Card
pub mod Cards
pub mod PlaceBox
pub mod Screen
pub mod Schema
pub mod Tests
mod ResultTests
pub mod ScreenTests
