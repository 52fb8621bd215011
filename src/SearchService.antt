-- ===== src/SearchService.antt =====
-- apps/search-service: the service that will answer searches, with its settings, its routes and its
-- process from the start to the exit.
pub mod Config
pub mod Handler
pub mod Main
mod Tests
