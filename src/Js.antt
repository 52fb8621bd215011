-- ===== src/Js.antt =====
-- What the source uses of JavaScript itself: promises, truth values, texts, numbers, objects.
pub mod Exec
pub mod Text
pub mod Number
mod NumberTests
pub mod Json
pub mod Date
