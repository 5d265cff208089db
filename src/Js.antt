-- ===== src/Js.antt =====
-- The JavaScript values that the program reads from its messages.
pub mod Number
pub mod Value
pub mod Text
pub mod Scan
pub mod Url
pub mod ValueMap
pub mod Trim
