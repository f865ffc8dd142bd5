-- ===== src/Utils.antt =====
-- src/utils: parsing of specifications, and the text of numbers and times.
pub mod Api
pub mod Error
pub mod Display
pub mod Numbers
pub mod Flow
pub mod Specs
