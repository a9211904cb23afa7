-- ===== src/Text.antt =====
-- Text as the C++ standard library writes and reads it: decimal numbers of streams, `std::to_string`,
-- `atoi`, `std::stoi` and lines.
pub mod Decimal
pub mod Atoi
pub mod Strip
pub mod Lines
