-- ===== src/Scanner.antt =====
-- The raw scanner (packages/core/src/features/raw-scanner): byte classes, scalars, strings, numbers and
-- the cursor, and what holds of them.
pub mod Bytes
pub mod Scalars
pub mod Strings
pub mod Numbers
pub mod Cursor
pub mod Utf8
pub mod Units
pub mod Totality
pub mod Text
pub mod Decode
pub mod Spans
pub mod Tokens
pub mod Progress
mod Examples
