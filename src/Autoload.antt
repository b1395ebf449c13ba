-- ===== src/Autoload.antt =====
-- internal/autoload: the scanner that finds the classes of a PHP file.
mod Samples
pub mod Tokens
pub mod Scan
pub mod Advance
pub mod Progress
pub mod Words
pub mod Pieces
pub mod Items
pub mod Namespaces
pub mod Declarations
