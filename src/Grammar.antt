-- ===== src/Grammar.antt =====
-- include/Dice/rdf-parser/internal/Turtle/Grammar.hpp: the grammar as data.
pub mod Rule
pub mod Names
pub mod Tokens
pub mod Body
pub mod Progress
pub mod Match
pub mod Shorter
pub mod Total
pub mod Whole
pub mod Determined
pub mod Erased
pub mod Bytes
pub mod Look
pub mod Sees
