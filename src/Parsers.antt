-- ===== src/Parsers.antt =====
-- include/Dice/rdf-parser/internal/Turtle/Parsers: how a client reads the triples.
pub mod Iterator
pub mod Strings
pub mod File
pub mod Construct
pub mod Parsable
pub mod Gains
pub mod Keeps
pub mod Stacks
pub mod Total
