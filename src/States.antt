-- ===== src/States.antt =====
-- include/Dice/rdf-parser/internal/Turtle/States: what the parser keeps while it reads.
pub mod Element
pub mod Basic
pub mod Machine
pub mod Documents
pub mod Sequential
pub mod Turtle
pub mod Concurrent
