-- ===== src/Printed.antt =====
-- Grammar.hpp with BasicActions.hpp and Actions.hpp: texts of a known shape, read by the grammar with
-- its actions.
pub mod Steps
pub mod Bytes
pub mod Tokens
pub mod Terms
pub mod States
pub mod ParseTerm
pub mod Runs
pub mod Like
pub mod Joined
pub mod Syntax
pub mod Blanks
pub mod Leaves
pub mod Starts
pub mod Loops
pub mod Lists
pub mod Objects
pub mod Statements
pub mod Documents
pub mod Turtle
pub mod Nodes
pub mod Kinds
pub mod Labels
pub mod Clash
