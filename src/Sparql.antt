-- ===== src/Sparql.antt =====
-- The data model of include/Dice/SPARQL: variables and triple patterns.
pub mod Variable
pub mod TriplePattern
