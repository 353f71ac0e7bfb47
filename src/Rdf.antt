-- ===== src/Rdf.antt =====
-- The data model of include/Dice/RDF: terms, triples and what their classes promise.
pub mod Term
pub mod Triple
pub mod ParseTerm
pub mod Format
