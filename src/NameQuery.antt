-- ===== src/NameQuery.antt =====
-- internal/fqnres: hand-authored names against the functions of a graph.
pub mod Defs
pub mod Laws
pub mod Pieces
