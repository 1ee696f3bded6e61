-- ===== src/Decision.antt =====
-- app/seeding/decision.py: the decisions on keywords and audiences. Union has `_UnionFind`, Overlap the
-- choice among audiences that overlap, Gate `search_release_allowed`.
pub mod Union
pub mod Overlap
pub mod Gate
