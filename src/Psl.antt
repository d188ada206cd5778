-- ===== src/Psl.antt =====
-- The schema language (psl/).
pub mod Interner
