-- ===== src/Tests/Parameters.antt =====
-- The next difficulty on the small chain.
