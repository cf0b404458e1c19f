-- ===== src/Access/Examples.antt =====
-- One decision of the matrix.
