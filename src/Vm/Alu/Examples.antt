-- ===== src/Vm/Alu/Examples.antt =====
-- Multiplication at concrete words.
