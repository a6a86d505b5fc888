-- ===== src/Tools.antt =====
-- The tools, src/tools.
pub mod Bin2h
