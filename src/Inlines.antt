-- ===== src/Inlines.antt =====
-- inlines.c
pub mod Clean
