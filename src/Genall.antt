-- ===== src/Genall.antt =====
-- pkg/genall: what the options of a run ask for.
pub mod Options
mod Tests
