-- ===== src/Opt.antt =====
-- The optimisation passes on SSA form: src/opt.c and src/opt_*.c.
pub mod ConstFold
pub mod CopyProp
pub mod Cse
pub mod Dce
