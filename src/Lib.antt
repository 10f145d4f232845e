-- ===== src/Lib.antt =====
-- VORTECH, a small optimising compiler for x86-64 in C: its lexer, its memory, its passes
-- and its code generation.
--
-- The compiler turns a source file into tokens (src/lexer.c), a tree (src/parser.c), a resolved
-- tree (src/hir_build.c), SSA form (src/ssa_build.c), machine instructions (src/isel.c,
-- src/regalloc.c, src/peephole.c) and an object file (src/emit.c).
--
-- Modelled:
--   Ssa                 the data of src/ssa.h; `Op` is the tagged union of an instruction
--   Ssa.Verify          `ssa_verify_func` of src/ssa_verify.c
--   Ssa.Int64           `fold_binop` and `fold_cmp` of src/opt_constfold.c
--   Ssa.Run             a machine that runs SSA form, the yardstick for the passes; the phis of a
--                       block are read at once, from the registers at its entry
--   Ssa.Arith           the laws of the arithmetic, the yardstick for constant folding; Determined:
--                       the folded values are the ones that the laws allow
--   Opt.ConstFold       `opt_const_fold` of src/opt_constfold.c
--   Opt.Cse             `opt_cse` of src/opt_cse.c
--   Opt.Dce             `opt_dce` of src/opt_dce.c
--   Opt.CopyProp        `opt_copy_prop` of src/opt_copyprop.c
--   Isel                src/isel.c: the lowering of operations (Lower), the copies of phis by edge
--                       (Edges), and their places in the code (Split); Vregs runs the result on
--                       virtual registers, as the yardstick
--   Mach                the machine instructions of src/isel.h
--   Mach.Run            what src/emit.c makes the opcodes of the peephole pass do to registers
--   Mach.Peephole       `peephole_run` of src/peephole.c
--   Mach.Registers      the registers of src/common.h and their classes
--   Regalloc            src/regalloc.c: the live intervals (Intervals), the linear scan with the
--                       frame's size (Scan), and the rewriting of operands (Apply); `qsort` is a
--                       parameter
--   Emit                src/emit.c: the code buffer (Buffer), the encodings (Encode), the state with
--                       symbols, relocations and names (State), frames (Frame), instructions
--                       (Insts), functions with their jumps (Funcs), and a decoder as the yardstick
--                       for the encodings (Decode)
--   Driver              the stages of src/main.c behind the optimiser, for one function
--   Lexer               src/lexer.c with src/lexer.h and the tokens of src/common.h: the token
--                       kinds, moving over the text, recognising a token, and the look-ahead
--   Arena               src/arena.c and src/arena.h; `malloc` is a parameter
--   Types               the types of src/common.h and their sizes
--   Tests               concrete programs and the theorems at them
-- Each pass is a function from the old function to the new one; loops over arrays are recursions
-- on lists, and loops with an iteration limit are recursions on the rounds that are left, with the
-- limits of the source (10 rounds for folding and dead code, 5 for the peephole pass, 100 steps
-- along a chain of copies). Other fuel is the number of blocks that a run may enter, over which the
-- theorems range, and the rounds of `skip_whitespace_and_comments`: one more than the bytes that
-- are left, which is enough since a round takes at least one byte.
-- An `int64_t` is an integer. Where C leaves a result undefined, the host compiler's answer is a
-- parameter (`Host`), over which the theorems range. Allocation failure, which ends the process,
-- is not modelled. The loop that doubles a code buffer's size runs on the bytes that are asked for,
-- which is enough since a buffer of at least one byte grows by at least one byte a round; the loop
-- that expires active intervals runs on their number, since each step passes one. Register
-- 4294967295 is VT_INVALID_VREG.
-- The lexer's text is what is left of the source; its end reads as the byte 0. `strtod` is not
-- modelled: a floating-point literal keeps its text.
-- Selected code runs by a relation (`Runs` of Isel.Vregs), which has a run only where the code
-- returns; the search of a hash table's bucket is on the entries whose key has the hash.
-- Not modelled: printing and diagnostics, the parser and the construction of SSA form, the passes
-- of src/opt_sccp.c, src/opt_licm.c and src/opt_unroll.c, the ELF file, and the encodings that
-- nothing calls (enc_alu32, enc_jmp32, enc_je32, enc_jne32, enc_call32).
pub mod Prelude
pub mod Ssa
pub mod Opt
pub mod Tests
pub mod Mach
pub mod Isel
pub mod Lexer
pub mod Arena
pub mod Types
pub mod Driver
pub mod Emit
pub mod Regalloc
