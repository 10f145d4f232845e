-- ===== src/Mach/Registers.antt =====
-- The registers of x86-64: `X86Reg` of src/common.h, by their numbers in the enumeration.
use vortech.Prelude.{ℕ, Bool, ◌&&◌, ◌||◌, List, [], ◌∷◌, ◌==◌, leb}

abbrev pub reg_none : ℕ
reg_none = 0

abbrev pub rax : ℕ
rax = 1

abbrev pub rcx : ℕ
rcx = 2

abbrev pub rdx : ℕ
rdx = 3

abbrev pub rbx : ℕ
rbx = 4

abbrev pub rsp : ℕ
rsp = 5

abbrev pub rbp : ℕ
rbp = 6

abbrev pub rsi : ℕ
rsi = 7

abbrev pub rdi : ℕ
rdi = 8

abbrev pub r8 : ℕ
r8 = 9

abbrev pub r9 : ℕ
r9 = 10

abbrev pub r12 : ℕ
r12 = 13

abbrev pub r13 : ℕ
r13 = 14

abbrev pub r15 : ℕ
r15 = 16

abbrev pub xmm0 : ℕ
xmm0 = 17

abbrev pub reg_count : ℕ
reg_count = 25

abbrev pub reg_is_callee_saved : ℕ → Bool
reg_is_callee_saved r = r == rbx || r == rbp || (leb r12 r && leb r r15)

-- `vt_alloc_gprs`
abbrev pub vt_alloc_gprs : List ℕ
vt_alloc_gprs = 1 ∷ 2 ∷ 3 ∷ 7 ∷ 8 ∷ 9 ∷ 10 ∷ 11 ∷ 12 ∷ 4 ∷ 13 ∷ 14 ∷ 15 ∷ 16 ∷ []

-- The registers of the calling convention's first six parameters.
abbrev pub param_regs : List ℕ
param_regs = rdi ∷ rsi ∷ rdx ∷ rcx ∷ r8 ∷ r9 ∷ []
