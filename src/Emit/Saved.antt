-- ===== src/Emit/Saved.antt =====
-- The callee-saved registers that src/regalloc.c gives away and the prologue of src/emit.c.
use mathlib.Core.List.{append-nil, append_assoc}
use vortech.Prelude.{
  ℕ, zero, suc, ◌<◌, ◌≡◌, refl, sym, ap, ◌∙◌, subst, Bool, true, false, not, ltb, leb, ◌==◌,
  if◌then◌else◌, some, some-inj, List, [], ◌∷◌, ◌++◌, get_elem?, get_or, length,
}
use vortech.Mach.{MachFunc}
use vortech.Mach.Registers.{reg_none, rsp, rbp, reg_is_callee_saved, param_regs}
use vortech.Regalloc.{RegAllocResult, LiveInterval}
use vortech.Regalloc.Scan.{regalloc_linear_scan}
use vortech.Regalloc.Saved.{regalloc_linear_scan-reg_used}
use vortech.Emit.Buffer.{CodeBuf, push, cb_ensure}
use vortech.Emit.Encode.{reg_ext, enc_push, enc_mov64, enc_sub64_imm8, enc_sub64_imm32}
use vortech.Emit.Frame.{reserve, rbx_to_r15, is_saved, push_saved, move_params, enc_prologue}

-- The code of `c` begins with that of `cb`.
pub record Grown (cb c : CodeBuf) : Type 0 where
  pub more : List ℕ
  pub grows : c.data_ ≡ cb.data_ ++ more

self_Grown : (cb : CodeBuf) → Grown cb cb
self_Grown cb = record { more = []; grows = sym (append-nil cb.data_) }

push-Grown : {cb c : CodeBuf} (bytes : List ℕ) → Grown cb c → Grown cb (push bytes c)
unfolding push cb_ensure
push-Grown {cb = cb} bytes h = record {
  more = h.more ++ bytes;
  grows = ap (λ l. l ++ bytes) h.grows ∙ append_assoc cb.data_ h.more bytes;
}

if_Grown : {cb a b : CodeBuf} (t : Bool) → Grown cb a → Grown cb b → Grown cb (if t then a else b)
if_Grown true h k = h
if_Grown false h k = k

enc_push-Grown : {cb c : CodeBuf} (r : ℕ) → Grown cb c → Grown cb (enc_push r c)
unfolding enc_push
enc_push-Grown r h = push-Grown _ (if_Grown (reg_ext r) (push-Grown _ h) h)

enc_mov64-Grown : {cb c : CodeBuf} (d s : ℕ) → Grown cb c → Grown cb (enc_mov64 d s c)
unfolding enc_mov64
enc_mov64-Grown d s h = push-Grown _ h

reserve-Grown : {cb c : CodeBuf} (n : ℕ) → Grown cb c → Grown cb (reserve n c)
unfolding enc_sub64_imm8 enc_sub64_imm32
reserve-Grown n h =
    if_Grown (ltb 0 n)
      (if_Grown (leb n 127) (push-Grown _ (push-Grown _ (push-Grown _ h)))
        (push-Grown _ (push-Grown _ (push-Grown _ h))))
      h

move_params-Grown :
    {cb : CodeBuf} (ra : RegAllocResult) (vs regs : List ℕ) {c : CodeBuf}
    → Grown cb c
    → Grown cb (move_params ra vs regs c)
unfolding move_params
move_params-Grown ra [] regs h = h
move_params-Grown ra (v ∷ vs) [] h = h
move_params-Grown ra (v ∷ vs) (r ∷ regs) h =
    move_params-Grown ra vs regs (if_Grown _ (enc_mov64-Grown _ r h) h)

push_saved-Grown :
    {cb : CodeBuf} (ra : RegAllocResult) (rs : List ℕ) {c : CodeBuf}
    → Grown cb c
    → Grown cb (push_saved ra rs c)
unfolding push_saved
push_saved-Grown ra [] h = h
push_saved-Grown ra (r ∷ rs) h =
    push_saved-Grown ra rs (if_Grown (is_saved ra r) (enc_push-Grown r h) h)

-- A push of the register stands in the code behind that of `cb`.
abbrev Pushes : ℕ → (cb c : CodeBuf) → Type 0
Pushes r cb c = (at : CodeBuf) × Grown cb at × Grown (enc_push r at) c

push_saved-Pushes :
    {cb : CodeBuf} (ra : RegAllocResult) (rs : List ℕ) (i r : ℕ) {c : CodeBuf}
    → get_elem? rs i ≡ some r
    → is_saved ra r ≡ true
    → Grown cb c
    → Pushes r cb (push_saved ra rs c)
unfolding push_saved
push_saved-Pushes ra [] i r at saved h = cc
push_saved-Pushes ra (q ∷ rs) zero r {c = c} at saved h =
    let same : q ≡ r = some-inj at in
    let test : is_saved ra q ≡ true = rw same saved in
    rw (test, same) (c, h, push_saved-Grown ra rs (self_Grown (enc_push r c)))
push_saved-Pushes ra (q ∷ rs) (suc i) r at saved h =
    push_saved-Pushes ra rs i r at saved (if_Grown (is_saved ra q) (enc_push-Grown q h) h)

move_params-Pushes :
    {cb c : CodeBuf} (r : ℕ) (ra : RegAllocResult) (vs regs : List ℕ)
    → Pushes r cb c
    → Pushes r cb (move_params ra vs regs c)
move_params-Pushes r ra vs regs (place, before, after) =
    (place, before, move_params-Grown ra vs regs after)

enc_prologue-Pushes :
    (mf : MachFunc) (ra : RegAllocResult) (cb : CodeBuf) (i r : ℕ)
    → get_elem? rbx_to_r15 i ≡ some r
    → is_saved ra r ≡ true
    → Pushes r cb (enc_prologue mf ra cb)
unfolding enc_prologue
enc_prologue-Pushes mf ra cb i r at saved = move_params-Pushes r ra mf.param_vregs param_regs (
    push_saved-Pushes ra rbx_to_r15 i r at saved
      (reserve-Grown ra.stack_size (enc_mov64-Grown rbp rsp (enc_push-Grown rbp (self_Grown cb)))))

-- The registers that a function keeps for its caller, besides the stack's: rbx and r12 to r15, by
-- their numbers in the enumeration, each with the bytes of the instruction that pushes it.
abbrev pub kept_registers : List (ℕ × List ℕ)
kept_registers =
    (4, 0x53 ∷ [])
    ∷ (13, 0x41 ∷ 0x54 ∷ [])
    ∷ (14, 0x41 ∷ 0x55 ∷ [])
    ∷ (15, 0x41 ∷ 0x56 ∷ [])
    ∷ (16, 0x41 ∷ 0x57 ∷ [])
    ∷ []

-- What is known of an entry of the list.
record IsKept (k : ℕ × List ℕ) : Type 0 where
  saved : reg_is_callee_saved k.0 ≡ true
  general : not (k.0 == rbp) ≡ true
  index : ℕ
  listed : get_elem? rbx_to_r15 index ≡ some k.0
  pushed : (cb : CodeBuf) → (enc_push k.0 cb).data_ ≡ cb.data_ ++ k.1

all_IsKept : (i : ℕ) (k : ℕ × List ℕ) → get_elem? kept_registers i ≡ some k → IsKept k
unfolding enc_push push cb_ensure
all_IsKept zero k at =
    subst IsKept (some-inj at)
      (record { saved = refl; general = refl; index = 0; listed = refl; pushed = λ cb. refl })
all_IsKept (suc zero) k at = subst IsKept (some-inj at) (record {
  saved = refl;
  general = refl;
  index = 9;
  listed = refl;
  pushed = λ cb. append_assoc cb.data_ _ _;
})
all_IsKept (suc (suc zero)) k at = subst IsKept (some-inj at) (record {
  saved = refl;
  general = refl;
  index = 10;
  listed = refl;
  pushed = λ cb. append_assoc cb.data_ _ _;
})
all_IsKept (suc (suc (suc zero))) k at = subst IsKept (some-inj at) (record {
  saved = refl;
  general = refl;
  index = 11;
  listed = refl;
  pushed = λ cb. append_assoc cb.data_ _ _;
})
all_IsKept (suc (suc (suc (suc zero)))) k at = subst IsKept (some-inj at) (record {
  saved = refl;
  general = refl;
  index = 12;
  listed = refl;
  pushed = λ cb. append_assoc cb.data_ _ _;
})
all_IsKept (suc (suc (suc (suc (suc i))))) k at = cc

Pushes-bytes :
    (r : ℕ) (bytes : List ℕ) (cb c : CodeBuf)
    → ((at : CodeBuf) → (enc_push r at).data_ ≡ at.data_ ++ bytes)
    → Pushes r cb c
    → (before : List ℕ) × (after : List ℕ) × (c.data_ ≡ cb.data_ ++ before ++ bytes ++ after)
Pushes-bytes r bytes cb c pushed (at, before, after) = (
  before.more,
  after.more,
  after.grows ∙ ap (λ l. l ++ after.more) (pushed at ∙ ap (λ l. l ++ bytes) before.grows),
)

-- A register that a function keeps for its caller, rbx or r12 to r15, is saved if register
-- allocation gives it to a virtual register: the prologue's code, behind the code before it, has
-- the bytes of the instruction that pushes this register.
pub enc_prologue-regalloc_linear_scan :
    (qsort : List LiveInterval → List LiveInterval) (mf : MachFunc) (cb : CodeBuf) (v i : ℕ)
    (k : ℕ × List ℕ)
    → v < length (regalloc_linear_scan qsort mf).vreg_to_reg
    → get_elem? kept_registers i ≡ some k
    → get_or (regalloc_linear_scan qsort mf).vreg_to_reg v reg_none ≡ k.0
    → (before : List ℕ) × (after : List ℕ) × ((enc_prologue mf
          (regalloc_linear_scan qsort mf)
          cb).data_
        ≡ cb.data_ ++ before ++ k.1 ++ after)
enc_prologue-regalloc_linear_scan qsort mf cb v i k len at given =
    let ra = regalloc_linear_scan qsort mf in
    let kept = all_IsKept i k at in
    let used =
      subst (λ r. reg_is_callee_saved r ≡ true → get_or ra.reg_used r false ≡ true) given
        (regalloc_linear_scan-reg_used qsort mf v len) kept.saved in
    Pushes-bytes k.0 k.1 cb (enc_prologue mf ra cb) kept.pushed (
      enc_prologue-Pushes mf ra cb kept.index k.0 kept.listed
        (rw (kept.saved, kept.general, used) refl))
