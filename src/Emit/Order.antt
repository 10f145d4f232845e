-- ===== src/Emit/Order.antt =====
-- The order of the branch patches of src/emit.c, over the steps of the emitter.
use vortech.Prelude.{
  Option, none, some, ℕ, ◌+◌, ◌≡◌, refl, sym, ◌∙◌, subst, not, ◌&&◌, ◌==◌, List, [], ◌∷◌, arith,
  length, length-append,
}
use vortech.Mach
use vortech.Mach.{MachOpcode, MachInst, MachBlock, MachFunc, Width, byte, dword, qword}
use vortech.Mach.Registers.{param_regs, rax}
use vortech.Regalloc.{RegAllocResult}
use vortech.Emit.Buffer.{CodeBuf, push, cb_ensure, cb_push1, bytes_le}
use vortech.Mach.Run.{reg_valid}
use vortech.Emit.Encode.{enc_mov64}
use vortech.Emit.State.{
  Emitter, on_code, emitter_add_sym, emitter_ensure_extern, emitter_find_sym, or_extern,
}
use vortech.Emit.Insts.{move_args, code_of, branch, emit_call, emit_op, name_or_unknown, args}
use vortech.Emit.Growth
use vortech.Emit.Growth.{IsLonger, self-IsLonger, push-IsLonger, if_IsLonger}
use vortech.Emit.Steps.{code_of-IsLonger, move_args-IsLonger, when-IsLonger}
use vortech.Emit.Patches.{IsOrdered, IsOrdered-wider, IsOrdered-behind}

-- From `em` to `em'` the code grows, the patches stay one behind the other and inside the code, and
-- the labels stay as they are.
pub record Keeps (em em' : Emitter) : Type 0 where
  pub longer : IsLonger em.code em'.code
  pub ordered :
      (lo : ℕ)
      → IsOrdered lo em.patches (length em.code.data_)
      → IsOrdered lo em'.patches (length em'.code.data_)
  pub labels : em'.label_offsets ≡ em.label_offsets

pub trans : {a b c : Emitter} → Keeps a b → Keeps b c → Keeps a c
trans h k = record {
  longer = record { more = let m = h.longer.more in let n = k.longer.more in omega arith };
  ordered = λ lo o. k.ordered lo (h.ordered lo o);
  labels = k.labels ∙ h.labels;
}

-- A step that leaves the patches and the labels alone.
pub on_code_Keeps :
    {em em' : Emitter}
    → IsLonger em.code em'.code
    → em'.patches ≡ em.patches
    → em'.label_offsets ≡ em.label_offsets
    → Keeps em em'
on_code_Keeps {em = em} longer same labels = record {
  longer = longer;
  ordered = λ lo o. rw same (IsOrdered-wider lo em.patches _ _ longer.more o);
  labels = labels;
}

length-push :
    (bytes : List ℕ) (c : CodeBuf) → length (push bytes c).data_ ≡ length c.data_ + length bytes
unfolding push cb_ensure
length-push bytes c = length-append c.data_ bytes

branch-Keeps :
    (opcode : List ℕ) (target : ℕ) (em : Emitter) → Keeps em (branch (push opcode) target em)
unfolding branch
branch-Keeps opcode target em =
    let start = length-push opcode em.code in
    let placed = length-push (bytes_le 4 0) (push opcode em.code) in
    record {
      longer = push-IsLonger _ (push-IsLonger opcode (self-IsLonger em.code));
      ordered = λ lo o.
          IsOrdered-wider lo _ _ _ (omega arith)
            (IsOrdered-behind lo em.patches (length em.code.data_) _ (omega arith) o);
      labels = refl;
    }

pub ensure_extern_same :
    (em : Emitter) (name : List ℕ) (found : Option ℕ)
    → (let out = (or_extern em name found).1 in
        (out.code ≡ em.code) × (out.patches ≡ em.patches) × (out.label_offsets ≡ em.label_offsets))
unfolding emitter_add_sym
ensure_extern_same em name none = (refl, refl, refl)
ensure_extern_same em name (some i) = (refl, refl, refl)

call-Keeps : (i : MachInst) (ra : RegAllocResult) (em : Emitter) → Keeps em (emit_call i ra em)
unfolding emit_call emitter_ensure_extern
call-Keeps i ra em =
    let moved =
      move_args-IsLonger ra (args i.arg_vregs) param_regs em.code (self-IsLonger em.code) in
    let opcode = cb_push1 0xe8 (move_args ra (args i.arg_vregs) param_regs em.code) in
    let placed = record em { code = push (bytes_le 4 0xffff_ffff) opcode } in
    let name = name_or_unknown i.func_name in
    let (code, patches, labels) = ensure_extern_same placed name (emitter_find_sym placed name) in
    let longer : IsLonger em.code (push (bytes_le 4 0xffff_ffff) opcode) =
      push-IsLonger _ (push-IsLonger _ moved) in
    let linked = subst (IsLonger em.code) (sym code) longer in
    on_code_Keeps
      (when-IsLonger (reg_valid i.dst && not (i.dst == rax)) (enc_mov64 i.dst rax) linked
        (Growth.enc_mov64-IsLonger linked i.dst rax))
      patches labels

code-Keeps :
    (o : MachOpcode) (i : MachInst) (ra : RegAllocResult) (em : Emitter)
    → Keeps em (on_code (code_of o i ra) em)
code-Keeps o i ra em = on_code_Keeps (code_of-IsLonger o i ra (self-IsLonger em.code)) refl refl

pub emit_op-Keeps :
    (o : MachOpcode) (i : MachInst) (ra : RegAllocResult) (em : Emitter)
    → Keeps em (emit_op o i ra em)
unfolding emit_op
emit_op-Keeps Mach.jmp i ra em = branch-Keeps (0xe9 ∷ []) i.target_bb em
emit_op-Keeps Mach.je i ra em = branch-Keeps (0x0f ∷ 0x84 ∷ []) i.target_bb em
emit_op-Keeps Mach.jne i ra em = branch-Keeps (0x0f ∷ 0x85 ∷ []) i.target_bb em
emit_op-Keeps Mach.jl i ra em = branch-Keeps (0x0f ∷ 0x8c ∷ []) i.target_bb em
emit_op-Keeps Mach.jg i ra em = branch-Keeps (0x0f ∷ 0x8f ∷ []) i.target_bb em
emit_op-Keeps Mach.jle i ra em = branch-Keeps (0x0f ∷ 0x8e ∷ []) i.target_bb em
emit_op-Keeps Mach.jge i ra em = branch-Keeps (0x0f ∷ 0x8d ∷ []) i.target_bb em
emit_op-Keeps Mach.call i ra em = call-Keeps i ra em
emit_op-Keeps Mach.mov i ra em = code-Keeps Mach.mov i ra em
emit_op-Keeps Mach.mov_imm i ra em = code-Keeps Mach.mov_imm i ra em
emit_op-Keeps Mach.add i ra em = code-Keeps Mach.add i ra em
emit_op-Keeps Mach.add_imm i ra em = code-Keeps Mach.add_imm i ra em
emit_op-Keeps Mach.sub i ra em = code-Keeps Mach.sub i ra em
emit_op-Keeps Mach.sub_imm i ra em = code-Keeps Mach.sub_imm i ra em
emit_op-Keeps Mach.mul i ra em = code-Keeps Mach.mul i ra em
emit_op-Keeps Mach.mul_imm i ra em = code-Keeps Mach.mul_imm i ra em
emit_op-Keeps Mach.div i ra em = code-Keeps Mach.div i ra em
emit_op-Keeps Mach.mod_ i ra em = code-Keeps Mach.mod_ i ra em
emit_op-Keeps Mach.and i ra em = code-Keeps Mach.and i ra em
emit_op-Keeps Mach.or i ra em = code-Keeps Mach.or i ra em
emit_op-Keeps Mach.xor i ra em = code-Keeps Mach.xor i ra em
emit_op-Keeps Mach.shl i ra em = code-Keeps Mach.shl i ra em
emit_op-Keeps Mach.shr i ra em = code-Keeps Mach.shr i ra em
emit_op-Keeps Mach.sar i ra em = code-Keeps Mach.sar i ra em
emit_op-Keeps Mach.neg i ra em = code-Keeps Mach.neg i ra em
emit_op-Keeps Mach.not_ i ra em = code-Keeps Mach.not_ i ra em
emit_op-Keeps Mach.cmp i ra em = code-Keeps Mach.cmp i ra em
emit_op-Keeps Mach.cmp_imm i ra em = code-Keeps Mach.cmp_imm i ra em
emit_op-Keeps Mach.test i ra em = code-Keeps Mach.test i ra em
emit_op-Keeps Mach.set_eq i ra em = code-Keeps Mach.set_eq i ra em
emit_op-Keeps Mach.set_neq i ra em = code-Keeps Mach.set_neq i ra em
emit_op-Keeps Mach.set_lt i ra em = code-Keeps Mach.set_lt i ra em
emit_op-Keeps Mach.set_gt i ra em = code-Keeps Mach.set_gt i ra em
emit_op-Keeps Mach.set_leq i ra em = code-Keeps Mach.set_leq i ra em
emit_op-Keeps Mach.set_geq i ra em = code-Keeps Mach.set_geq i ra em
emit_op-Keeps Mach.ret i ra em = code-Keeps Mach.ret i ra em
emit_op-Keeps Mach.push i ra em = code-Keeps Mach.push i ra em
emit_op-Keeps Mach.pop i ra em = code-Keeps Mach.pop i ra em
emit_op-Keeps Mach.lea i ra em = code-Keeps Mach.lea i ra em
emit_op-Keeps Mach.movzx i ra em = code-Keeps Mach.movzx i ra em
emit_op-Keeps Mach.cvtsi2sd i ra em = code-Keeps Mach.cvtsi2sd i ra em
emit_op-Keeps Mach.cvtsd2si i ra em = code-Keeps Mach.cvtsd2si i ra em
emit_op-Keeps Mach.addsd i ra em = code-Keeps Mach.addsd i ra em
emit_op-Keeps Mach.subsd i ra em = code-Keeps Mach.subsd i ra em
emit_op-Keeps Mach.mulsd i ra em = code-Keeps Mach.mulsd i ra em
emit_op-Keeps Mach.divsd i ra em = code-Keeps Mach.divsd i ra em
emit_op-Keeps Mach.xorps i ra em = code-Keeps Mach.xorps i ra em
emit_op-Keeps Mach.label i ra em = code-Keeps Mach.label i ra em
emit_op-Keeps Mach.comment i ra em = code-Keeps Mach.comment i ra em
emit_op-Keeps Mach.nop i ra em = code-Keeps Mach.nop i ra em
emit_op-Keeps Mach.syscall i ra em = code-Keeps Mach.syscall i ra em
