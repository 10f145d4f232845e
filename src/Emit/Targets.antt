-- ===== src/Emit/Targets.antt =====
-- The targets of the branch patches that src/emit.c records.
use vortech.Prelude.{
  ℕ, suc, ◌<◌, ◌≡◌, sym, subst, List, [], ◌∷◌, All, All-append, All-get_elem?, get_elem?, length,
  some,
}
use vortech.Mach
use vortech.Mach.{MachOpcode, MachInst, MachBlock, MachFunc}
use vortech.Regalloc.{RegAllocResult}
use vortech.Mach.Registers.{param_regs}
use vortech.Emit.Buffer.{push, cb_push1, bytes_le}
use vortech.Emit.State.{
  BranchPatch, Emitter, emitter_add_sym, emitter_ensure_extern, emitter_find_sym,
}
use vortech.Emit.Order.{ensure_extern_same}
use vortech.Emit.Insts.{branch, emit_call, emit_op, move_args, name_or_unknown, args}
use vortech.Emit.Funcs.{emit_next, emit_insts, emit_blocks, emit_entry, emit_body}

-- Every patch goes to one of the first `n` blocks.
abbrev Targets : ℕ → BranchPatch → Type 0
Targets n p = p.target_label < n

abbrev pub Inside : ℕ → Emitter → Type 0
Inside n em = All (Targets n) em.patches

pub call_patches :
    (i : MachInst) (ra : RegAllocResult) (em : Emitter) → (emit_call i ra em).patches ≡ em.patches
unfolding emit_call emitter_ensure_extern
call_patches i ra em =
    let opcode = cb_push1 0xe8 (move_args ra (args i.arg_vregs) param_regs em.code) in
    let placed = record em { code = push (bytes_le 4 0xffff_ffff) opcode } in
    let name = name_or_unknown i.func_name in
    (ensure_extern_same placed name (emitter_find_sym placed name)).1

module _ (n : ℕ) where
  emit_op-Inside :
      (o : MachOpcode) (i : MachInst) (ra : RegAllocResult) (em : Emitter)
      → i.target_bb < n
      → Inside n em
      → Inside n (emit_op o i ra em)
  unfolding emit_op branch
  emit_op-Inside Mach.mov i ra em lt h = h
  emit_op-Inside Mach.mov_imm i ra em lt h = h
  emit_op-Inside Mach.add i ra em lt h = h
  emit_op-Inside Mach.add_imm i ra em lt h = h
  emit_op-Inside Mach.sub i ra em lt h = h
  emit_op-Inside Mach.sub_imm i ra em lt h = h
  emit_op-Inside Mach.mul i ra em lt h = h
  emit_op-Inside Mach.mul_imm i ra em lt h = h
  emit_op-Inside Mach.div i ra em lt h = h
  emit_op-Inside Mach.mod_ i ra em lt h = h
  emit_op-Inside Mach.and i ra em lt h = h
  emit_op-Inside Mach.or i ra em lt h = h
  emit_op-Inside Mach.xor i ra em lt h = h
  emit_op-Inside Mach.shl i ra em lt h = h
  emit_op-Inside Mach.shr i ra em lt h = h
  emit_op-Inside Mach.sar i ra em lt h = h
  emit_op-Inside Mach.neg i ra em lt h = h
  emit_op-Inside Mach.not_ i ra em lt h = h
  emit_op-Inside Mach.cmp i ra em lt h = h
  emit_op-Inside Mach.cmp_imm i ra em lt h = h
  emit_op-Inside Mach.test i ra em lt h = h
  emit_op-Inside Mach.set_eq i ra em lt h = h
  emit_op-Inside Mach.set_neq i ra em lt h = h
  emit_op-Inside Mach.set_lt i ra em lt h = h
  emit_op-Inside Mach.set_gt i ra em lt h = h
  emit_op-Inside Mach.set_leq i ra em lt h = h
  emit_op-Inside Mach.set_geq i ra em lt h = h
  emit_op-Inside Mach.jmp i ra em lt h = All-append (Targets n) em.patches _ h (lt, tt)
  emit_op-Inside Mach.je i ra em lt h = All-append (Targets n) em.patches _ h (lt, tt)
  emit_op-Inside Mach.jne i ra em lt h = All-append (Targets n) em.patches _ h (lt, tt)
  emit_op-Inside Mach.jl i ra em lt h = All-append (Targets n) em.patches _ h (lt, tt)
  emit_op-Inside Mach.jg i ra em lt h = All-append (Targets n) em.patches _ h (lt, tt)
  emit_op-Inside Mach.jle i ra em lt h = All-append (Targets n) em.patches _ h (lt, tt)
  emit_op-Inside Mach.jge i ra em lt h = All-append (Targets n) em.patches _ h (lt, tt)
  emit_op-Inside Mach.call i ra em lt h = subst (All (Targets n)) (sym (call_patches i ra em)) h
  emit_op-Inside Mach.ret i ra em lt h = h
  emit_op-Inside Mach.push i ra em lt h = h
  emit_op-Inside Mach.pop i ra em lt h = h
  emit_op-Inside Mach.lea i ra em lt h = h
  emit_op-Inside Mach.movzx i ra em lt h = h
  emit_op-Inside Mach.cvtsi2sd i ra em lt h = h
  emit_op-Inside Mach.cvtsd2si i ra em lt h = h
  emit_op-Inside Mach.addsd i ra em lt h = h
  emit_op-Inside Mach.subsd i ra em lt h = h
  emit_op-Inside Mach.mulsd i ra em lt h = h
  emit_op-Inside Mach.divsd i ra em lt h = h
  emit_op-Inside Mach.xorps i ra em lt h = h
  emit_op-Inside Mach.label i ra em lt h = h
  emit_op-Inside Mach.comment i ra em lt h = h
  emit_op-Inside Mach.nop i ra em lt h = h
  emit_op-Inside Mach.syscall i ra em lt h = h

  emit_next-Inside :
      (o : MachOpcode) (i : MachInst) (ra : RegAllocResult) (em : Emitter)
      → i.target_bb < n
      → Inside n em
      → Inside n (emit_next o i ra em)
  emit_next-Inside Mach.label i ra em lt h = h
  emit_next-Inside Mach.mov i ra em lt h = emit_op-Inside Mach.mov i ra em lt h
  emit_next-Inside Mach.mov_imm i ra em lt h = emit_op-Inside Mach.mov_imm i ra em lt h
  emit_next-Inside Mach.add i ra em lt h = emit_op-Inside Mach.add i ra em lt h
  emit_next-Inside Mach.add_imm i ra em lt h = emit_op-Inside Mach.add_imm i ra em lt h
  emit_next-Inside Mach.sub i ra em lt h = emit_op-Inside Mach.sub i ra em lt h
  emit_next-Inside Mach.sub_imm i ra em lt h = emit_op-Inside Mach.sub_imm i ra em lt h
  emit_next-Inside Mach.mul i ra em lt h = emit_op-Inside Mach.mul i ra em lt h
  emit_next-Inside Mach.mul_imm i ra em lt h = emit_op-Inside Mach.mul_imm i ra em lt h
  emit_next-Inside Mach.div i ra em lt h = emit_op-Inside Mach.div i ra em lt h
  emit_next-Inside Mach.mod_ i ra em lt h = emit_op-Inside Mach.mod_ i ra em lt h
  emit_next-Inside Mach.and i ra em lt h = emit_op-Inside Mach.and i ra em lt h
  emit_next-Inside Mach.or i ra em lt h = emit_op-Inside Mach.or i ra em lt h
  emit_next-Inside Mach.xor i ra em lt h = emit_op-Inside Mach.xor i ra em lt h
  emit_next-Inside Mach.shl i ra em lt h = emit_op-Inside Mach.shl i ra em lt h
  emit_next-Inside Mach.shr i ra em lt h = emit_op-Inside Mach.shr i ra em lt h
  emit_next-Inside Mach.sar i ra em lt h = emit_op-Inside Mach.sar i ra em lt h
  emit_next-Inside Mach.neg i ra em lt h = emit_op-Inside Mach.neg i ra em lt h
  emit_next-Inside Mach.not_ i ra em lt h = emit_op-Inside Mach.not_ i ra em lt h
  emit_next-Inside Mach.cmp i ra em lt h = emit_op-Inside Mach.cmp i ra em lt h
  emit_next-Inside Mach.cmp_imm i ra em lt h = emit_op-Inside Mach.cmp_imm i ra em lt h
  emit_next-Inside Mach.test i ra em lt h = emit_op-Inside Mach.test i ra em lt h
  emit_next-Inside Mach.set_eq i ra em lt h = emit_op-Inside Mach.set_eq i ra em lt h
  emit_next-Inside Mach.set_neq i ra em lt h = emit_op-Inside Mach.set_neq i ra em lt h
  emit_next-Inside Mach.set_lt i ra em lt h = emit_op-Inside Mach.set_lt i ra em lt h
  emit_next-Inside Mach.set_gt i ra em lt h = emit_op-Inside Mach.set_gt i ra em lt h
  emit_next-Inside Mach.set_leq i ra em lt h = emit_op-Inside Mach.set_leq i ra em lt h
  emit_next-Inside Mach.set_geq i ra em lt h = emit_op-Inside Mach.set_geq i ra em lt h
  emit_next-Inside Mach.jmp i ra em lt h = emit_op-Inside Mach.jmp i ra em lt h
  emit_next-Inside Mach.je i ra em lt h = emit_op-Inside Mach.je i ra em lt h
  emit_next-Inside Mach.jne i ra em lt h = emit_op-Inside Mach.jne i ra em lt h
  emit_next-Inside Mach.jl i ra em lt h = emit_op-Inside Mach.jl i ra em lt h
  emit_next-Inside Mach.jg i ra em lt h = emit_op-Inside Mach.jg i ra em lt h
  emit_next-Inside Mach.jle i ra em lt h = emit_op-Inside Mach.jle i ra em lt h
  emit_next-Inside Mach.jge i ra em lt h = emit_op-Inside Mach.jge i ra em lt h
  emit_next-Inside Mach.call i ra em lt h = emit_op-Inside Mach.call i ra em lt h
  emit_next-Inside Mach.ret i ra em lt h = emit_op-Inside Mach.ret i ra em lt h
  emit_next-Inside Mach.push i ra em lt h = emit_op-Inside Mach.push i ra em lt h
  emit_next-Inside Mach.pop i ra em lt h = emit_op-Inside Mach.pop i ra em lt h
  emit_next-Inside Mach.lea i ra em lt h = emit_op-Inside Mach.lea i ra em lt h
  emit_next-Inside Mach.movzx i ra em lt h = emit_op-Inside Mach.movzx i ra em lt h
  emit_next-Inside Mach.cvtsi2sd i ra em lt h = emit_op-Inside Mach.cvtsi2sd i ra em lt h
  emit_next-Inside Mach.cvtsd2si i ra em lt h = emit_op-Inside Mach.cvtsd2si i ra em lt h
  emit_next-Inside Mach.addsd i ra em lt h = emit_op-Inside Mach.addsd i ra em lt h
  emit_next-Inside Mach.subsd i ra em lt h = emit_op-Inside Mach.subsd i ra em lt h
  emit_next-Inside Mach.mulsd i ra em lt h = emit_op-Inside Mach.mulsd i ra em lt h
  emit_next-Inside Mach.divsd i ra em lt h = emit_op-Inside Mach.divsd i ra em lt h
  emit_next-Inside Mach.xorps i ra em lt h = emit_op-Inside Mach.xorps i ra em lt h
  emit_next-Inside Mach.comment i ra em lt h = emit_op-Inside Mach.comment i ra em lt h
  emit_next-Inside Mach.nop i ra em lt h = emit_op-Inside Mach.nop i ra em lt h
  emit_next-Inside Mach.syscall i ra em lt h = emit_op-Inside Mach.syscall i ra em lt h

  emit_insts-Inside :
      (ra : RegAllocResult) (is : List MachInst) (em : Emitter)
      → All (λ (i : MachInst). i.target_bb < n) is
      → Inside n em
      → Inside n (emit_insts ra is em)
  unfolding emit_insts
  emit_insts-Inside ra [] em lt h = h
  emit_insts-Inside ra (i ∷ is) em lt h =
      emit_insts-Inside ra is (emit_next i.op i ra em) lt.1 (emit_next-Inside i.op i ra em lt.0 h)

  emit_blocks-Inside :
      (ra : RegAllocResult) (bi : ℕ) (bs : List MachBlock) (em : Emitter)
      → All (λ (b : MachBlock). All (λ (i : MachInst). i.target_bb < n) b.insts) bs
      → Inside n em
      → Inside n (emit_blocks ra bi bs em)
  unfolding emit_blocks
  emit_blocks-Inside ra bi [] em lt h = h
  emit_blocks-Inside ra bi (b ∷ bs) em lt h =
      emit_blocks-Inside ra (suc bi) bs _ lt.1 (emit_insts-Inside ra b.insts _ lt.0 h)

-- The patches of a function whose instructions' targets are its blocks go to these.
pub emit_body-Inside :
    (mf : MachFunc) (ra : RegAllocResult) (em : Emitter) (i : ℕ) (p : BranchPatch)
    → All
        (λ (b : MachBlock). All (λ (mi : MachInst). mi.target_bb < length mf.blocks) b.insts)
        mf.blocks
    → get_elem? (emit_body mf ra em).patches i ≡ some p
    → p.target_label < length mf.blocks
unfolding emit_body emit_entry emitter_add_sym
emit_body-Inside mf ra em i p lt at =
    All-get_elem? (Targets (length mf.blocks)) (emit_body mf ra em).patches i
      (emit_blocks-Inside (length mf.blocks) ra 0 mf.blocks (emit_entry mf ra em) lt tt) at
