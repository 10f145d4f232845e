-- ===== src/Emit/Jumps.antt =====
-- Where the jumps of an emitted function of src/emit.c go.
use vortech.Prelude.{
  some, ℕ, zero, suc, ◌+◌, ◌%◌, ◌^◌, ◌≤◌, ◌<◌, ◌≡◌, refl, ap, ◌∙◌, subst, List, [], ◌∷◌, map, arith,
  length, length-set, length-replicate, get_elem?, get_elem?-set_self, get_elem?-set_ne, get_or,
  set, take,
}
use vortech.Mach
use vortech.Mach.{MachOpcode, MachInst, MachBlock, MachFunc}
use vortech.Mach.Registers.{rax}
use vortech.Regalloc.{RegAllocResult}
use vortech.Emit.Buffer.{bytes_le}
use vortech.Emit.State.{BranchPatch, Emitter, emitter_add_sym}
use vortech.Emit.Encode.{enc_mov64_imm32}
use vortech.Emit.Frame.{enc_epilogue}
use vortech.Emit.Funcs.{
  emit_next, emit_insts, emit_blocks, emit_entry, emit_body, emit_func_binary, rel32,
}
use vortech.Emit.Growth
use vortech.Emit.Growth.{IsLonger, self-IsLonger}
use vortech.Emit.Steps.{enc_epilogue-IsLonger}
use vortech.Emit.Patches.{
  IsOrdered, IsOrdered-wider, IsOrdered-inside, field, field-resolve_patches,
  length-resolve_patches,
}
use vortech.Emit.Order.{Keeps, trans, on_code_Keeps, emit_op-Keeps}

self_Keeps : (em : Emitter) → Keeps em em
self_Keeps em = on_code_Keeps (self-IsLonger em.code) refl refl

emit_next-Keeps :
    (o : MachOpcode) (i : MachInst) (ra : RegAllocResult) (em : Emitter)
    → Keeps em (emit_next o i ra em)
emit_next-Keeps Mach.label i ra em = self_Keeps em
emit_next-Keeps Mach.mov i ra em = emit_op-Keeps Mach.mov i ra em
emit_next-Keeps Mach.mov_imm i ra em = emit_op-Keeps Mach.mov_imm i ra em
emit_next-Keeps Mach.add i ra em = emit_op-Keeps Mach.add i ra em
emit_next-Keeps Mach.add_imm i ra em = emit_op-Keeps Mach.add_imm i ra em
emit_next-Keeps Mach.sub i ra em = emit_op-Keeps Mach.sub i ra em
emit_next-Keeps Mach.sub_imm i ra em = emit_op-Keeps Mach.sub_imm i ra em
emit_next-Keeps Mach.mul i ra em = emit_op-Keeps Mach.mul i ra em
emit_next-Keeps Mach.mul_imm i ra em = emit_op-Keeps Mach.mul_imm i ra em
emit_next-Keeps Mach.div i ra em = emit_op-Keeps Mach.div i ra em
emit_next-Keeps Mach.mod_ i ra em = emit_op-Keeps Mach.mod_ i ra em
emit_next-Keeps Mach.and i ra em = emit_op-Keeps Mach.and i ra em
emit_next-Keeps Mach.or i ra em = emit_op-Keeps Mach.or i ra em
emit_next-Keeps Mach.xor i ra em = emit_op-Keeps Mach.xor i ra em
emit_next-Keeps Mach.shl i ra em = emit_op-Keeps Mach.shl i ra em
emit_next-Keeps Mach.shr i ra em = emit_op-Keeps Mach.shr i ra em
emit_next-Keeps Mach.sar i ra em = emit_op-Keeps Mach.sar i ra em
emit_next-Keeps Mach.neg i ra em = emit_op-Keeps Mach.neg i ra em
emit_next-Keeps Mach.not_ i ra em = emit_op-Keeps Mach.not_ i ra em
emit_next-Keeps Mach.cmp i ra em = emit_op-Keeps Mach.cmp i ra em
emit_next-Keeps Mach.cmp_imm i ra em = emit_op-Keeps Mach.cmp_imm i ra em
emit_next-Keeps Mach.test i ra em = emit_op-Keeps Mach.test i ra em
emit_next-Keeps Mach.set_eq i ra em = emit_op-Keeps Mach.set_eq i ra em
emit_next-Keeps Mach.set_neq i ra em = emit_op-Keeps Mach.set_neq i ra em
emit_next-Keeps Mach.set_lt i ra em = emit_op-Keeps Mach.set_lt i ra em
emit_next-Keeps Mach.set_gt i ra em = emit_op-Keeps Mach.set_gt i ra em
emit_next-Keeps Mach.set_leq i ra em = emit_op-Keeps Mach.set_leq i ra em
emit_next-Keeps Mach.set_geq i ra em = emit_op-Keeps Mach.set_geq i ra em
emit_next-Keeps Mach.jmp i ra em = emit_op-Keeps Mach.jmp i ra em
emit_next-Keeps Mach.je i ra em = emit_op-Keeps Mach.je i ra em
emit_next-Keeps Mach.jne i ra em = emit_op-Keeps Mach.jne i ra em
emit_next-Keeps Mach.jl i ra em = emit_op-Keeps Mach.jl i ra em
emit_next-Keeps Mach.jg i ra em = emit_op-Keeps Mach.jg i ra em
emit_next-Keeps Mach.jle i ra em = emit_op-Keeps Mach.jle i ra em
emit_next-Keeps Mach.jge i ra em = emit_op-Keeps Mach.jge i ra em
emit_next-Keeps Mach.call i ra em = emit_op-Keeps Mach.call i ra em
emit_next-Keeps Mach.ret i ra em = emit_op-Keeps Mach.ret i ra em
emit_next-Keeps Mach.push i ra em = emit_op-Keeps Mach.push i ra em
emit_next-Keeps Mach.pop i ra em = emit_op-Keeps Mach.pop i ra em
emit_next-Keeps Mach.lea i ra em = emit_op-Keeps Mach.lea i ra em
emit_next-Keeps Mach.movzx i ra em = emit_op-Keeps Mach.movzx i ra em
emit_next-Keeps Mach.cvtsi2sd i ra em = emit_op-Keeps Mach.cvtsi2sd i ra em
emit_next-Keeps Mach.cvtsd2si i ra em = emit_op-Keeps Mach.cvtsd2si i ra em
emit_next-Keeps Mach.addsd i ra em = emit_op-Keeps Mach.addsd i ra em
emit_next-Keeps Mach.subsd i ra em = emit_op-Keeps Mach.subsd i ra em
emit_next-Keeps Mach.mulsd i ra em = emit_op-Keeps Mach.mulsd i ra em
emit_next-Keeps Mach.divsd i ra em = emit_op-Keeps Mach.divsd i ra em
emit_next-Keeps Mach.xorps i ra em = emit_op-Keeps Mach.xorps i ra em
emit_next-Keeps Mach.comment i ra em = emit_op-Keeps Mach.comment i ra em
emit_next-Keeps Mach.nop i ra em = emit_op-Keeps Mach.nop i ra em
emit_next-Keeps Mach.syscall i ra em = emit_op-Keeps Mach.syscall i ra em

emit_insts-Keeps :
    (ra : RegAllocResult) (is : List MachInst) (em : Emitter) → Keeps em (emit_insts ra is em)
unfolding emit_insts
emit_insts-Keeps ra [] em = self_Keeps em
emit_insts-Keeps ra (i ∷ is) em =
    trans (emit_next-Keeps i.op i ra em) (emit_insts-Keeps ra is (emit_next i.op i ra em))

-- The block's place in the table of labels.
abbrev pub noted : ℕ → Emitter → Emitter
noted bi em = record em { label_offsets = set em.label_offsets bi (length em.code.data_ % 2 ^ 32) }

-- What `Keeps` says, without the labels.
record Extends (em em' : Emitter) : Type 0 where
  longer : IsLonger em.code em'.code
  ordered :
      (lo : ℕ)
      → IsOrdered lo em.patches (length em.code.data_)
      → IsOrdered lo em'.patches (length em'.code.data_)

emit_blocks-Extends :
    (ra : RegAllocResult) (bi : ℕ) (bs : List MachBlock) (em : Emitter)
    → Extends em (emit_blocks ra bi bs em)
unfolding emit_blocks
emit_blocks-Extends ra bi [] em = record { longer = self-IsLonger em.code; ordered = λ lo o. o }
emit_blocks-Extends ra bi (b ∷ bs) em =
    let first = emit_insts-Keeps ra b.insts (noted bi em) in
    let later = emit_blocks-Extends ra (suc bi) bs (emit_insts ra b.insts (noted bi em)) in
    record {
      longer = record {
        more = let m = first.longer.more in let n = later.longer.more in omega arith;
      };
      ordered = λ lo o. later.ordered lo (first.ordered lo o);
    }

labels_length :
    (ra : RegAllocResult) (bi : ℕ) (bs : List MachBlock) (em : Emitter)
    → length (emit_blocks ra bi bs em).label_offsets ≡ length em.label_offsets
unfolding emit_blocks
labels_length ra bi [] em = refl
labels_length ra bi (b ∷ bs) em =
    labels_length ra (suc bi) bs (emit_insts ra b.insts (noted bi em))
    ∙ ap length (emit_insts-Keeps ra b.insts (noted bi em)).labels
    ∙ length-set em.label_offsets bi (length em.code.data_ % 2 ^ 32)

-- The labels of earlier blocks stay.
labels_before :
    (ra : RegAllocResult) (bi i : ℕ) (bs : List MachBlock) (em : Emitter)
    → i < bi
    → get_elem? (emit_blocks ra bi bs em).label_offsets i ≡ get_elem? em.label_offsets i
unfolding emit_blocks
labels_before ra bi i [] em h = refl
labels_before ra bi i (b ∷ bs) em h =
    labels_before ra (suc bi) i bs (emit_insts ra b.insts (noted bi em)) (omega arith)
    ∙ ap (λ ls. get_elem? ls i) (emit_insts-Keeps ra b.insts (noted bi em)).labels
    ∙ get_elem?-set_ne em.label_offsets _ (λ e. ground arith)

-- Where the block at `bi + j` begins: behind the code of the blocks before it.
abbrev pub block_start : RegAllocResult → ℕ → List MachBlock → ℕ → Emitter → ℕ
block_start ra bi bs j em = length (emit_blocks ra bi (take j bs) em).code.data_

label_at :
    (ra : RegAllocResult) (bi j : ℕ) (bs : List MachBlock) (em : Emitter)
    → j < length bs
    → bi + length bs ≤ length em.label_offsets
    → get_elem? (emit_blocks ra bi bs em).label_offsets (bi + j)
      ≡ some (block_start ra bi bs j em % 2 ^ 32)
unfolding emit_blocks
label_at ra bi j [] em h room = ground arith
label_at ra bi zero (b ∷ bs) em h room =
    let next = emit_insts ra b.insts (noted bi em) in
    let at : bi + 0 ≡ bi = omega arith in
    rw at (
      labels_before ra (suc bi) bi bs next (omega arith)
      ∙ ap (λ ls. get_elem? ls bi) (emit_insts-Keeps ra b.insts (noted bi em)).labels
      ∙ get_elem?-set_self em.label_offsets bi _ (omega arith))
label_at ra bi (suc j) (b ∷ bs) em h room =
    let next = emit_insts ra b.insts (noted bi em) in
    let e =
      ap length (emit_insts-Keeps ra b.insts (noted bi em)).labels
      ∙ length-set em.label_offsets bi (length em.code.data_ % 2 ^ 32) in
    let at : bi + suc j ≡ suc bi + j = omega arith in
    rw at (label_at ra (suc bi) j bs next (omega arith) (omega arith))

get_or_of : (xs : List ℕ) (i : ℕ) {v : ℕ} → get_elem? xs i ≡ some v → get_or xs i 0 ≡ v
get_or_of [] i e = cc
get_or_of (x ∷ xs) zero e = cc
get_or_of (x ∷ xs) (suc i) e = get_or_of xs i e

-- Where the block `j` of a function begins in the code.
abbrev pub start_of : MachFunc → RegAllocResult → Emitter → ℕ → ℕ
start_of mf ra em j = block_start ra 0 mf.blocks j (emit_entry mf ra em)

label_of :
    (mf : MachFunc) (ra : RegAllocResult) (em : Emitter) (j : ℕ)
    → j < length mf.blocks
    → (get_or (emit_body mf ra em).label_offsets j 0 ≡ start_of mf ra em j % 2 ^ 32)
      × (j < length (emit_body mf ra em).label_offsets)
unfolding emit_body emit_entry emitter_add_sym
label_of mf ra em j h =
    let entry = emit_entry mf ra em in
    let count : length entry.label_offsets ≡ length mf.blocks =
      length-replicate (length mf.blocks) 0 in
    let total = labels_length ra 0 mf.blocks entry in
    let at = label_at ra 0 j mf.blocks entry h (omega arith) in
    let index : 0 + j ≡ j = omega arith in
    (
      get_or_of (emit_body mf ra em).label_offsets j (
          subst
            (λ k.
              get_elem? (emit_body mf ra em).label_offsets k ≡ some (start_of mf ra em j % 2 ^ 32))
            index at),
      omega arith,
    )

body-IsOrdered :
    (mf : MachFunc) (ra : RegAllocResult) (em : Emitter)
    → (let body = emit_body mf ra em in IsOrdered 0 body.patches (length body.code.data_))
unfolding emit_body emit_entry emitter_add_sym
body-IsOrdered mf ra em =
    (emit_blocks-Extends ra 0 mf.blocks (emit_entry mf ra em)).ordered 0 (omega arith)

rel32_lem :
    (start offset : ℕ)
    → offset + 4 ≤ 2 ^ 64
    → (offset + 4 + rel32 (start % 2 ^ 32) offset) % 2 ^ 32 ≡ start % 2 ^ 32
rel32_lem start offset h = omega arith

-- The field of a recorded patch whose target is a block holds the displacement to this block.
pub emit_func_binary-patches :
    (mf : MachFunc) (ra : RegAllocResult) (em : Emitter) (i : ℕ) (p : BranchPatch)
    → length (emit_func_binary mf ra em).code.data_ ≤ 2 ^ 64
    → get_elem? (emit_body mf ra em).patches i ≡ some p
    → p.target_label < length mf.blocks
    → (let start = start_of mf ra em p.target_label in
        let rel = rel32 (start % 2 ^ 32) p.rel32_offset in
        (field 4 p.rel32_offset (emit_func_binary mf ra em).code.data_ ≡ map some (bytes_le 4 rel))
        × ((p.rel32_offset + 4 + rel) % 2 ^ 32 ≡ start % 2 ^ 32))
unfolding emit_func_binary
emit_func_binary-patches mf ra em i p room e t =
    let body = emit_body mf ra em in
    let ended = enc_epilogue ra (enc_mov64_imm32 rax 0 body.code) in
    let longer =
      (enc_epilogue-IsLonger ra
        (Growth.enc_mov64_imm32-IsLonger (self-IsLonger body.code) rax 0)).more in
    let ordered = IsOrdered-wider 0 body.patches _ _ longer (body-IsOrdered mf ra em) in
    let (label, inside) = label_of mf ra em p.target_label t in
    let written =
      field-resolve_patches body.label_offsets body.patches ended 0 i p ordered e inside in
    let size = length-resolve_patches body.label_offsets body.patches ended in
    (
      written ∙ ap (λ l. map some (bytes_le 4 (rel32 l p.rel32_offset))) label,
      rel32_lem (start_of mf ra em p.target_label) p.rel32_offset
          (let at = IsOrdered-inside 0 body.patches _ i p ordered e in omega arith),
    )
