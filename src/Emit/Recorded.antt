-- ===== src/Emit/Recorded.antt =====
-- The patches that src/emit.c records for the jump instructions.
use mathlib.Core.List.{append-nil}
use vortech.Prelude.{
  ℕ, zero, suc, ◌+◌, ◌%◌, ◌^◌, ◌≤◌, ◌<◌, map, ◌≡◌, refl, sym, ap, ◌∙◌, subst, Option, none, some,
  some-inj, List, [], ◌∷◌, ◌++◌, arith, length, length-append, get_elem?, take,
}
use vortech.Mach
use vortech.Mach.{MachOpcode, MachInst, MachBlock, MachFunc}
use vortech.Regalloc.{RegAllocResult}
use vortech.Emit.Buffer.{push, cb_ensure, bytes_le}
use vortech.Emit.State.{BranchPatch, Emitter}
use vortech.Emit.Insts.{branch, emit_op}
use vortech.Emit.Funcs.{
  emit_next, emit_insts, emit_blocks, emit_entry, emit_body, emit_func_binary, rel32,
}
use vortech.Emit.Targets.{call_patches}
use vortech.Emit.Jumps.{noted, start_of, emit_func_binary-patches}
use vortech.Emit.Patches.{field}

-- The bytes of a jump in front of its displacement.
abbrev pub jump_size : MachOpcode → Option ℕ
jump_size Mach.jmp = some 1
jump_size Mach.je = some 2
jump_size Mach.jne = some 2
jump_size Mach.jl = some 2
jump_size Mach.jg = some 2
jump_size Mach.jle = some 2
jump_size Mach.jge = some 2
jump_size o = none

-- The patch of a jump that stands at the end of the code: its field is behind the opcode's bytes.
abbrev pub patch_of : ℕ → MachInst → Emitter → BranchPatch
patch_of n i em = record { rel32_offset = length em.code.data_ + n; target_label = i.target_bb }

abbrev recorded : Option ℕ → MachInst → Emitter → List BranchPatch
recorded none i em = []
recorded (some n) i em = patch_of n i em ∷ []

branch-patches :
    (opcode : List ℕ) (i : MachInst) (em : Emitter)
    → (branch (push opcode) i.target_bb em).patches
      ≡ em.patches ++ patch_of (length opcode) i em ∷ []
unfolding branch push cb_ensure
branch-patches opcode i em =
    ap (λ n. em.patches ++ record { rel32_offset = n; target_label = i.target_bb } ∷ [])
      (length-append em.code.data_ opcode)

emit_next-patches :
    (o : MachOpcode) (i : MachInst) (ra : RegAllocResult) (em : Emitter)
    → (emit_next o i ra em).patches ≡ em.patches ++ recorded (jump_size o) i em
unfolding emit_op
emit_next-patches Mach.jmp i ra em = branch-patches (0xe9 ∷ []) i em
emit_next-patches Mach.je i ra em = branch-patches (0x0f ∷ 0x84 ∷ []) i em
emit_next-patches Mach.jne i ra em = branch-patches (0x0f ∷ 0x85 ∷ []) i em
emit_next-patches Mach.jl i ra em = branch-patches (0x0f ∷ 0x8c ∷ []) i em
emit_next-patches Mach.jg i ra em = branch-patches (0x0f ∷ 0x8f ∷ []) i em
emit_next-patches Mach.jle i ra em = branch-patches (0x0f ∷ 0x8e ∷ []) i em
emit_next-patches Mach.jge i ra em = branch-patches (0x0f ∷ 0x8d ∷ []) i em
emit_next-patches Mach.call i ra em = call_patches i ra em ∙ sym (append-nil em.patches)
emit_next-patches _ i ra em = sym (append-nil em.patches)

-- The patch is in the list.
abbrev pub Has : BranchPatch → List BranchPatch → Type 0
Has p ps = (at : ℕ) × (get_elem? ps at ≡ some p)

Has-left : (p : BranchPatch) (ps qs : List BranchPatch) → Has p ps → Has p (ps ++ qs)
Has-left p [] qs (at, e) = cc
Has-left p (x ∷ ps) qs (zero, e) = (zero, e)
Has-left p (x ∷ ps) qs (suc at, e) = let (k, q) = Has-left p ps qs (at, e) in (suc k, q)

Has-last : (p : BranchPatch) (ps : List BranchPatch) → Has p (ps ++ p ∷ [])
Has-last p [] = (zero, refl)
Has-last p (x ∷ ps) = let (k, q) = Has-last p ps in (suc k, q)

module _ (ra : RegAllocResult) (p : BranchPatch) where
  emit_insts-Has :
      (is : List MachInst) (em : Emitter) → Has p em.patches → Has p (emit_insts ra is em).patches
  unfolding emit_insts
  emit_insts-Has [] em h = h
  emit_insts-Has (i ∷ is) em h = emit_insts-Has is (emit_next i.op i ra em) (
      subst (Has p) (sym (emit_next-patches i.op i ra em))
        (Has-left p em.patches (recorded (jump_size i.op) i em) h))

  emit_blocks-Has :
      (bi : ℕ) (bs : List MachBlock) (em : Emitter)
      → Has p em.patches
      → Has p (emit_blocks ra bi bs em).patches
  unfolding emit_blocks
  emit_blocks-Has bi [] em h = h
  emit_blocks-Has bi (b ∷ bs) em h =
      emit_blocks-Has (suc bi) bs _ (emit_insts-Has b.insts (noted bi em) h)

-- The emitter in front of the instruction `k` of a list.
abbrev pub at_inst : RegAllocResult → ℕ → List MachInst → Emitter → Emitter
at_inst ra k is em = emit_insts ra (take k is) em

-- The emitter in front of the instruction `k` of the block `j`.
abbrev pub at_jump : RegAllocResult → (bi j k : ℕ) → List MachBlock → MachBlock → Emitter → Emitter
at_jump ra bi j k bs b em = at_inst ra k b.insts (noted (bi + j) (emit_blocks ra bi (take j bs) em))

module _ (ra : RegAllocResult) (n : ℕ) where
  emit_insts-jump :
      (k : ℕ) (is : List MachInst) (em : Emitter) (i : MachInst)
      → get_elem? is k ≡ some i
      → jump_size i.op ≡ some n
      → Has (patch_of n i (at_inst ra k is em)) (emit_insts ra is em).patches
  unfolding emit_insts
  emit_insts-jump k [] em i at size = cc
  emit_insts-jump zero (x ∷ is) em i at size =
      let same : x ≡ i = some-inj at in
      let p = patch_of n i em in
      emit_insts-Has ra p is (emit_next x.op x ra em) (
        subst (λ (y : MachInst). Has p (emit_next y.op y ra em).patches) (sym same)
          (subst (Has p)
            (sym (emit_next-patches i.op i ra em ∙ ap (λ s. em.patches ++ recorded s i em) size))
            (Has-last p em.patches)))
  emit_insts-jump (suc k) (x ∷ is) em i at size =
      emit_insts-jump k is (emit_next x.op x ra em) i at size

  -- The patch of each jump instruction is recorded.
  pub emit_blocks-jump :
      (bi j k : ℕ) (bs : List MachBlock) (em : Emitter) (b : MachBlock) (i : MachInst)
      → get_elem? bs j ≡ some b
      → get_elem? b.insts k ≡ some i
      → jump_size i.op ≡ some n
      → Has (patch_of n i (at_jump ra bi j k bs b em)) (emit_blocks ra bi bs em).patches
  unfolding emit_blocks
  emit_blocks-jump bi j k [] em b i at inst size = cc
  emit_blocks-jump bi zero k (x ∷ bs) em b i at inst size =
      let same : x ≡ b = some-inj at in
      let here : bi ≡ bi + 0 = omega arith in
      let p = patch_of n i (at_jump ra bi 0 k (x ∷ bs) b em) in
      emit_blocks-Has ra p (suc bi) bs (emit_insts ra x.insts (noted bi em)) (
        subst (λ (y : MachBlock). Has p (emit_insts ra y.insts (noted bi em)).patches) (sym same)
          (subst
            (λ m.
              Has (patch_of n i (at_inst ra k b.insts (noted m em)))
                (emit_insts ra b.insts (noted bi em)).patches)
            here (emit_insts-jump k b.insts (noted bi em) i inst size)))
  emit_blocks-jump bi (suc j) k (x ∷ bs) em b i at inst size =
      let next = emit_insts ra x.insts (noted bi em) in
      let there : suc bi + j ≡ bi + suc j = omega arith in
      subst
        (λ m.
          Has
            (patch_of n i
              (at_inst ra k b.insts (noted m (emit_blocks ra (suc bi) (take j bs) next))))
            (emit_blocks ra (suc bi) bs next).patches)
        there (emit_blocks-jump (suc bi) j k bs next b i at inst size)

-- Where the instruction `k` of the block `j` of a function begins in the code.
abbrev pub place_of : MachFunc → RegAllocResult → Emitter → (j k : ℕ) → MachBlock → ℕ
place_of mf ra em j k b = length (at_jump ra 0 j k mf.blocks b (emit_entry mf ra em)).code.data_

-- Every jump instruction of an emitted function whose target is one of its blocks goes there: in
-- the finished code the four bytes behind its opcode, which is one byte for `jmp` and two for a
-- conditional jump and begins where the code of the instructions before it ends, hold a
-- displacement that leads, modulo 2^32, from the end of these bytes to the place where the target
-- block begins, which is behind the code of the blocks before it; the code is taken to have at
-- most 2^64 bytes.
pub emit_func_binary-jumps :
    (mf : MachFunc) (ra : RegAllocResult) (em : Emitter) (j k n : ℕ) (b : MachBlock) (i : MachInst)
    → length (emit_func_binary mf ra em).code.data_ ≤ 2 ^ 64
    → get_elem? mf.blocks j ≡ some b
    → get_elem? b.insts k ≡ some i
    → jump_size i.op ≡ some n
    → i.target_bb < length mf.blocks
    → (let start = start_of mf ra em i.target_bb in
        let offset = place_of mf ra em j k b + n in
        let rel = rel32 (start % 2 ^ 32) offset in
        (field 4 offset (emit_func_binary mf ra em).code.data_ ≡ map some (bytes_le 4 rel))
        × ((offset + 4 + rel) % 2 ^ 32 ≡ start % 2 ^ 32))
unfolding emit_body
emit_func_binary-jumps mf ra em j k n b i room at inst size inside =
    let (index, e) = emit_blocks-jump ra n 0 j k mf.blocks (emit_entry mf ra em) b i at inst size in
    emit_func_binary-patches mf ra em index _ room e inside
