-- ===== src/Emit/Funcs.antt =====
-- The emission of functions, the branch patches and the print helper of src/emit.c, up to the
-- object file.
use vortech.Prelude.{
  ℕ, suc, ◌+◌, ◌-◌, ◌%◌, ◌^◌, Option, none, some, List, [], ◌∷◌, ltb, if◌then◌else◌, length, get_or,
  set, replicate,
}
use vortech.Prelude.Int.{negsuc, sub_ℕ}
use vortech.Lexer.Kinds.{codes}
use vortech.Mach
use vortech.Mach.{MachOpcode, MachInst, MachBlock, MachFunc}
use vortech.Mach.Registers.{rax, rsp, rbp, rsi, rdi}
use vortech.Regalloc.{RegAllocResult}
use vortech.Emit.Buffer.{CodeBuf, cb_push1, cb_push2, cb_push32le, cb_patch32}
use vortech.Emit.Encode.{enc_push, enc_pop, enc_mov64, enc_mov64_imm32, enc_lea64_rip, enc_ret}
use vortech.Emit.State.{
  BranchPatch, ElfSym, Emitter, on_code, emitter_create, emitter_add_sym, emitter_add_reloc,
  emitter_ensure_extern, emitter_find_sym, stb_global, stt_func, stt_notype, r_x86_64_pc32,
  r_x86_64_plt32,
}
use vortech.Emit.Frame.{enc_prologue, enc_epilogue}
use vortech.Emit.Insts.{emit_op}

-- A label stands at the beginning of a block and emits nothing.
abbrev pub emit_next : MachOpcode → MachInst → RegAllocResult → Emitter → Emitter
emit_next Mach.label i ra em = em
emit_next o i ra em = emit_op o i ra em

unfoldable pub emit_insts : RegAllocResult → List MachInst → Emitter → Emitter
unfolding emit_op
emit_insts ra [] em = em
emit_insts ra (i ∷ is) em = emit_insts ra is (emit_next i.op i ra em)

-- The offset of the block at `bi` is noted before its instructions.
unfoldable pub emit_blocks : RegAllocResult → ℕ → List MachBlock → Emitter → Emitter
unfolding emit_insts
emit_blocks ra bi [] em = em
emit_blocks ra bi (b ∷ bs) em =
    let noted = record em {
      label_offsets = set em.label_offsets bi (length em.code.data_ % 2 ^ 32);
    } in
    emit_blocks ra (suc bi) bs (emit_insts ra b.insts noted)

-- From the end of the field at `offset` to `target`, modulo 2^32.
abbrev pub rel32 : ℕ → ℕ → ℕ
rel32 target offset = (target + 2 ^ 64 - (offset + 4)) % 2 ^ 32

unfoldable pub resolve_patches : List ℕ → List BranchPatch → CodeBuf → CodeBuf
unfolding cb_patch32
resolve_patches labels [] cb = cb
resolve_patches labels (p ∷ ps) cb = resolve_patches labels ps (
    if ltb p.target_label (length labels)
    then cb_patch32 p.rel32_offset (rel32 (get_or labels p.target_label 0) p.rel32_offset) cb
    else cb)

-- `syms[nsyms - 1].size = size`
abbrev pub set_last_size : ℕ → List ElfSym → List ElfSym
set_last_size size [] = []
set_last_size size (s ∷ []) = record s { size = size } ∷ []
set_last_size size (s ∷ t ∷ ss) = s ∷ set_last_size size (t ∷ ss)

-- The function's symbol and its prologue.
unfoldable pub emit_entry : MachFunc → RegAllocResult → Emitter → Emitter
emit_entry mf ra em =
    let start = record em { patches = []; label_offsets = replicate (length mf.blocks) 0 } in
    on_code (enc_prologue mf ra)
      (emitter_add_sym start mf.name stb_global stt_func 1 (length em.code.data_) 0).1

unfoldable pub emit_body : MachFunc → RegAllocResult → Emitter → Emitter
unfolding emit_blocks emit_entry
emit_body mf ra em = emit_blocks ra 0 mf.blocks (emit_entry mf ra em)

unfoldable pub emit_func_binary : MachFunc → RegAllocResult → Emitter → Emitter
unfolding emit_body resolve_patches
emit_func_binary mf ra em =
    let body = emit_body mf ra em in
    let ended = enc_epilogue ra (enc_mov64_imm32 rax 0 body.code) in
    let patched = resolve_patches body.label_offsets body.patches ended in
    record body {
      code = patched;
      syms = set_last_size (length patched.data_ - length em.code.data_) body.syms;
    }

-- The string "%lld\n" with its closing 0.
abbrev pub print_format : List ℕ
print_format = 0x25 ∷ 0x6c ∷ 0x6c ∷ 0x64 ∷ 10 ∷ 0 ∷ []

push_each : List ℕ → CodeBuf → CodeBuf
push_each [] cb = cb
push_each (b ∷ bs) cb = push_each bs (cb_push1 b cb)

abbrev or_rodata : Emitter → Option ℕ → ℕ × Emitter
or_rodata em none = emitter_add_sym em (codes ".rodata") stb_global stt_notype 2 0 0
or_rodata em (some i) = (i, em)

unfoldable pub emit_print_helper : Emitter → Emitter
unfolding push_each
emit_print_helper em =
    let func_start = length em.code.data_ in
    let fmt_off = length em.rodata.data_ % 2 ^ 32 in
    let with_format = record em { rodata = push_each print_format em.rodata } in
    let named =
      (emitter_add_sym with_format (codes "__vortech_print_i64") stb_global stt_func 1 func_start
        0).1 in
    let entry =
      on_code (λ cb. enc_lea64_rip rdi 0 (enc_mov64 rsi rdi (enc_mov64 rbp rsp (enc_push rbp cb))))
        named in
    let (rodata_sym, known) = or_rodata entry (emitter_find_sym entry (codes ".rodata")) in
    let loaded =
      emitter_add_reloc known ((length entry.code.data_ - 4) % 2 ^ 32) r_x86_64_pc32 rodata_sym
        (sub_ℕ fmt_off 4) in
    let opcode = cb_push1 0xe8 (cb_push2 0x31 0xc0 loaded.code) in
    let (printf_sym, linked) =
      emitter_ensure_extern (record loaded { code = cb_push32le 0 opcode }) (codes "printf") in
    let called =
      emitter_add_reloc linked (length opcode.data_ % 2 ^ 32) r_x86_64_plt32 printf_sym
        (negsuc 3) in
    let done = on_code (λ cb. enc_ret (enc_pop rbp (enc_mov64 rsp rbp cb))) called in
    record done { syms = set_last_size (length done.code.data_ - func_start) done.syms }

emit_funcs : List (MachFunc × RegAllocResult) → Emitter → Emitter
unfolding emit_func_binary
emit_funcs [] em = em
emit_funcs ((mf, ra) ∷ rest) em = emit_funcs rest (emit_func_binary mf ra em)

-- What `emit_object` hands to `emit_write_elf`.
unfoldable pub emit_object : List (MachFunc × RegAllocResult) → Emitter
unfolding emit_funcs emit_print_helper
emit_object funcs = emit_print_helper (emit_funcs funcs emitter_create)
