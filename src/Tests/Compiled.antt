-- ===== src/Tests/Compiled.antt =====
-- The stages behind the optimiser, on a concrete function.
use vortech.Prelude.{
  ℕ, ◌≡◌, ◌≤◌, ◌^◌, ◌%◌, ◌+◌, ◌<◌, refl, true, some, [], ◌∷◌, map, length, get_elem?, arith,
}
use vortech.Prelude.Int.{pos}
use vortech.Ssa
use vortech.Ssa.{jump, ret, Func}
use vortech.Ssa.Verify.{ssa_verify_func}
use vortech.Mach.{Width, qword}
use vortech.Isel.{isel_select}
use vortech.Isel.Lower.{select_blocks}
use vortech.Isel.Edges.{collect_blocks}
use vortech.Isel.Split.{process_edge, process_edges}
use vortech.Isel.Verified.{GepsInRange}
use vortech.Emit.Buffer.{push, cb_ensure, bytes_le}
use vortech.Emit.State.{BranchPatch, Emitter, emitter_create, emitter_add_sym, strtab_add}
use vortech.Emit.Frame.{enc_prologue, enc_epilogue, push_saved, pop_saved, move_params}
use vortech.Emit.Encode.{enc_mov64, enc_push, enc_pop, enc_ret, enc_mov64_imm32}
use vortech.Emit.Insts.{branch, emit_op}
use vortech.Emit.Funcs.{
  emit_insts, emit_blocks, emit_entry, emit_body, emit_func_binary, resolve_patches, rel32,
}
use vortech.Emit.Patches.{field}
use vortech.Emit.Jumps.{start_of}
use vortech.Regalloc.Scan.{
  cmp_interval_start, regalloc_linear_scan, scan_all, scan_init, process, place, expired, expire,
  align16, frame_size,
}
use vortech.Regalloc.Intervals.{compute_live_intervals}
use vortech.Regalloc.Apply.{regalloc_apply}
use vortech.Mach.Peephole.{
  is_copy_back, simplify_op, simplify, walk, walk_block, remove_nops, peephole_block,
  peephole_blocks, peephole_loop, peephole_run,
}
use vortech.Driver.{lowered, allocated, lower_func, lowered-jumps}
use vortech.Tests.Samples.{inst, effect}
use vortech.Tests.Sorting.{insertion_sort, insert, before}

-- v0 = 5; jump to block 1; ret v0.
abbrev hop : Func
hop = record {
  blocks =
      record {
        label = 0;
        insts = inst 0 (Ssa.const (pos 5)) ∷ effect (jump 1) ∷ [];
        preds = [];
        succs = 1 ∷ [];
      }
      ∷ record { label = 1; insts = effect (ret 0) ∷ []; preds = 0 ∷ []; succs = [] }
      ∷ [];
  entry = 0;
  next_vreg = 1;
  param_vregs = [];
}

abbrev wide : ℕ → ℕ → Width
wide bi ii = qword

hop_verified : ssa_verify_func hop ≡ true
unfolding ssa_verify_func
hop_verified = refl

hop-GepsInRange : GepsInRange hop
hop-GepsInRange = ((tt, (tt, tt)), ((tt, tt), tt))

abbrev hop_code : Emitter
hop_code =
    emit_func_binary (lowered insertion_sort [] wide hop) (allocated insertion_sort [] wide hop)
      emitter_create

abbrev hop_patch : BranchPatch
hop_patch = record { rel32_offset = 12; target_label = 1 }

hop_patched :
    get_elem?
      (emit_body
        (lowered insertion_sort [] wide hop)
        (allocated insertion_sort [] wide hop)
        emitter_create).patches
      0
    ≡ some hop_patch
unfolding lowered allocated lower_func isel_select select_blocks collect_blocks process_edges
    process_edge regalloc_linear_scan insertion_sort compute_live_intervals scan_all scan_init
    process place expired expire insert before cmp_interval_start regalloc_apply align16 frame_size
    peephole_run peephole_loop peephole_blocks peephole_block walk_block walk is_copy_back simplify
    simplify_op remove_nops emit_body emit_blocks emit_insts emit_entry emit_op branch enc_prologue
    enc_epilogue push_saved pop_saved move_params emitter_add_sym strtab_add enc_mov64 enc_push
    enc_pop enc_ret push cb_ensure enc_mov64_imm32
hop_patched = refl

hop_length : length hop_code.code.data_ ≡ 33
unfolding lowered allocated lower_func isel_select select_blocks collect_blocks process_edges
    process_edge regalloc_linear_scan insertion_sort compute_live_intervals scan_all scan_init
    process place expired expire insert before cmp_interval_start regalloc_apply align16 frame_size
    peephole_run peephole_loop peephole_blocks peephole_block walk_block walk is_copy_back simplify
    simplify_op remove_nops emit_body emit_blocks emit_insts emit_entry emit_op branch enc_prologue
    enc_epilogue push_saved pop_saved move_params emitter_add_sym strtab_add enc_mov64 enc_push
    enc_pop enc_ret push cb_ensure enc_mov64_imm32 emit_func_binary resolve_patches
hop_length = refl

hop_short : length hop_code.code.data_ ≤ 2 ^ 64
hop_short = rw hop_length (omega arith)

lowered-jumps_example :
    (let mf = lowered insertion_sort [] wide hop in
      let ra = allocated insertion_sort [] wide hop in
      let start = start_of mf ra emitter_create 1 in
      let rel = rel32 (start % 2 ^ 32) 12 in
      (1 < length mf.blocks)
      × (field 4 12 hop_code.code.data_ ≡ map some (bytes_le 4 rel))
      × ((12 + 4 + rel) % 2 ^ 32 ≡ start % 2 ^ 32))
lowered-jumps_example =
    lowered-jumps insertion_sort [] wide hop emitter_create 0 hop_patch hop_verified (omega arith)
      hop-GepsInRange hop_short hop_patched
