-- ===== src/Emit/State.antt =====
-- The emitter's state in src/emit.c: the code, the branch patches of the function at hand, and the
-- tables of symbols, relocations and names. A table is a list: its capacity is doubled before a
-- write that it has no room for. A name is its bytes before the closing 0.
use vortech.Prelude.{
  ℕ, suc, Bool, true, false, ◌&&◌, Option, none, some, List, [], ◌∷◌, ◌++◌, ◌==◌, if◌then◌else◌,
  length,
}
use vortech.Prelude.Int.{ℤ}
use vortech.Emit.Buffer.{CodeBuf, cb_init}

pub record BranchPatch : Type 0 where
  pub rel32_offset : ℕ
  pub target_label : ℕ

pub record ElfSym : Type 0 where
  pub name : Option (List ℕ)
  pub name_off : ℕ
  pub bind : ℕ
  pub sym_type : ℕ
  pub shndx : ℕ
  pub value : ℕ
  pub size : ℕ

pub record ElfReloc : Type 0 where
  pub offset : ℕ
  pub reloc_type : ℕ
  pub sym_idx : ℕ
  pub addend : ℤ

pub record Emitter : Type 0 where
  pub code : CodeBuf
  pub rodata : CodeBuf
  pub label_offsets : List ℕ
  pub patches : List BranchPatch
  pub syms : List ElfSym
  pub relocs : List ElfReloc
  pub strtab : List ℕ

abbrev pub stb_local : ℕ
stb_local = 0

abbrev pub stb_global : ℕ
stb_global = 1

abbrev pub stt_notype : ℕ
stt_notype = 0

abbrev pub stt_func : ℕ
stt_func = 2

abbrev pub shn_undef : ℕ
shn_undef = 0

abbrev pub r_x86_64_pc32 : ℕ
r_x86_64_pc32 = 2

abbrev pub r_x86_64_plt32 : ℕ
r_x86_64_plt32 = 4

-- One byte 0.
abbrev pub strtab_init : List ℕ
strtab_init = 0 ∷ []

unfoldable pub strtab_add : List ℕ → List ℕ → ℕ × List ℕ
strtab_add st s = (length st, st ++ s ++ 0 ∷ [])

abbrev pub emitter_create : Emitter
emitter_create = record {
  code = cb_init;
  rodata = cb_init;
  label_offsets = [];
  patches = [];
  syms =
      record {
        name = none;
        name_off = 0;
        bind = stb_local;
        sym_type = stt_notype;
        shndx = shn_undef;
        value = 0;
        size = 0;
      }
      ∷ [];
  relocs = [];
  strtab = strtab_init;
}

-- The symbol's index, and the emitter with it.
unfoldable pub emitter_add_sym :
    Emitter → List ℕ → (bind sym_type shndx value size : ℕ) → ℕ × Emitter
unfolding strtab_add
emitter_add_sym em name bind sym_type shndx value size =
    let (off, names) = strtab_add em.strtab name in
    (
      length em.syms,
      record em {
        syms =
            em.syms
            ++ record {
              name = some name;
              name_off = off;
              bind = bind;
              sym_type = sym_type;
              shndx = shndx;
              value = value;
              size = size;
            }
              ∷ [];
        strtab = names;
      },
    )

abbrev pub same_bytes : List ℕ → List ℕ → Bool
same_bytes [] [] = true
same_bytes [] (b ∷ bs) = false
same_bytes (a ∷ as') [] = false
same_bytes (a ∷ as') (b ∷ bs) = a == b && same_bytes as' bs

abbrev pub is_named : List ℕ → Option (List ℕ) → Bool
is_named name none = false
is_named name (some n) = same_bytes n name

-- The first symbol of the name, from the index `i` on; none for `UINT32_MAX`.
unfoldable pub find_from : List ℕ → ℕ → List ElfSym → Option ℕ
find_from name i [] = none
find_from name i (s ∷ ss) =
    let later = find_from name (suc i) ss in if is_named name s.name then some i else later

unfoldable pub emitter_find_sym : Emitter → List ℕ → Option ℕ
unfolding find_from
emitter_find_sym em name = find_from name 0 em.syms

abbrev pub or_extern : Emitter → List ℕ → Option ℕ → ℕ × Emitter
or_extern em name none = emitter_add_sym em name stb_global stt_notype shn_undef 0 0
or_extern em name (some i) = (i, em)

unfoldable pub emitter_ensure_extern : Emitter → List ℕ → ℕ × Emitter
unfolding emitter_add_sym emitter_find_sym
emitter_ensure_extern em name = or_extern em name (emitter_find_sym em name)

abbrev pub emitter_add_reloc : Emitter → (offset reloc_type sym_idx : ℕ) → ℤ → Emitter
emitter_add_reloc em offset reloc_type sym_idx addend = record em {
  relocs =
      em.relocs
      ++ record { offset = offset; reloc_type = reloc_type; sym_idx = sym_idx; addend = addend }
        ∷ [];
}

abbrev pub emitter_add_patch : Emitter → ℕ → ℕ → Emitter
emitter_add_patch em rel32_offset target_label = record em {
  patches = em.patches ++ record { rel32_offset = rel32_offset; target_label = target_label } ∷ [];
}

-- A step on the code alone.
abbrev pub on_code : (CodeBuf → CodeBuf) → Emitter → Emitter
on_code f em = record em { code = f em.code }
