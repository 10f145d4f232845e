-- ===== src/Tests/Naming.antt =====
-- Names and symbols on a concrete emitter.
use vortech.Prelude.{some, ℕ, ◌≡◌, refl, List, [], ◌∷◌, length, drop, All}
use vortech.Emit.State.{
  Emitter, emitter_create, emitter_add_sym, emitter_find_sym, emitter_ensure_extern, strtab_add,
  find_from,
}
use vortech.Emit.Symbols.{c_string, NameStands, emitter_ensure_extern-again, emitter_add_sym-names}

abbrev puts : List ℕ
puts = 0x70 ∷ 0x75 ∷ 0x74 ∷ 0x73 ∷ []

abbrev one_name : Emitter
unfolding emitter_add_sym strtab_add
one_name = (emitter_add_sym emitter_create puts 1 0 0 0 0).1

emitter_ensure_extern-again_example :
    (emitter_find_sym (emitter_ensure_extern emitter_create puts).1 puts
      ≡ some (emitter_ensure_extern emitter_create puts).0)
    × (emitter_ensure_extern (emitter_ensure_extern emitter_create puts).1 puts
        ≡ emitter_ensure_extern emitter_create puts)
emitter_ensure_extern-again_example = emitter_ensure_extern-again emitter_create puts

extern_index : (emitter_ensure_extern one_name puts).0 ≡ 1
unfolding emitter_ensure_extern emitter_find_sym emitter_add_sym find_from
extern_index = refl

emitter_add_sym-names_example :
    let em' = (emitter_add_sym one_name (0x66 ∷ []) 1 2 1 0 9).1 in
    All (NameStands em'.strtab) em'.syms
    × (c_string (drop (length one_name.strtab) em'.strtab) ≡ 0x66 ∷ [])
unfolding one_name
emitter_add_sym-names_example =
    emitter_add_sym-names one_name (0x66 ∷ []) 1 2 1 0 9 (tt, ((0 ∷ [], [], refl, refl), tt))
      (refl, tt)
