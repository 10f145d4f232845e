-- ===== src/Emit/Symbols.antt =====
-- The symbols and their names in src/emit.c.
use vortech.Prelude.{
  Option, none, some, ℕ, suc, ◌+◌, ◌≡◌, refl, sym, ap, subst, ◌∙◌, Bool, true, false, Bool-cases,
  inl, inr, Option-cases, List, [], ◌∷◌, ◌++◌, All, All-append, All-map, arith, ◌==◌, if◌then◌else◌,
  length, drop,
}
use vortech.Emit.State.{
  ElfSym, Emitter, strtab_add, same_bytes, is_named, find_from, emitter_find_sym, emitter_add_sym,
  emitter_ensure_extern,
}

same_bytes_self : (bs : List ℕ) → same_bytes bs bs ≡ true
same_bytes_self [] = refl
same_bytes_self (b ∷ bs) = let e = same_bytes_self bs in ground arith

-- The search's answer where the head has the name.
if_true-none :
    {A : Type 0} (b : Bool) (a : A) (o : Option A) → b ≡ true → (if b then some a else o) ≡ none → ⊥
if_true-none b a o t h = grind arith

if_false-none :
    {A : Type 0} (b : Bool) (a : A) (o : Option A)
    → b ≡ false
    → (if b then some a else o) ≡ none
    → o ≡ none
if_false-none b a o f h = let r = h in grind arith

-- A name that no symbol has is found where it is added.
find_from-added :
    (name : List ℕ) (i : ℕ) (ss : List ElfSym) (s : ElfSym)
    → find_from name i ss ≡ none
    → is_named name s.name ≡ true
    → find_from name i (ss ++ s ∷ []) ≡ some (length ss + i)
unfolding find_from
find_from-added name i [] s absent named = rw named (ap some (omega arith))
find_from-added name i (t ∷ ss) s absent named = elim (Bool-cases (is_named name t.name)) [
  | inl found ↦ elim (if_true-none (is_named name t.name) i _ found absent) [ ]
  | inr other ↦ rw other (
      find_from-added name (suc i) ss s (if_false-none (is_named name t.name) i _ other absent)
        named
      ∙ ap some (omega arith))
]

-- The bytes up to the first byte 0.
abbrev pub c_string : List ℕ → List ℕ
c_string [] = []
c_string (b ∷ bs) = let more = c_string bs in if b == 0 then [] else b ∷ more

c_string-closed :
    (name behind : List ℕ) → All (λ b. (b == 0) ≡ false) name → c_string (name ++ 0 ∷ behind) ≡ name
c_string-closed [] behind h = refl
c_string-closed (b ∷ bs) behind h = rw (h.0) (ap (λ x. b ∷ x) (c_string-closed bs behind h.1))

-- In the table of names, the name stands at the offset, closed by a 0.
abbrev pub StandsAt : List ℕ → List ℕ → ℕ → Type 0
StandsAt st name off =
    (before : List ℕ) × (behind : List ℕ) × (st ≡ before ++ name ++ 0 ∷ behind)
    × (length before ≡ off)

abbrev pub NamedAt : List ℕ → ℕ → Option (List ℕ) → Type 0
NamedAt st off none = Unit
NamedAt st off (some name) = StandsAt st name off

-- The table of names holds the symbol's name, where it has one.
abbrev pub NameStands : List ℕ → ElfSym → Type 0
NameStands st s = NamedAt st s.name_off s.name

append_assoc : (xs ys zs : List ℕ) → xs ++ ys ++ zs ≡ xs ++ (ys ++ zs)
append_assoc [] ys zs = refl
append_assoc (x ∷ xs) ys zs = ap (λ l. x ∷ l) (append_assoc xs ys zs)

StandsAt-append :
    (st name more : List ℕ) (off : ℕ) → StandsAt st name off → StandsAt (st ++ more) name off
StandsAt-append st name more off (before, behind, e, l) = (
  before,
  behind ++ more,
  ap (λ xs. xs ++ more) e ∙ append_assoc (before ++ name) (0 ∷ behind) more,
  l,
)

NamedAt-append :
    (st more : List ℕ) (off : ℕ) (o : Option (List ℕ))
    → NamedAt st off o
    → NamedAt (st ++ more) off o
NamedAt-append st more off none h = h
NamedAt-append st more off (some name) h = StandsAt-append st name more off h

drop_before : (xs ys : List ℕ) → drop (length xs) (xs ++ ys) ≡ ys
drop_before [] ys = refl
drop_before (x ∷ xs) ys = drop_before xs ys

ensure_extern-found :
    (em : Emitter) (name : List ℕ)
    → emitter_find_sym (emitter_ensure_extern em name).1 name
      ≡ some (emitter_ensure_extern em name).0
unfolding emitter_ensure_extern emitter_find_sym emitter_add_sym
ensure_extern-found em name = elim (Option-cases (find_from name 0 em.syms)) [
  | inl absent ↦
      rw absent
        (find_from-added name 0 em.syms _ absent (same_bytes_self name) ∙ ap some (omega arith))
  | inr (i, found) ↦ rw found found
]

-- Looking a name up after it was asked for gives the index that was returned, and asking for it again
-- gives the same index and changes nothing.
pub emitter_ensure_extern-again :
    (em : Emitter) (name : List ℕ)
    → (emitter_find_sym (emitter_ensure_extern em name).1 name
        ≡ some (emitter_ensure_extern em name).0)
      × (emitter_ensure_extern (emitter_ensure_extern em name).1 name
          ≡ emitter_ensure_extern em name)
unfolding emitter_ensure_extern
emitter_ensure_extern-again em name =
    (ensure_extern-found em name, rw (ensure_extern-found em name) refl)

reads_back :
    (st name : List ℕ) (off : ℕ)
    → All (λ b. (b == 0) ≡ false) name
    → StandsAt st name off
    → c_string (drop off st) ≡ name
reads_back st name off nonzero (before, behind, e, l) =
    ap (λ xs. c_string (drop off xs)) e
    ∙ ap (λ n. c_string (drop n (before ++ name ++ 0 ∷ behind))) (sym l)
    ∙ ap (λ xs. c_string (drop (length before) xs)) (append_assoc before name (0 ∷ behind))
    ∙ ap c_string (drop_before before (name ++ 0 ∷ behind))
    ∙ c_string-closed name behind nonzero

-- Adding a symbol keeps the table of names right: each symbol's name, the new one's too, stands at
-- its offset, where each did before, and the new one's reads back from there when it has no byte 0.
pub emitter_add_sym-names :
    (em : Emitter) (name : List ℕ) (bind sym_type shndx value size : ℕ)
    → All (NameStands em.strtab) em.syms
    → All (λ b. (b == 0) ≡ false) name
    → let em' = (emitter_add_sym em name bind sym_type shndx value size).1 in
      All (NameStands em'.strtab) em'.syms × (c_string (drop (length em.strtab) em'.strtab) ≡ name)
unfolding emitter_add_sym strtab_add
emitter_add_sym-names em name bind sym_type shndx value size h nonzero =
    let stands : StandsAt (em.strtab ++ name ++ 0 ∷ []) name (length em.strtab) =
      (em.strtab, [], refl, refl) in
    (
      All-append (NameStands _) em.syms _
          (All-map (NameStands _)
            (λ s n.
              subst (λ xs. NamedAt xs s.name_off s.name)
                (sym (append_assoc em.strtab name (0 ∷ [])))
                (NamedAt-append em.strtab _ s.name_off s.name n))
            em.syms h)
          (stands, tt),
      reads_back _ name _ nonzero stands,
    )
