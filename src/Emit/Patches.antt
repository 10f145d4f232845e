-- ===== src/Emit/Patches.antt =====
-- The branch patches of src/emit.c: where the fields stand, and what `resolve_patches` leaves in
-- them.
use vortech.Prelude.{
  Option, some, ℕ, zero, suc, ◌+◌, ◌≤◌, ◌<◌, ◌≡◌, refl, sym, ◌∙◌, subst, List, [], ◌∷◌, ◌++◌, map,
  arith, ltb, if◌then◌else◌, if_cases, length, length-set, get_elem?, get_elem?-set_self,
  get_elem?-set_ne, set, get_or,
}
use vortech.Emit.Buffer.{CodeBuf, bytes_le, overwrite, cb_patch32}
use vortech.Emit.State.{BranchPatch}
use vortech.Emit.Funcs.{rel32, resolve_patches}

-- The fields of four bytes stand one behind the other, from `lo` on and inside `hi` bytes.
abbrev pub IsOrdered : ℕ → List BranchPatch → ℕ → Type 0
IsOrdered lo [] hi = lo ≤ hi
IsOrdered lo (p ∷ ps) hi = (lo ≤ p.rel32_offset) × IsOrdered (p.rel32_offset + 4) ps hi

pub IsOrdered-wider :
    (lo : ℕ) (ps : List BranchPatch) (hi hi' : ℕ)
    → hi ≤ hi'
    → IsOrdered lo ps hi
    → IsOrdered lo ps hi'
IsOrdered-wider lo [] hi hi' w h = omega arith
IsOrdered-wider lo (p ∷ ps) hi hi' w h = (h.0, IsOrdered-wider (p.rel32_offset + 4) ps hi hi' w h.1)

pub IsOrdered-behind :
    (lo : ℕ) (ps : List BranchPatch) (hi : ℕ) (p : BranchPatch)
    → hi ≤ p.rel32_offset
    → IsOrdered lo ps hi
    → IsOrdered lo (ps ++ p ∷ []) (p.rel32_offset + 4)
IsOrdered-behind lo [] hi p w h = (omega arith, omega arith)
IsOrdered-behind lo (q ∷ ps) hi p w h = (h.0, IsOrdered-behind (q.rel32_offset + 4) ps hi p w h.1)

IsOrdered-le : (lo : ℕ) (ps : List BranchPatch) (hi : ℕ) → IsOrdered lo ps hi → lo ≤ hi
IsOrdered-le lo [] hi h = h
IsOrdered-le lo (p ∷ ps) hi h =
    let le = IsOrdered-le (p.rel32_offset + 4) ps hi h.1 in let at = h.0 in omega arith

some-inj : {A : Type 0} {a b : A} → some a ≡ some b → a ≡ b
some-inj q = cc

pub IsOrdered-inside :
    (lo : ℕ) (ps : List BranchPatch) (hi i : ℕ) (p : BranchPatch)
    → IsOrdered lo ps hi
    → get_elem? ps i ≡ some p
    → p.rel32_offset + 4 ≤ hi
IsOrdered-inside lo [] hi i p h e = cc
IsOrdered-inside lo (q ∷ ps) hi zero p h e =
    subst (λ (x : BranchPatch). x.rel32_offset + 4 ≤ hi) (some-inj e)
      (IsOrdered-le (q.rel32_offset + 4) ps hi h.1)
IsOrdered-inside lo (q ∷ ps) hi (suc i) p h e =
    IsOrdered-inside (q.rel32_offset + 4) ps hi i p h.1 e

-- The `n` bytes from `offset` on, none where there is no byte.
abbrev pub field : ℕ → ℕ → List ℕ → List (Option ℕ)
field zero offset xs = []
field (suc n) offset xs = get_elem? xs offset ∷ field n (suc offset) xs

get_elem?-overwrite :
    (bs : List ℕ) (offset i : ℕ) (xs : List ℕ)
    → i < offset
    → get_elem? (overwrite bs offset xs) i ≡ get_elem? xs i
get_elem?-overwrite [] offset i xs h = refl
get_elem?-overwrite (b ∷ bs) offset i xs h =
    get_elem?-overwrite bs (suc offset) i (set xs offset b) (omega arith)
    ∙ get_elem?-set_ne xs b (λ e. ground arith)

field-overwrite_before :
    (n at offset : ℕ) (bs xs : List ℕ)
    → at + n ≤ offset
    → field n at (overwrite bs offset xs) ≡ field n at xs
field-overwrite_before zero at offset bs xs h = refl
field-overwrite_before (suc n) at offset bs xs h =
    rw
      (
        get_elem?-overwrite bs offset at xs (omega arith),
        field-overwrite_before n (suc at) offset bs xs (omega arith),
      )
      refl

field-overwrite :
    (bs : List ℕ) (offset : ℕ) (xs : List ℕ)
    → offset + length bs ≤ length xs
    → field (length bs) offset (overwrite bs offset xs) ≡ map some bs
field-overwrite [] offset xs h = refl
field-overwrite (b ∷ bs) offset xs h =
    let e = length-set xs offset b in
    rw
      (
        get_elem?-overwrite bs (suc offset) offset (set xs offset b) (omega arith),
        get_elem?-set_self xs offset b (omega arith),
        field-overwrite bs (suc offset) (set xs offset b) (omega arith),
      )
      refl

length-overwrite :
    (bs : List ℕ) (offset : ℕ) (xs : List ℕ) → length (overwrite bs offset xs) ≡ length xs
length-overwrite [] offset xs = refl
length-overwrite (b ∷ bs) offset xs =
    length-overwrite bs (suc offset) (set xs offset b) ∙ length-set xs offset b

-- What one patch leaves of the code.
patched : List ℕ → BranchPatch → CodeBuf → CodeBuf
patched labels p cb =
    if ltb p.target_label (length labels)
    then cb_patch32 p.rel32_offset (rel32 (get_or labels p.target_label 0) p.rel32_offset) cb
    else cb

length-patched :
    (labels : List ℕ) (p : BranchPatch) (cb : CodeBuf)
    → length (patched labels p cb).data_ ≡ length cb.data_
unfolding patched cb_patch32
length-patched labels p cb =
    if_cases (λ (c : CodeBuf). length c.data_ ≡ length cb.data_)
      (ltb p.target_label (length labels)) _ _
      (λ inside. length-overwrite (bytes_le 4 _) p.rel32_offset cb.data_) (λ outside. refl)

pub length-resolve_patches :
    (labels : List ℕ) (ps : List BranchPatch) (cb : CodeBuf)
    → length (resolve_patches labels ps cb).data_ ≡ length cb.data_
unfolding resolve_patches patched
length-resolve_patches labels [] cb = refl
length-resolve_patches labels (p ∷ ps) cb =
    length-resolve_patches labels ps (patched labels p cb) ∙ length-patched labels p cb

field-resolve_before :
    (labels : List ℕ) (ps : List BranchPatch) (cb : CodeBuf) (lo hi n at : ℕ)
    → IsOrdered lo ps hi
    → at + n ≤ lo
    → field n at (resolve_patches labels ps cb).data_ ≡ field n at cb.data_
unfolding resolve_patches patched cb_patch32
field-resolve_before labels [] cb lo hi n at o h = refl
field-resolve_before labels (p ∷ ps) cb lo hi n at (here, o) h =
    field-resolve_before labels ps (patched labels p cb) (p.rel32_offset + 4) hi n at o
      (omega arith)
    ∙ if_cases (λ (c : CodeBuf). field n at c.data_ ≡ field n at cb.data_)
        (ltb p.target_label (length labels)) _ _
        (λ inside. field-overwrite_before n at p.rel32_offset (bytes_le 4 _) cb.data_ (omega arith))
        (λ outside. refl)

-- What the field of a patch is to hold.
abbrev pub displacement : List ℕ → BranchPatch → List (Option ℕ)
displacement labels p =
    map some (bytes_le 4 (rel32 (get_or labels p.target_label 0) p.rel32_offset))

field-resolve_first :
    (labels : List ℕ) (p : BranchPatch) (ps : List BranchPatch) (cb : CodeBuf)
    → IsOrdered (p.rel32_offset + 4) ps (length cb.data_)
    → p.target_label < length labels
    → field 4 p.rel32_offset (resolve_patches labels ps (patched labels p cb)).data_
      ≡ displacement labels p
unfolding patched cb_patch32
field-resolve_first labels p ps cb o t =
    let le = IsOrdered-le (p.rel32_offset + 4) ps (length cb.data_) o in
    field-resolve_before labels ps (patched labels p cb) (p.rel32_offset + 4) (length cb.data_) 4
      p.rel32_offset o (omega arith)
    ∙ if_cases (λ (c : CodeBuf). field 4 p.rel32_offset c.data_ ≡ displacement labels p)
        (ltb p.target_label (length labels)) _ _
        (λ inside. field-overwrite (bytes_le 4 _) p.rel32_offset cb.data_ (omega arith))
        (λ outside. ground arith)

-- If the fields stand one behind the other and inside the code, each patch whose target is a label
-- of the function finds its displacement in the resolved code.
pub field-resolve_patches :
    (labels : List ℕ) (ps : List BranchPatch) (cb : CodeBuf) (lo i : ℕ) (p : BranchPatch)
    → IsOrdered lo ps (length cb.data_)
    → get_elem? ps i ≡ some p
    → p.target_label < length labels
    → field 4 p.rel32_offset (resolve_patches labels ps cb).data_ ≡ displacement labels p
unfolding resolve_patches patched
field-resolve_patches labels [] cb lo i p o e t = cc
field-resolve_patches labels (q ∷ ps) cb lo zero p (here, o) e t =
    let same = some-inj e in
    let after = resolve_patches labels ps (patched labels q cb) in
    subst (λ (x : BranchPatch). field 4 x.rel32_offset after.data_ ≡ displacement labels x) same
      (field-resolve_first labels q ps cb o (rw same t))
field-resolve_patches labels (q ∷ ps) cb lo (suc i) p (here, o) e t =
    let same = length-patched labels q cb in
    field-resolve_patches labels ps (patched labels q cb) (q.rel32_offset + 4) i p
      (subst (IsOrdered (q.rel32_offset + 4) ps) (sym same) o) e t
