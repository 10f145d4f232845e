-- ===== src/Opt/CopyProp/Values.antt =====
-- Copy propagation keeps the values that the instructions read.
use vortech.Prelude.{
  ℕ, zero, suc, ◌≡◌, refl, ap, ◌∙◌, ◌≢◌, subst, ◌+◌, inl, inr, false, some, ◌&&◌, List, [], ◌∷◌,
  map, arith, ltb, ◌==◌, if◌then◌else◌, get_or, set, length, All, Bool-cases, if_both,
}
use vortech.Ssa.{
  invalid_vreg, PhiArg, Op, binop, unop, load, store, gep, cmp, branch, call, ret, phi, print, Inst,
  Block, Func,
}
use vortech.Ssa.Run.{Machine, Control, leave, Env, phi_value, control, perform}
use vortech.Opt.ConstFold.Values.{AllInsts}
use vortech.Opt.CopyProp.{
  source, identity_map, record_copy, record_copies, record_blocks, chase, resolve, copies,
  build_copy_map, replace_phi, replace_uses, replace_insts, replace_blocks, has_copies,
  opt_copy_prop,
}

-- A read of a map after a write.
pub source-set :
    (m : List ℕ) (d v j k : ℕ)
    → get_or (set m d v) j k ≡ (if d == j && ltb j (length m) then v else get_or m j k)
source-set [] d v j k = ground arith
source-set (x ∷ xs) zero v zero k = ground arith
source-set (x ∷ xs) zero v (suc j) k = ground arith
source-set (x ∷ xs) (suc d) v zero k = ground arith
source-set (x ∷ xs) (suc d) v (suc j) k = ground (arith, source-set xs d v j k)

get_or-identity_map : (n i j k : ℕ) → get_or (identity_map i n) j k ≡ (if ltb j n then i + j else k)
unfolding identity_map
get_or-identity_map zero i j k = ground arith
get_or-identity_map (suc n) i zero k = ground arith
get_or-identity_map (suc n) i (suc j) k = ground (arith, get_or-identity_map n (suc i) j k)

pub source-identity_map : (n j : ℕ) → source (identity_map 0 n) j ≡ j
source-identity_map n j = ground (arith, get_or-identity_map n 0 j j)

module _ {V : Type 0} (e : ℕ → V) where
  -- The register that the map gives has the same value, and stands for none only if `j` does.
  abbrev Stands : ℕ → ℕ → Type 0
  Stands v j = (e v ≡ e j) × (v ≡ invalid_vreg → j ≡ invalid_vreg)

  abbrev Faithful : List ℕ → Type 0
  Faithful m = (j : ℕ) → Stands (source m j) j

  -- A phi with one entry has the value of that entry, which is a register.
  abbrev pub IsCopyOp : ℕ → Op → Type 0
  IsCopyOp d (phi (a ∷ [])) = (e a.src ≡ e d) × (a.src ≢ invalid_vreg)
  IsCopyOp d o = Unit

  abbrev pub IsCopy : Inst → Type 0
  IsCopy i = IsCopyOp i.dst i.op

  set-Faithful : (m : List ℕ) (d v : ℕ) → Stands v d → Faithful m → Faithful (set m d v)
  set-Faithful m d v k h j = elim (Bool-cases (d == j && ltb j (length m))) [
    | inl here ↦
        let same : d ≡ j = ground arith in rw (source-set m d v j j, here) (subst (Stands v) same k)
    | inr there ↦ rw (source-set m d v j j, there) (h j)
  ]

  record_copy-Faithful :
      (next d : ℕ) (o : Op) (m : List ℕ)
      → IsCopyOp d o
      → Faithful m
      → Faithful (record_copy next d o m)
  unfolding record_copy
  record_copy-Faithful next d (phi (a ∷ [])) m c h = elim (Bool-cases (ltb d next)) [
    | inl small ↦ rw small (set-Faithful m d a.src (c.0, λ n. absurd (c.1 n)) h)
    | inr large ↦ rw large h
  ]
  record_copy-Faithful next d _ m c h = h

  record_copies-Faithful :
      (next : ℕ) (is : List Inst) (m : List ℕ)
      → All IsCopy is
      → Faithful m
      → Faithful (record_copies next is m)
  unfolding record_copies
  record_copies-Faithful next [] m c h = h
  record_copies-Faithful next (i ∷ is) m c h =
      record_copies-Faithful next is _ c.1 (record_copy-Faithful next i.dst i.op m c.0 h)

  record_blocks-Faithful :
      (next : ℕ) (bs : List Block) (m : List ℕ)
      → All (λ (b : Block). All IsCopy b.insts) bs
      → Faithful m
      → Faithful (record_blocks next bs m)
  unfolding record_blocks
  record_blocks-Faithful next [] m c h = h
  record_blocks-Faithful next (b ∷ bs) m c h =
      record_blocks-Faithful next bs _ c.1 (record_copies-Faithful next b.insts m c.0 h)

  chase-Stands : (n : ℕ) (m : List ℕ) (v : ℕ) → Faithful m → Stands (chase n m v) v
  unfolding chase
  chase-Stands zero m v h = (refl, λ n. n)
  chase-Stands (suc n) m v h = elim (Bool-cases (source m v == v)) [
    | inl root ↦ rw root (refl, λ n. n)
    | inr on ↦
        let rest = chase-Stands n m (source m v) h in
        rw on (rest.0 ∙ (h v).0, λ none. (h v).1 (rest.1 none))
  ]

  resolve-Faithful : (n i : ℕ) (m : List ℕ) → Faithful m → Faithful (resolve n i m)
  unfolding resolve
  resolve-Faithful zero i m h = h
  resolve-Faithful (suc n) i m h =
      resolve-Faithful n (suc i) _ (set-Faithful m i (chase 100 m i) (chase-Stands 100 m i h) h)

  build_copy_map-Faithful : (f : Func) → AllInsts IsCopy f → Faithful (build_copy_map f)
  unfolding build_copy_map copies
  build_copy_map-Faithful f c = resolve-Faithful f.next_vreg 0 _ (
      record_blocks-Faithful f.next_vreg f.blocks _ c
        (λ j. rw (source-identity_map f.next_vreg j) (refl, λ n. n)))

module _ (m : Machine) (e : Env m) (w : m.World) (prev : ℕ) where
  open m use {Value, World}

  -- What an instruction does: where its result goes, the result, the world after it, and where
  -- control goes.
  abbrev pub behaviour : Inst → ℕ × (Value × World) × Control Value
  behaviour i = (i.dst, perform m i.op i.dst prev e w, control m i.op e)

  abbrev pub behaviours : Func → List (List (ℕ × (Value × World) × Control Value))
  behaviours f = map (λ (b : Block). map behaviour b.insts) f.blocks

  module _ (c : List ℕ) (h : Faithful e c) where
    map-source : (vs : List ℕ) → map e (map (source c) vs) ≡ map e vs
    map-source [] = refl
    map-source (v ∷ vs) = cc ((h v).0, map-source vs)

    phi_value-replace_phi :
        (args : List PhiArg) → phi_value m prev e (replace_phi c args) ≡ phi_value m prev e args
    unfolding replace_phi
    phi_value-replace_phi [] = refl
    phi_value-replace_phi (a ∷ rest) = cc ((h a.src).0, phi_value-replace_phi rest)

    control-replace_ret :
        (v : ℕ)
        → control m (ret (if v == invalid_vreg then v else source c v)) e ≡ control m (ret v) e
    control-replace_ret v = elim (Bool-cases (v == invalid_vreg)) [
      | inl no_value ↦ rw (no_value, no_value)
      | inr value ↦
          let kept : (source c v == invalid_vreg) ≡ false = ground (arith, (h v).1) in
          rw (value, kept) (ap (λ x. leave (some x)) (h v).0)
    ]

    behaviour-replace :
        (d : ℕ) (o : Op)
        → behaviour (record { dst = d; op = replace_uses c o })
          ≡ behaviour (record { dst = d; op = o })
    unfolding replace_uses
    behaviour-replace d (binop k l r) = cc ((h l).0, (h r).0)
    behaviour-replace d (unop k v) = cc (h v).0
    behaviour-replace d (load p) = cc (h p).0
    behaviour-replace d (store p v) = cc ((h p).0, (h v).0)
    behaviour-replace d (gep p o) = cc (h p).0
    behaviour-replace d (cmp k l r) = cc ((h l).0, (h r).0)
    behaviour-replace d (branch v t f) = cc (h v).0
    behaviour-replace d (call f args ext) = cc (map-source args)
    behaviour-replace d (phi args) = cc (phi_value-replace_phi args)
    behaviour-replace d (print v) = cc (h v).0
    behaviour-replace d (ret v) = ap (λ r. (d, (m.undefined, w), r)) (control-replace_ret v)
    behaviour-replace d _ = refl

    behaviours-replace_insts :
        (is : List Inst) → map behaviour (replace_insts c is) ≡ map behaviour is
    unfolding replace_insts
    behaviours-replace_insts [] = refl
    behaviours-replace_insts (i ∷ is) =
        cc (behaviour-replace i.dst i.op, behaviours-replace_insts is)

    behaviours-replace_blocks :
        (bs : List Block)
        → map (λ (b : Block). map behaviour b.insts) (replace_blocks c bs)
          ≡ map (λ (b : Block). map behaviour b.insts) bs
    unfolding replace_blocks
    behaviours-replace_blocks [] = refl
    behaviours-replace_blocks (b ∷ bs) =
        cc (behaviours-replace_insts b.insts, behaviours-replace_blocks bs)

-- Copy propagation keeps what every instruction does: on every machine, in every register file in
-- which each phi with one entry has the value of that entry, and where no such entry is
-- VT_INVALID_VREG, the instructions of the new function stand at the same places as the old ones
-- and each has the same destination, the same result and effect and the same way to go on.
pub behaviours-opt_copy_prop :
    (m : Machine) (e : Env m) (w : m.World) (prev : ℕ) (f : Func)
    → AllInsts (IsCopy e) f
    → behaviours m e w prev (opt_copy_prop f) ≡ behaviours m e w prev f
unfolding opt_copy_prop
behaviours-opt_copy_prop m e w prev f c =
    let Kept : Func → Type 0 = λ g. behaviours m e w prev g ≡ behaviours m e w prev f in
    if_both Kept (f.next_vreg == 0) f _ refl (
      if_both Kept (has_copies 0 (build_copy_map f)) _ f
        (behaviours-replace_blocks m e w prev (build_copy_map f) (build_copy_map-Faithful e f c)
          f.blocks)
        refl)
