-- ===== src/Isel/Dropped.antt =====
-- The copies that src/isel.c leaves out.
use vortech.Prelude.{
  ℕ, ◌+◌, ◌<◌, ◌≡◌, ◌≢◌, sym, ap, ◌∙◌, some, List, [], ◌∷◌, ◌++◌, get_elem?, get_elem?-bound,
}
use mathlib.Core.List.{append_assoc}
use vortech.Mach.{Width}
use vortech.Ssa.{branch, Block, Func}
use vortech.Isel.{isel_select}
use vortech.Isel.Lower.{lower, select_blocks}
use vortech.Isel.Shapes.{block}
use vortech.Isel.Branches.{jumps, process_edges-dropped}
use vortech.Isel.Parts.{IsParted, phi_copies, Enters, front, selected_at}
use vortech.Isel.Ended.{test_inst, edges, copies_of-edges, edges-IsOrdered}

-- A block that ends with a branch whose second target is the earlier block of the two and has
-- copies: behind its front, the selected block tests the condition, jumps to the first target
-- itself, makes the copies of the second, and jumps there. Whatever copies the first target's phis
-- need are left out.
pub isel_select-drops :
    (name : List ℕ) (width_at : ℕ → ℕ → Width) (fn : Func) (p : ℕ) (b : Block) (s : IsParted b)
    (c t f : ℕ)
    → get_elem? fn.blocks p ≡ some b
    → s.last.op ≡ branch c t f
    → f < t
    → Enters fn.blocks p f
    → phi_copies fn.blocks p f ≢ []
    → get_elem? (isel_select name width_at fn).blocks p
      ≡ some (
          block b.label
            (jumps (front s (width_at (0 + p)) ++ test_inst c ∷ []) t f (phi_copies fn.blocks p f)))
unfolding isel_select
isel_select-drops name width_at fn p b s c t f at op lt enters some_ =
    let bs = fn.blocks in
    let g = front s (width_at (0 + p)) in
    let lt_p = get_elem?-bound bs p at in
    let same = copies_of-edges bs p f lt_p enters in
    let (w, at₀) = selected_at s width_at bs p at in
    process_edges-dropped (edges bs) (select_blocks width_at 0 bs) p t f b.label
      (g ++ test_inst c ∷ []) lt (λ q. some_ (sym same ∙ q)) (edges-IsOrdered bs)
      (at₀
        ∙ ap (λ o. some (block b.label (g ++ lower o s.last.dst w))) op
        ∙ ap (λ is. some (block b.label is)) (sym (append_assoc g (test_inst c ∷ []) _)))
    ∙ ap (λ cs. some (block b.label (jumps (g ++ test_inst c ∷ []) t f cs))) same
