-- ===== src/Arch/Vga/Display/Pages.antt =====
-- src/arch/x86_64/vga.rs: written_pages, for several frontends.
use kvm_rust.Base.{
  Bool, List, Option, Option-cases, [], ap, arith, get_or, inl, inr, length, refl, some, suc, true,
  zero, ℕ, ◌+◌, ◌<◌, ◌||◌, ◌∷◌, ◌≡◌, ◌≤◌,
}
use kvm_rust.Arch.Vga.{Vga}
use kvm_rust.Arch.Vga.Display.{page_bitmap, is_dirty, mark, changed, last_changed}

-- The page is in the range, which may be none.
abbrev pub Covers : Option (ℕ × ℕ) → ℕ → Type 0
Covers range page =
    (start : ℕ) × (stop : ℕ) × (range ≡ some (start, stop)) × (start ≤ page) × (page < stop)

last_changed_from : (seen i : ℕ) (ws : List ℕ) (j : ℕ) → last_changed seen i ws ≡ some j → i ≤ j
unfolding last_changed
last_changed_from seen i [] j e = absurd (ground arith)
last_changed_from seen i (w ∷ ws) j e = elim (Option-cases (last_changed seen (suc i) ws)) [
  | inl none_later ↦ ground (arith, none_later)
  | inr (j', later) ↦ ground (arith, later, last_changed_from seen (suc i) ws j' later)
]

pub last_changed_lem :
    (seen i : ℕ) (ws : List ℕ) (k : ℕ)
    → k < length ws
    → changed seen (get_or ws k 0) ≡ true
    → (j : ℕ) × (last_changed seen i ws ≡ some j) × (i + k ≤ j)
unfolding last_changed
last_changed_lem seen i [] k h e = absurd (omega arith)
last_changed_lem seen i (w ∷ ws) zero h e = elim (Option-cases (last_changed seen (suc i) ws)) [
  | inl none_later ↦ (i, ground (arith, none_later), omega arith)
  | inr (j, later) ↦
      (j, ground (arith, later), ground (arith, last_changed_from seen (suc i) ws j later))
]
last_changed_lem seen i (w ∷ ws) (suc k) h e =
    let (j, found, high) = last_changed_lem seen (suc i) ws k (omega arith) e in
    (j, ground (arith, found), omega arith)

pub length-mark :
    (repaint : Bool) (bitmap frame page : ℕ) (ws : List ℕ)
    → length (mark repaint bitmap frame page ws) ≡ length ws
unfolding mark
length-mark repaint bitmap frame page [] = refl
length-mark repaint bitmap frame page (w ∷ ws) =
    ap suc (length-mark repaint bitmap frame (suc page) ws)

-- The page counts as written when the next frame starts.
abbrev pub is_new : Option (Option ℕ) → Vga → ℕ → Bool
is_new log d page = d.repaint || is_dirty (page_bitmap d log) page

abbrev marked : Option (Option ℕ) → Vga → List ℕ
marked log d = mark d.repaint (page_bitmap d log) (d.frame + 1) 0 d.page_written
