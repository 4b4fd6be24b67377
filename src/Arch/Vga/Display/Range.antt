-- ===== src/Arch/Vga/Display/Range.antt =====
-- The range of pages of a frame in src/arch/x86_64/vga.rs.
use kvm_rust.Arch.Vga.{Vga}
use kvm_rust.Arch.Vga.Display.{
  page_bitmap, mark, changed, first_changed, last_changed, written_pages,
}
use kvm_rust.Arch.Vga.Display.Pages.{last_changed_lem, length-mark}
use kvm_rust.Base.{
  Bool-cases, List, Option, Option-cases, [], ap, arith, get_or, inl, inr, length, none, refl, some,
  subst, suc, sym, true, ℕ, ◌+◌, ◌<◌, ◌∙◌, ◌∷◌, ◌≡◌, ◌≢◌, ◌≤◌,
}

first_changed_found :
    (seen i : ℕ) (ws : List ℕ) (f : ℕ)
    → first_changed seen i ws ≡ some f
    → (k : ℕ) × (f ≡ i + k) × (k < length ws) × (changed seen (get_or ws k 0) ≡ true)
unfolding first_changed
first_changed_found seen i [] f e = cc
first_changed_found seen i (w ∷ ws) f e = elim (Bool-cases (changed seen w)) [
  | inl here ↦ (0, ground (arith, here), omega arith, here)
  | inr later ↦
      let (k, place, room, found) = first_changed_found seen (suc i) ws f (ground (arith, later)) in
      (suc k, omega arith, omega arith, found)
]

last_changed_below :
    (seen i : ℕ) (ws : List ℕ) (j : ℕ) → last_changed seen i ws ≡ some j → j < i + length ws
unfolding last_changed
last_changed_below seen i [] j e = absurd (ground arith)
last_changed_below seen i (w ∷ ws) j e = elim (Option-cases (last_changed seen (suc i) ws)) [
  | inl none_later ↦ ground (arith, none_later)
  | inr (k, later) ↦ ground (arith, later, last_changed_below seen (suc i) ws k later)
]

changed_zero : (w : ℕ) → changed 0 w ≡ true
changed_zero w = refl

-- A range of pages is not empty, and from frame 0 on it is all of them.
abbrev pub IsRange : ℕ → ℕ → Option (ℕ × ℕ) → Type 0
IsRange n seen none = seen ≢ 0
IsRange n seen (some (first, stop)) =
    (first < stop) × (stop ≤ n) × (seen ≡ 0 → (first ≡ 0) × (stop ≡ n))

some-injective : {a b : ℕ} → some a ≡ some b → a ≡ b
some-injective e = cc

abbrev range_of : Option ℕ → Option ℕ → Option (ℕ × ℕ)
range_of none last = none
range_of (some first) none = none
range_of (some first) (some final) = some (first, final + 1)

range_of-elim :
    (f l : Option ℕ)
    → range_of f l ≡ (elim f as (λ _. Option (ℕ × ℕ)) [
      | none ↦ none
      | some first ↦ elim l as (λ _. Option (ℕ × ℕ)) [
        | none ↦ none
        | some final ↦ some (first, final + 1)
      ]
    ])
range_of-elim none l = refl
range_of-elim (some f) none = refl
range_of-elim (some f) (some l) = refl

-- The search from both ends.
found-IsRange :
    (seen : ℕ) (ws : List ℕ) (f l : Option ℕ)
    → 0 < length ws
    → first_changed seen 0 ws ≡ f
    → last_changed seen 0 ws ≡ l
    → IsRange (length ws) seen (range_of f l)
unfolding first_changed
found-IsRange seen [] f l nonempty first last = absurd (omega arith)
found-IsRange seen (w ∷ ws) none l nonempty first last = λ z. ground (arith, z)
found-IsRange seen (w ∷ ws) (some f) none nonempty first last =
    let (k, place, room, found) = first_changed_found seen 0 (w ∷ ws) f first in
    let (j, there, high) = last_changed_lem seen 0 (w ∷ ws) k room found in
    absurd (let both = sym last ∙ there in cc)
found-IsRange seen (w ∷ ws) (some f) (some l) nonempty first last =
    let (k, place, room, found) = first_changed_found seen 0 (w ∷ ws) f first in
    let (j, there, high) = last_changed_lem seen 0 (w ∷ ws) k room found in
    let same : j ≡ l = some-injective (sym there ∙ last) in
    (
      omega (arith, same),
      omega (arith, last_changed_below seen 0 (w ∷ ws) l last),
      λ z.
          let (m, at, top) =
            last_changed_lem seen 0 (w ∷ ws) (length ws) (omega arith)
              (ap (λ n. changed n (get_or (w ∷ ws) (length ws) 0)) z) in
          let final : m ≡ l = some-injective (sym at ∙ last) in
          let begin : changed seen w ≡ true = ap (λ n. changed n w) z in
          (ground (arith, begin), omega (arith, final, last_changed_below seen 0 (w ∷ ws) l last)),
    )

-- The pages that a frame gets, of the `n` that there are.
pub written_pages-IsRange :
    (log : Option (Option ℕ)) (seen : ℕ) (d : Vga)
    → 0 < length d.page_written
    → IsRange (length d.page_written) seen (written_pages log seen d).1
unfolding written_pages
written_pages-IsRange log seen d some_pages =
    let pages = mark d.repaint (page_bitmap d log) (d.frame + 1) 0 d.page_written in
    subst (λ n. IsRange n seen (written_pages log seen d).1)
      (length-mark d.repaint (page_bitmap d log) (d.frame + 1) 0 d.page_written)
      (subst (IsRange (length pages) seen)
        (range_of-elim (first_changed seen 0 pages) (last_changed seen 0 pages))
        (found-IsRange seen pages (first_changed seen 0 pages) (last_changed seen 0 pages)
          (omega (arith, length-mark d.repaint (page_bitmap d log) (d.frame + 1) 0 d.page_written))
          refl refl))
