-- ===== src/Memory/Lookup.antt =====
-- gpa_to_host of src/main.rs, against the regions.
use kvm_rust.Base.{
  All, List, Option-cases, [], arith, get_elem?, inl, inr, none, refl, some, subst, suc, ℕ, ◌+◌,
  ◌<◌, ◌^◌, ◌∷◌, ◌≡◌, ◌≤◌,
}
use kvm_rust.Memory.{Memory, MemRegion, Ptr, offset_in, find_region, gpa_to_host}

-- The region holds the whole range.
abbrev pub Covers : MemRegion → ℕ → ℕ → Type 0
Covers r gpa len = (r.guest_phys_addr ≤ gpa) × (gpa + len ≤ r.guest_phys_addr + r.mem_size)

-- Region sizes are `usize`.
abbrev pub IsSized : MemRegion → Type 0
IsSized r = r.mem_size < 2 ^ 64

-- The pointer is into a region that covers the range, at the range's start.
abbrev pub PointsTo : List MemRegion → Ptr → ℕ → ℕ → Type 0
PointsTo rs p gpa len =
    (r : MemRegion) × (get_elem? rs p.region ≡ some r)
    × (r.guest_phys_addr + p.off ≡ gpa)
    × (p.off + len ≤ r.mem_size)

offset_in-some :
    (r : MemRegion) (gpa len : ℕ) {o : ℕ}
    → offset_in r gpa len ≡ some o
    → (r.guest_phys_addr + o ≡ gpa) × (o + len ≤ r.mem_size)
unfolding offset_in
offset_in-some r gpa len e = ground arith

offset_in-none :
    (r : MemRegion) (gpa len : ℕ) → IsSized r → offset_in r gpa len ≡ none → ¬ Covers r gpa len
unfolding offset_in
offset_in-none r gpa len s e c = ground arith

find_region-some :
    (rs : List MemRegion) (i gpa len : ℕ) (p : Ptr)
    → find_region i rs gpa len ≡ some p
    → (j : ℕ) × (p.region ≡ i + j) × PointsTo rs (record p { region = j }) gpa len
unfolding find_region
find_region-some [] i gpa len p e = cc
find_region-some (r ∷ rs) i gpa len p e = elim (Option-cases (offset_in r gpa len)) [
  | inl none_here ↦
      let (j, place, points) = find_region-some rs (suc i) gpa len p (ground (arith, none_here)) in
      (suc j, omega arith, points)
  | inr (o, here) ↦
      let (base, fits) = offset_in-some r gpa len here in
      (0, ground (arith, here), (r, refl, ground (arith, here), ground (arith, here)))
]

find_region-none :
    (rs : List MemRegion) (i gpa len : ℕ)
    → All IsSized rs
    → find_region i rs gpa len ≡ none
    → All (λ r. ¬ Covers r gpa len) rs
unfolding find_region
find_region-none [] i gpa len s e = tt
find_region-none (r ∷ rs) i gpa len s e = elim (Option-cases (offset_in r gpa len)) [
  | inl none_here ↦ (
    offset_in-none r gpa len s.0 none_here,
    find_region-none rs (suc i) gpa len s.1 (ground (arith, none_here)),
  )
  | inr (o, here) ↦ absurd (ground (arith, here))
]

-- A pointer that gpa_to_host gives is in bounds: it stands for the range's first byte in a region
-- that holds the whole range. It gives none only if no region does.
pub gpa_to_host_lem :
    (mem : Memory) (gpa len : ℕ)
    → All IsSized mem.regions
    → ((p : Ptr) → gpa_to_host mem gpa len ≡ some p → PointsTo mem.regions p gpa len)
      × (gpa_to_host mem gpa len ≡ none → All (λ r. ¬ Covers r gpa len) mem.regions)
unfolding gpa_to_host
gpa_to_host_lem mem gpa len s = (
  λ p e.
      let (j, place, points) = find_region-some mem.regions 0 gpa len p e in
      subst (λ k. PointsTo mem.regions (record p { region = k }) gpa len) (omega arith) points,
  λ e. find_region-none mem.regions 0 gpa len s e,
)
