-- ===== src/Vm/Slots/Lookup.antt =====
-- The region that log_dirty_pages of src/main.rs looks up.
use kvm_rust.Vm.Slots.{MappedRegion, covering_region, next_region}
use kvm_rust.Base.{
  Bool-cases, List, Option, Outcome, [], arith, err, get_elem?, inl, inr, leb, ltb, none, ok, panic,
  some, subst, suc, sym, ℕ, ◌+◌, ◌^◌, ◌∷◌, ◌≡◌, ◌≤◌,
}

next_region-some :
    (found : Outcome (Option (ℕ × MappedRegion))) (idx : ℕ) (r : MappedRegion)
    → next_region found ≡ ok (some (idx, r))
    → (i : ℕ) × (found ≡ ok (some (i, r))) × (idx ≡ suc i)
next_region-some (ok (some (i, q))) idx r e = (i, ground arith, ground arith)
next_region-some (ok none) idx r e = cc
next_region-some (err w) idx r e = cc
next_region-some panic idx r e = cc

abbrev pub Covered : List MappedRegion → ℕ → ℕ → ℕ → MappedRegion → Type 0
Covered rs start end idx r =
    (get_elem? rs idx ≡ some r)
    × (r.guest_phys_addr ≤ start)
    × (end ≤ r.guest_phys_addr + r.mem_size)

pub covering_region_lem :
    (rs : List MappedRegion) (start end idx : ℕ) (r : MappedRegion)
    → covering_region rs start end ≡ ok (some (idx, r))
    → Covered rs start end idx r
unfolding covering_region
covering_region_lem [] start end idx r e = cc
covering_region_lem (q ∷ rs) start end idx r e =
    let later : next_region (covering_region rs start end) ≡ ok (some (idx, r))
        → Covered (q ∷ rs) start end idx r =
      λ f.
        let (i, found, place) = next_region-some (covering_region rs start end) idx r f in
        subst (λ k. Covered (q ∷ rs) start end k r) (sym place)
          (covering_region_lem rs start end i r found) in
    elim (Bool-cases (ltb start q.guest_phys_addr)) [
      | inl late ↦ later (rw late at e)
      | inr started ↦ elim (Bool-cases (leb (2 ^ 64) (q.guest_phys_addr + q.mem_size))) [
        | inl wraps ↦ absurd (ground (arith, started))
        | inr sized ↦ elim (Bool-cases (leb end (q.guest_phys_addr + q.mem_size))) [
          | inl here ↦ ground (arith, started, sized, here)
          | inr short ↦ later (rw (started, sized, short) at e)
        ]
      ]
    ]
