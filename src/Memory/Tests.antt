-- ===== src/Memory/Tests.antt =====
-- Guest memory at concrete inputs.
use kvm_rust.Base.{
  All, [], arith, err, false, none, ok, other_error, refl, some, true, ℕ, ◌-◌, ◌^◌, ◌∷◌, ◌≡◌,
}
use kvm_rust.Memory.{
  Memory, MemRegion, Ptr, gpa_to_host, offset_in, find_region, read_guest_ptr, load_data_to_memory,
}
use kvm_rust.Memory.Access.{Disjoint}
use kvm_rust.Memory.Lookup.{PointsTo, Covers, gpa_to_host_lem}
use kvm_rust.Memory.Load.{load_data_to_memory_lem, fits}

abbrev low : MemRegion
low = record { guest_phys_addr = 0; mem_size = 0x1000 }

abbrev high : MemRegion
high = record { guest_phys_addr = 0x8000; mem_size = 0x100 }

abbrev two_regions : Memory
two_regions = record { regions = low ∷ high ∷ []; ram = λ r o. 0 }

finds :
    (gpa_to_host two_regions 0xfff 1 ≡ some (record { region = 0; off = 0xfff }))
    × (gpa_to_host two_regions 0x8010 0xf0 ≡ some (record { region = 1; off = 0x10 }))
    × (gpa_to_host two_regions 0xfff 2 ≡ none)
    × (gpa_to_host two_regions 0x8010 (2 ^ 64 - 1) ≡ none)
unfolding gpa_to_host find_region offset_in
finds = (refl, refl, refl, refl)

gpa_to_host_lem_example :
    ((p : Ptr)
      → gpa_to_host two_regions 0x8010 0xf0 ≡ some p
      → PointsTo two_regions.regions p 0x8010 0xf0)
    × (gpa_to_host two_regions 0x8010 0xf0 ≡ none
        → All (λ r. ¬ Covers r 0x8010 0xf0) two_regions.regions)
gpa_to_host_lem_example = gpa_to_host_lem two_regions 0x8010 0xf0 (omega arith)

load_data_to_memory_lem_example :
    let (mem', r) = load_data_to_memory two_regions 1 (7 ∷ 8 ∷ []) 0xfe in
    let p : Ptr = record { region = 1; off = 0xfe } in
    (fits two_regions 1 2 0xfe ≡ true
      → (r ≡ ok 2)
        × (read_guest_ptr mem' p 2 ≡ 7 ∷ 8 ∷ [])
        × ((q : Ptr) (m : ℕ)
            → Disjoint p 2 q m
            → read_guest_ptr mem' q m ≡ read_guest_ptr two_regions q m))
    × (fits two_regions 1 2 0xfe ≡ false → (r ≡ err other_error) × (mem' ≡ two_regions))
load_data_to_memory_lem_example =
    load_data_to_memory_lem two_regions 1 (7 ∷ 8 ∷ []) 0xfe (omega arith) (omega arith)
