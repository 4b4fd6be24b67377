-- ===== src/Vm/Ring/Tests.antt =====
-- Runs of drain of src/main.rs.
use kvm_rust.Vm.Ring.{CoalescedMmio, CoalescedRing, entries, drain, drain_from}
use kvm_rust.Vm.Ring.Drain.{drain_lem}
use kvm_rust.Base.{[], arith, refl, some, ℕ, ◌∷◌, ◌≡◌}

abbrev entry : ℕ → CoalescedMmio
entry v = record { phys_addr = 0x3c9; len = 1; bytes = v ∷ 0 ∷ 0 ∷ 0 ∷ 0 ∷ 0 ∷ 0 ∷ 0 ∷ [] }

-- The queue wraps: the entries 2 and 0 are in it.
abbrev wrapped : CoalescedRing
wrapped = record { first = 2; last = 1; coalesced_mmio = entry 7 ∷ entry 8 ∷ entry 9 ∷ [] }

-- The sizes of Linux: 8 bytes of indices, 24 for an entry.
page_entries : entries 8 24 ≡ 170
unfolding entries
page_entries = refl

drains :
    drain 3 wrapped ≡ some ((0x3c9, 9 ∷ []) ∷ (0x3c9, 7 ∷ []) ∷ [], record wrapped { first = 1 })
unfolding drain drain_from
drains = refl

drain_lem_example :
    drain 3 wrapped ≡ some ((0x3c9, 9 ∷ []) ∷ (0x3c9, 7 ∷ []) ∷ [], record wrapped { first = 1 })
drain_lem_example = drain_lem wrapped (omega arith) (omega arith)
