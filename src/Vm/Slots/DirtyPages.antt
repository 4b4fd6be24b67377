-- ===== src/Vm/Slots/DirtyPages.antt =====
-- log_dirty_pages of src/main.rs: the slots that it leaves.
use kvm_rust.Vm.Host.{Host, lift, >>=-returns, ◌>>◌}
use kvm_rust.Vm.Slots.{
  Accepts, Machine, MappedRegion, DirtyLog, page_start, page_end, page_size, split_parts,
  set_user_memory_region, add_parts, covering_region, forget_slot, dirty_log, split_slot,
  split_found, log_dirty_pages,
}
use kvm_rust.Vm.Slots.Table.{AllBelow, IsSingle}
use kvm_rust.Vm.Slots.Lookup.{Covered, covering_region_lem}
use kvm_rust.Vm.Slots.Split.{IsMapped, OwnsSlot, Splits, split_steps, lift_ok}
use kvm_rust.Base.{
  All-get_elem?, Bool, Bool-cases, Option, arith, inl, inr, leb, none, ok, some, subst, ℕ, ◌+◌, ◌-◌,
  ◌/◌, ◌<◌, ◌^◌, ◌||◌, ◌≡◌, ◌≤◌,
}

split_slot-Splits :
    (start end idx : ℕ) (r : MappedRegion) (slot : Option ℕ) (kvm : Accepts) (duped : Bool)
    (log : DirtyLog) (vm vm' : Machine) (h h' : Host)
    → r.guest_phys_addr ≤ start
    → start < end
    → end ≤ r.guest_phys_addr + r.mem_size
    → IsSingle vm.table
    → AllBelow vm.next_slot vm.table
    → OwnsSlot vm.table r slot
    → split_slot kvm duped start end idx r slot vm h ≡ (vm', h', ok log)
    → Splits start end r vm vm' log
unfolding split_slot
split_slot-Splits start end idx r none kvm duped log vm vm' h h' lo wide hi single below own e = cc
split_slot-Splits start end idx r (some s) kvm duped log vm vm' h h' lo wide hi single below own e =
    let parts = split_parts r.guest_phys_addr start end (r.guest_phys_addr + r.mem_size) in
    let (vm2, h2, logged, first, last) =
      >>=-returns
        (set_user_memory_region kvm s 0 r.guest_phys_addr 0 r.mem_ptr
          >> add_parts kvm r.guest_phys_addr r.mem_ptr (some s) none parts)
        (λ logged. forget_slot idx r >> lift (dirty_log duped ((end - start) / page_size) logged))
        vm h e in
    let (vm1, h1, done, deleted, added) =
      >>=-returns (set_user_memory_region kvm s 0 r.guest_phys_addr 0 r.mem_ptr)
        (λ done. add_parts kvm r.guest_phys_addr r.mem_ptr (some s) none parts) vm h first in
    let (vm3, h3, forgotten, forgot, given) =
      >>=-returns (forget_slot idx r)
        (λ forgotten. lift (dirty_log duped ((end - start) / page_size) logged)) vm2 h2 last in
    split_steps s start end idx r kvm duped logged log vm vm1 vm2 vm3 vm' h h1 h2 h3 h' lo wide hi
      single below own deleted added forgot given

split_places-IsSingle :
    (r : MappedRegion) (start end : ℕ) (vm vm' : Machine) (log : DirtyLog)
    → IsSingle vm.table
    → Splits start end r vm vm' log
    → IsSingle vm'.table
split_places-IsSingle r start end vm vm' log single splits a =
    rw (splits.split a) (ground (arith, single a))

abbrev pub SplitsOne : ℕ → ℕ → Machine → Machine → DirtyLog → Type 0
SplitsOne start end vm vm' log =
    (idx : ℕ) × (r : MappedRegion) × Covered vm.guest_memory start end idx r
    × Splits start end r vm vm' log
    × IsSingle vm'.table

split_found_splits :
    (start end : ℕ) (found : Option (ℕ × MappedRegion)) (kvm : Accepts) (duped : Bool)
    (log : DirtyLog) (vm vm' : Machine) (h h' : Host)
    → start < end
    → IsMapped vm
    → covering_region vm.guest_memory start end ≡ ok found
    → split_found kvm duped start end found vm h ≡ (vm', h', ok log)
    → SplitsOne start end vm vm' log
unfolding split_found
split_found_splits start end none kvm duped log vm vm' h h' wide mapped found e = cc
split_found_splits start end (some (idx, r)) kvm duped log vm vm' h h' wide mapped found e =
    let covered = covering_region_lem vm.guest_memory start end idx r found in
    let splits =
      split_slot-Splits start end idx r r.slot kvm duped log vm vm' h h' covered.1 wide covered.2
        mapped.single mapped.below
        (All-get_elem? (λ q. OwnsSlot vm.table q q.slot) vm.guest_memory idx mapped.owned covered.0)
        e in
    (idx, r, covered, splits, split_places-IsSingle r start end vm vm' log mapped.single splits)

-- Logging that returns has split one region that holds the page range: each address of the region
-- is still in one slot, at the same host address, and only the range's pages are logged; other
-- addresses keep their slots, no two slots overlap, and the log is of the range's slot, a bit for
-- each page. This is for a size above 0, where the slots agree with the regions before.
pub log_dirty_pages_lem :
    (kvm : Accepts) (duped : Bool) (gpa size : ℕ) (log : DirtyLog) (vm vm' : Machine) (h h' : Host)
    → 0 < size
    → IsMapped vm
    → log_dirty_pages kvm duped gpa size vm h ≡ (vm', h', ok log)
    → (idx : ℕ) × (r : MappedRegion) × Covered vm.guest_memory
        (page_start gpa)
        (page_end (gpa + size))
        idx
        r
      × Splits (page_start gpa) (page_end (gpa + size)) r vm vm' log
      × IsSingle vm'.table
unfolding log_dirty_pages
log_dirty_pages_lem kvm duped gpa size log vm vm' h h' some_bytes mapped e =
    elim (Bool-cases (leb (2 ^ 64) (gpa + size) || leb (2 ^ 64) (page_end (gpa + size)))) [
      | inl wraps ↦ absurd (ground (arith, wraps))
      | inr sized ↦
          let (vm1, h1, found, looked, rest) =
            >>=-returns
              (lift (covering_region vm.guest_memory (page_start gpa) (page_end (gpa + size))))
              (split_found kvm duped (page_start gpa) (page_end (gpa + size))) vm h
              (rw sized at e) in
          let (same, here) =
            lift_ok (covering_region vm.guest_memory (page_start gpa) (page_end (gpa + size))) vm
              vm1 h h1 found looked in
          split_found_splits (page_start gpa) (page_end (gpa + size)) found kvm duped log vm vm' h1
            h' (omega arith) mapped here
            (subst
              (λ w.
                split_found kvm duped (page_start gpa) (page_end (gpa + size)) found w h1
                ≡ (vm', h', ok log))
              same rest)
    ]
