-- ===== src/Vm/Slots/Success.antt =====
-- When log_dirty_pages of src/main.rs returns a log.
use kvm_rust.Vm.Host.{Host}
use kvm_rust.Vm.Slots.{
  Accepts, Machine, MappedRegion, UserRegion, page_start, page_end, covering_region,
  log_dirty_pages, split_found, split_slot, set_user_memory_region, add_parts, take_next_slot,
  forget_slot, dirty_log,
}
use kvm_rust.Vm.Slots.Lookup.{covering_region_lem}
use mathlib.Core.Path.{fun_ext}
use kvm_rust.Base.{
  List, arith, false, is_ok, ok, some, subst, sym, true, ℕ, ◌+◌, ◌<◌, ◌^◌, ◌≡◌, ◌≤◌,
}

split_slot_works :
    (start end idx s : ℕ) (r : MappedRegion) (vm : Machine) (h : Host)
    → r.guest_phys_addr ≤ start
    → start < end
    → end ≤ r.guest_phys_addr + r.mem_size
    → vm.next_slot + 2 < 2 ^ 32
    → r.shared ≡ false
    → is_ok (split_slot (λ table q. true) true start end idx r (some s) vm h).2 ≡ true
unfolding split_slot set_user_memory_region add_parts take_next_slot forget_slot dirty_log
split_slot_works start end idx s r vm h lo wide hi room alone = ground arith

-- Logging returns a log where KVM accepts every call, the descriptor can be duplicated, and the
-- first region that holds the page range has a slot and is not shared; the range must not be empty,
-- and two more slot numbers must exist.
pub log_dirty_pages_returns :
    (kvm : Accepts) (gpa size idx s : ℕ) (r : MappedRegion) (vm : Machine) (h : Host)
    → ((table : List UserRegion) (q : UserRegion) → kvm table q ≡ true)
    → 0 < size
    → page_end (gpa + size) < 2 ^ 64
    → covering_region vm.guest_memory (page_start gpa) (page_end (gpa + size)) ≡ ok (some (idx, r))
    → r.slot ≡ some s
    → r.shared ≡ false
    → vm.next_slot + 2 < 2 ^ 32
    → is_ok (log_dirty_pages kvm true gpa size vm h).2 ≡ true
unfolding log_dirty_pages split_found
log_dirty_pages_returns kvm gpa size idx s r vm h accepts some_bytes small found slot alone room =
    let (there, lo, hi) =
      covering_region_lem vm.guest_memory (page_start gpa) (page_end (gpa + size)) idx r found in
    subst (λ k. is_ok (log_dirty_pages k true gpa size vm h).2 ≡ true)
      (fun_ext (λ t. fun_ext (λ q. sym (accepts t q))))
      (rw (found, slot)
        (ground (
          arith,
          split_slot_works (page_start gpa) (page_end (gpa + size)) idx s r vm h lo (omega arith) hi
              room alone,
        )))
