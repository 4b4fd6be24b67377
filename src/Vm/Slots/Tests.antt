-- ===== src/Vm/Slots/Tests.antt =====
-- Runs of add_mem_region and log_dirty_pages of src/main.rs.
use kvm_rust.Vm.Control
use kvm_rust.Vm.Host.{Host}
use kvm_rust.Vm.Slots.{
  Accepts, Machine, MappedRegion, UserRegion, DirtyLog, add_mem_region, log_dirty_pages,
  set_user_memory_region, take_next_slot, add_parts, covering_region, split_found, split_slot,
  forget_slot, dirty_log,
}
use kvm_rust.Vm.Slots.Table.{holds, places}
use kvm_rust.Vm.Slots.Split.{IsMapped}
use kvm_rust.Vm.Slots.Adding.{RefusesOverlap, new_region, add_mem_region-IsMapped, grown}
use kvm_rust.Vm.Slots.DirtyPages.{SplitsOne, log_dirty_pages_lem}
use kvm_rust.Base.{
  All, Bool, List, [], arith, false, get_elem?, inl, leb, ltb, none, refl, some, true, ℕ, ◌&&◌, ◌+◌,
  ◌-◌, ◌==◌, ◌||◌, ◌∷◌, ◌≡◌, ◌≢◌,
}

-- KVM as it refuses an overlap, and a new slot without pages.
apart : UserRegion → UserRegion → Bool
apart r q =
    q.slot == r.slot
    || (leb (r.guest_phys_addr + r.memory_size) q.guest_phys_addr
        || leb (q.guest_phys_addr + q.memory_size) r.guest_phys_addr)

all_apart : List UserRegion → UserRegion → Bool
unfolding apart
all_apart [] r = true
all_apart (q ∷ table) r = apart r q && all_apart table r

present : List UserRegion → UserRegion → Bool
present [] r = false
present (q ∷ table) r = q.slot == r.slot || present table r

checked : Accepts
unfolding all_apart present
checked table r = (ltb 0 r.memory_size || present table r) && all_apart table r

present-absent :
    (table : List UserRegion) (r : UserRegion)
    → All (λ q. q.slot ≢ r.slot) table
    → present table r ≡ false
unfolding present
present-absent [] r all = refl
present-absent (q ∷ table) r all = ground (arith, present-absent table r)

all_apart-places :
    (table : List UserRegion) (r : UserRegion) (a : ℕ)
    → all_apart table r ≡ true
    → All (λ q. q.slot ≢ r.slot) table
    → holds r a ≡ true
    → places table a ≡ []
unfolding all_apart apart
all_apart-places [] r a ok_all absent held = refl
all_apart-places (q ∷ table) r a ok_all absent held = ground (arith, all_apart-places table r a)

checked-RefusesOverlap : RefusesOverlap checked
unfolding checked
checked-RefusesOverlap table r accepted absent = (
  ground (arith, present-absent table r absent),
  λ a held. all_apart-places table r a (ground arith) absent held,
)

abbrev host : Host
host = record { lines = []; control = Control.new; signals = []; stdout = [] }

abbrev empty : Machine
empty = record { next_slot = 0; guest_memory = []; table = [] }

empty-IsMapped : IsMapped empty
empty-IsMapped = record { single = λ a. omega arith; below = tt; owned = tt }

abbrev low : MappedRegion
low = new_region 0x7000_0000 0x100_0000 0 0

abbrev one_region : Machine
one_region = grown low 0 empty

add_mem_region-IsMapped_example :
    IsMapped one_region × (get_elem? one_region.guest_memory 0 ≡ some low)
unfolding add_mem_region set_user_memory_region take_next_slot checked all_apart present
add_mem_region-IsMapped_example =
    add_mem_region-IsMapped checked 0x7000_0000 0x100_0000 0 0 empty one_region host host
      checked-RefusesOverlap empty-IsMapped refl

one_region-IsMapped : IsMapped one_region
one_region-IsMapped = record {
  single = λ a. ground arith;
  below = (omega arith, tt);
  owned = (inl (refl, tt), tt);
}

abbrev slot_at : ℕ → ℕ → ℕ → ℕ → UserRegion
slot_at slot flags from to = record {
  slot = slot;
  flags = flags;
  guest_phys_addr = from;
  memory_size = to - from;
  userspace_addr = 0x7000_0000 + from;
}

-- The VGA window: slot 0 is before it, slot 1 is logged, and slot 2 is behind it.
abbrev logged : Machine
logged = record {
  next_slot = 3;
  guest_memory = record low { slot = none } ∷ [];
  table = slot_at 2 0 0xb0000 0x100_0000 ∷ slot_at 1 1 0xa0000 0xb0000 ∷ slot_at 0 0 0 0xa0000 ∷ [];
}

abbrev window_log : DirtyLog
window_log = record { slot = 1; pages = 16 }

log_dirty_pages_lem_example : SplitsOne 0xa0000 0xb0000 one_region logged window_log
unfolding log_dirty_pages covering_region split_found split_slot set_user_memory_region
    take_next_slot add_parts forget_slot dirty_log checked all_apart present
log_dirty_pages_lem_example =
    log_dirty_pages_lem checked true 0xa0000 0x10000 window_log one_region logged host host
      (omega arith) one_region-IsMapped refl
