-- ===== src/Vm/Slots.antt =====
-- The memory slots of src/main.rs: add_mem_region, set_user_memory_region and log_dirty_pages, on
-- the slots that KVM holds.
pub mod Table
pub mod PartSlots
pub mod Parts
pub mod Lookup
pub mod Split
pub mod Adding
pub mod DirtyPages
pub mod Success
mod Tests
use kvm_rust.Vm.Host.{Method, pure, lift, modify, ◌>>=◌, ◌>>◌}
use kvm_rust.Base.{
  Bool, List, Option, Outcome, [], err, false, if◌then◌else◌, leb, length, ltb, none, ok, os,
  other_error, panic, set, some, suc, true, ℕ, ◌*◌, ◌++◌, ◌+◌, ◌-◌, ◌/=◌, ◌/◌, ◌==◌, ◌^◌, ◌||◌, ◌∷◌,
}

-- kvm_userspace_memory_region of the generated bindings.
pub record UserRegion : Type 0 where
  pub slot : ℕ
  pub flags : ℕ
  pub guest_phys_addr : ℕ
  pub memory_size : ℕ
  pub userspace_addr : ℕ

-- A region with its mapping and its slot. `shared`: whether another Arc of it exists.
pub record MappedRegion : Type 0 where
  pub mem_ptr : ℕ
  pub mem_size : ℕ
  pub guest_phys_addr : ℕ
  pub slot : Option ℕ
  pub shared : Bool

-- The part of VM that these methods use, and the slots that KVM holds.
pub record Machine : Type 0 where
  pub next_slot : ℕ
  pub guest_memory : List MappedRegion
  pub table : List UserRegion

pub record DirtyLog : Type 0 where
  pub slot : ℕ
  pub pages : ℕ

-- Whether KVM accepts a KVM_SET_USER_MEMORY_REGION call, given the slots it holds.
abbrev pub Accepts : Type 0
Accepts = List UserRegion → UserRegion → Bool

abbrev pub page_size : ℕ
page_size = 4096

abbrev pub mem_log_dirty_pages : ℕ
mem_log_dirty_pages = 1

abbrev pub without : ℕ → List UserRegion → List UserRegion
without n [] = []
without n (r ∷ rs) = if r.slot == n then without n rs else r ∷ without n rs

-- An accepted call replaces the slot, or deletes it when `memory_size` is 0.
abbrev pub put_slot : UserRegion → List UserRegion → List UserRegion
put_slot r table = if r.memory_size == 0 then without r.slot table else r ∷ without r.slot table

unfoldable pub set_user_memory_region : Accepts → ℕ → ℕ → ℕ → ℕ → ℕ → Method Machine (Unit {0})
set_user_memory_region kvm slot flags guest_phys_addr memory_size userspace_addr vm h =
    let region : UserRegion = record {
      slot = slot;
      flags = flags;
      guest_phys_addr = guest_phys_addr;
      memory_size = memory_size;
      userspace_addr = userspace_addr;
    } in
    if kvm vm.table region
    then (record vm { table = put_slot region vm.table }, h, ok tt)
    else (vm, h, err os)

-- `self.next_slot += 1`, and the number before.
unfoldable pub take_next_slot : Method Machine ℕ
take_next_slot vm h =
    if ltb (vm.next_slot + 1) (2 ^ 32)
    then (record vm { next_slot = vm.next_slot + 1 }, h, ok vm.next_slot)
    else (vm, h, panic)

abbrev pub push_region : MappedRegion → Machine → Machine
push_region r vm = record vm { guest_memory = vm.guest_memory ++ r ∷ [] }

-- `mapping` is what mmap returns: an address, or nothing when it fails.
unfoldable pub add_mem_region : Accepts → Option ℕ → ℕ → ℕ → Method Machine ℕ
unfolding set_user_memory_region take_next_slot
add_mem_region kvm none mem_size guest_phys_addr = lift (err os)
add_mem_region kvm (some mem_ptr) mem_size guest_phys_addr = take_next_slot >>= λ slot.
    set_user_memory_region kvm slot 0 guest_phys_addr mem_size mem_ptr
    >> modify (
        push_region record {
          mem_ptr = mem_ptr;
          mem_size = mem_size;
          guest_phys_addr = guest_phys_addr;
          slot = some slot;
          shared = false;
        })
    >> λ vm h. (vm, h, ok (length vm.guest_memory - 1))

-- `gpa & !(PAGE_SIZE - 1)` and `next_multiple_of(PAGE_SIZE)`.
abbrev pub page_start : ℕ → ℕ
page_start n = n / page_size * page_size

abbrev pub page_end : ℕ → ℕ
page_end n = (n + (page_size - 1)) / page_size * page_size

abbrev pub next_region : Outcome (Option (ℕ × MappedRegion)) → Outcome (Option (ℕ × MappedRegion))
next_region (ok (some (i, r))) = ok (some (suc i, r))
next_region (ok none) = ok none
next_region (err e) = err e
next_region panic = panic

-- `position`: the first region that holds the range. The sum of a region that starts too late is
-- not computed.
unfoldable pub covering_region : List MappedRegion → ℕ → ℕ → Outcome (Option (ℕ × MappedRegion))
covering_region [] start end = ok none
covering_region (r ∷ rs) start end =
    let next = next_region (covering_region rs start end) in
    if ltb start r.guest_phys_addr
    then next
    else if leb (2 ^ 64) (r.guest_phys_addr + r.mem_size)
    then panic
    else if leb end (r.guest_phys_addr + r.mem_size)
    then ok (some (0, r))
    else next

-- A part of the region, from one address to another, and its slot's flags.
pub record Part : Type 0 where
  pub from : ℕ
  pub to : ℕ
  pub flags : ℕ

-- `free_slot.take().unwrap_or_else(..)`
abbrev pub slot_for : Option ℕ → Method Machine ℕ
slot_for (some slot) = pure slot
slot_for none = take_next_slot

-- The loop over the parts; `logged` is returned.
unfoldable pub add_parts :
    Accepts → ℕ → ℕ → Option ℕ → Option ℕ → List Part → Method Machine (Option ℕ)
unfolding set_user_memory_region take_next_slot
add_parts kvm base host free logged [] = pure logged
add_parts kvm base host free logged (p ∷ ps) =
    if p.from == p.to
    then add_parts kvm base host free logged ps
    else (slot_for free >>= λ slot.
        set_user_memory_region kvm slot p.flags p.from (p.to - p.from) (host + (p.from - base))
        >> add_parts kvm base host none (if p.flags /= 0 then some slot else logged) ps)

-- `Arc::get_mut(..)`, and `slot = None`.
unfoldable pub forget_slot : ℕ → MappedRegion → Method Machine (Unit {0})
forget_slot idx r vm h =
    if r.shared
    then (vm, h, err other_error)
    else (record vm { guest_memory = set vm.guest_memory idx (record r { slot = none }) }, h, ok tt)

-- `dup`, and `logged.unwrap()`.
unfoldable pub dirty_log : Bool → ℕ → Option ℕ → Outcome DirtyLog
dirty_log false pages logged = err os
dirty_log true pages none = panic
dirty_log true pages (some slot) = ok (record { slot = slot; pages = pages })

abbrev pub split_parts : ℕ → ℕ → ℕ → ℕ → List Part
split_parts base start end region_end =
    record { from = base; to = start; flags = 0 }
    ∷ record { from = start; to = end; flags = mem_log_dirty_pages }
    ∷ record { from = end; to = region_end; flags = 0 }
    ∷ []

-- Deletes the region's slot, adds the parts, and forgets the slot.
unfoldable pub split_slot :
    Accepts → Bool → ℕ → ℕ → ℕ → MappedRegion → Option ℕ → Method Machine DirtyLog
unfolding set_user_memory_region add_parts forget_slot dirty_log
split_slot kvm duped start end idx r none = lift (err other_error)
split_slot kvm duped start end idx r (some slot) =
    set_user_memory_region kvm slot 0 r.guest_phys_addr 0 r.mem_ptr
    >> add_parts kvm r.guest_phys_addr r.mem_ptr (some slot) none
        (split_parts r.guest_phys_addr start end (r.guest_phys_addr + r.mem_size))
    >>= λ logged. forget_slot idx r >> lift (dirty_log duped ((end - start) / page_size) logged)

unfoldable pub split_found :
    Accepts → Bool → ℕ → ℕ → Option (ℕ × MappedRegion) → Method Machine DirtyLog
unfolding split_slot
split_found kvm duped start end none = lift (err other_error)
split_found kvm duped start end (some (idx, r)) = split_slot kvm duped start end idx r r.slot

-- `duped`: whether the descriptor could be duplicated.
unfoldable pub log_dirty_pages : Accepts → Bool → ℕ → ℕ → Method Machine DirtyLog
unfolding covering_region split_found
log_dirty_pages kvm duped gpa size vm h =
    if leb (2 ^ 64) (gpa + size) || leb (2 ^ 64) (page_end (gpa + size))
    then (vm, h, panic)
    else (lift (covering_region vm.guest_memory (page_start gpa) (page_end (gpa + size)))
          >>= split_found kvm duped (page_start gpa) (page_end (gpa + size)))
        vm h
