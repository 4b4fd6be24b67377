-- ===== src/Vm/Slots/Adding.antt =====
-- add_mem_region of src/main.rs: the slots agree with the regions.
use kvm_rust.Vm.Host.{Host, modify, >>=-returns, ◌>>◌}
use kvm_rust.Vm.Slots.{
  Accepts, Machine, MappedRegion, UserRegion, put_slot, push_region, take_next_slot,
  set_user_memory_region, add_mem_region,
}
use kvm_rust.Vm.Slots.Table.{AllBelow, AllBelow-absent, IsSingle, holds, places, without-absent}
use kvm_rust.Vm.Slots.PartSlots.{take_next_slot_ok, set_region_ok, AllBelow-suc}
use kvm_rust.Vm.Slots.Split.{IsMapped, OwnsSlot, whole_slot, Owns-below}
use kvm_rust.Base.{
  All, All-append, Bool-cases, List, Option, [], ap, arith, false, get_elem?, inl, inr, length,
  length-append, none, ok, ok-injective, refl, set, some, subst, sym, true, ℕ, ◌++◌, ◌+◌, ◌-◌, ◌<◌,
  ◌∙◌, ◌∷◌, ◌≡◌, ◌≢◌,
}

-- KVM adds a slot only where no slot is, and only one with pages.
abbrev pub RefusesOverlap : Accepts → Type 0
RefusesOverlap kvm =
    (table : List UserRegion) (r : UserRegion)
    → kvm table r ≡ true
    → All (λ q. q.slot ≢ r.slot) table
    → (0 < r.memory_size) × ((a : ℕ) → holds r a ≡ true → places table a ≡ [])

OwnsSlot-more :
    (table : List UserRegion) (r : UserRegion) (q : MappedRegion) (slot : Option ℕ)
    → AllBelow r.slot table
    → OwnsSlot table q slot
    → OwnsSlot (r ∷ table) q slot
OwnsSlot-more table r q none below own = tt
OwnsSlot-more table r q (some s) below own =
    inr (λ e. omega (arith, Owns-below r.slot table (whole_slot s q) below own), own)

owned-more :
    (table : List UserRegion) (r : UserRegion) (qs : List MappedRegion)
    → AllBelow r.slot table
    → All (λ q. OwnsSlot table q q.slot) qs
    → All (λ q. OwnsSlot (r ∷ table) q q.slot) qs
owned-more table r [] below all = tt
owned-more table r (q ∷ qs) below all =
    (OwnsSlot-more table r q q.slot below all.0, owned-more table r qs below all.1)

IsSingle-more :
    (table : List UserRegion) (r : UserRegion)
    → IsSingle table
    → ((a : ℕ) → holds r a ≡ true → places table a ≡ [])
    → IsSingle (r ∷ table)
IsSingle-more table r single apart a = elim (Bool-cases (holds r a)) [
  | inl held ↦ rw (held, apart a held) (omega arith)
  | inr other ↦ rw other (single a)
]

-- The machine with one more region.
abbrev pub grown : MappedRegion → ℕ → Machine → Machine
grown r slot vm = record {
  next_slot = slot + 1;
  guest_memory = vm.guest_memory ++ r ∷ [];
  table = whole_slot slot r ∷ vm.table;
}

grown-IsMapped :
    (kvm : Accepts) (r : MappedRegion) (vm : Machine)
    → RefusesOverlap kvm
    → IsMapped vm
    → r.slot ≡ some vm.next_slot
    → kvm vm.table (whole_slot vm.next_slot r) ≡ true
    → IsMapped (grown r vm.next_slot vm)
grown-IsMapped kvm r vm refuses mapped slot accepted =
    let absent = AllBelow-absent vm.next_slot vm.table mapped.below in
    record {
      single =
          IsSingle-more vm.table (whole_slot vm.next_slot r) mapped.single
            (refuses vm.table (whole_slot vm.next_slot r) accepted absent).1;
      below = (omega arith, AllBelow-suc vm.next_slot vm.table mapped.below);
      owned =
          All-append (λ q. OwnsSlot (whole_slot vm.next_slot r ∷ vm.table) q q.slot) vm.guest_memory
            (r ∷ [])
            (owned-more vm.table (whole_slot vm.next_slot r) vm.guest_memory mapped.below
              mapped.owned)
            (rw slot (inl (refl, absent)), tt);
    }

abbrev pub new_region : ℕ → ℕ → ℕ → ℕ → MappedRegion
new_region mem_ptr mem_size guest_phys_addr slot = record {
  mem_ptr = mem_ptr;
  mem_size = mem_size;
  guest_phys_addr = guest_phys_addr;
  slot = some slot;
  shared = false;
}

accepted_region :
    (kvm : Accepts) (r : UserRegion) (vm vm' : Machine) (h h' : Host)
    → set_user_memory_region kvm r.slot r.flags r.guest_phys_addr r.memory_size r.userspace_addr vm
        h
      ≡ (vm', h', ok tt)
    → kvm vm.table r ≡ true
unfolding set_user_memory_region
accepted_region kvm r vm vm' h h' e = ground arith

-- The machine once KVM has accepted the slot and the region is pushed.
abbrev pub put_grown : MappedRegion → ℕ → Machine → Machine
put_grown r slot vm = record (grown r slot vm) { table = put_slot (whole_slot slot r) vm.table }

-- KVM has accepted the region's slot, and the region is pushed.
abbrev pub Pushed : Accepts → ℕ → ℕ → ℕ → ℕ → ℕ → Machine → Machine → Type 0
Pushed kvm mem_ptr mem_size gpa idx slot vm vm' =
    let r = new_region mem_ptr mem_size gpa slot in
    (kvm vm.table (whole_slot slot r) ≡ true)
    × (vm' ≡ push_region r (record vm { table = put_slot (whole_slot slot r) vm.table }))
    × (idx ≡ length vm.guest_memory)

-- The step after the number: the slot is accepted, and the region pushed.
add_at :
    (kvm : Accepts) (mem_ptr mem_size gpa slot idx : ℕ) (vm vm' : Machine) (h h' : Host)
    → (set_user_memory_region kvm slot 0 gpa mem_size mem_ptr
          >> modify (push_region (new_region mem_ptr mem_size gpa slot))
          >> λ w g. (w, g, ok (length w.guest_memory - 1)))
        vm h
      ≡ (vm', h', ok idx)
    → Pushed kvm mem_ptr mem_size gpa idx slot vm vm'
add_at kvm mem_ptr mem_size gpa slot idx vm vm' h h' e =
    let r = new_region mem_ptr mem_size gpa slot in
    let (vm2, h2, pushed, first, last) =
      >>=-returns (set_user_memory_region kvm slot 0 gpa mem_size mem_ptr >> modify (push_region r))
        (λ pushed w g. (w, g, ok (length w.guest_memory - 1))) vm h e in
    let (vm1, h1, done, set, push) =
      >>=-returns (set_user_memory_region kvm slot 0 gpa mem_size mem_ptr)
        (λ done. modify (push_region r)) vm h first in
    let table = set_region_ok kvm (whole_slot slot r) vm vm1 h h1 set in
    let state : vm2 ≡ push_region r record vm { table = put_slot (whole_slot slot r) vm.table } =
      sym (ap (λ x. x.0) push) ∙ ap (push_region r) table in
    (
      accepted_region kvm (whole_slot slot r) vm vm1 h h1 set,
      sym (ap (λ x. x.0) last) ∙ state,
      sym (ok-injective (ap (λ x. x.2) last))
          ∙ ap (λ w. length w.guest_memory - 1) state
          ∙ omega (arith, length-append vm.guest_memory (r ∷ [])),
    )

pub add_mem_region_ok :
    (kvm : Accepts) (mem_ptr mem_size gpa idx : ℕ) (vm vm' : Machine) (h h' : Host)
    → add_mem_region kvm (some mem_ptr) mem_size gpa vm h ≡ (vm', h', ok idx)
    → let r = new_region mem_ptr mem_size gpa vm.next_slot in
      (kvm vm.table (whole_slot vm.next_slot r) ≡ true)
      × (vm' ≡ put_grown r vm.next_slot vm)
      × (idx ≡ length vm.guest_memory)
unfolding add_mem_region
add_mem_region_ok kvm mem_ptr mem_size gpa idx vm vm' h h' e =
    let (vm1, h1, slot, numbered, rest) =
      >>=-returns take_next_slot
        (λ slot.
          set_user_memory_region kvm slot 0 gpa mem_size mem_ptr
          >> modify (push_region (new_region mem_ptr mem_size gpa slot))
          >> λ w g. (w, g, ok (length w.guest_memory - 1)))
        vm h e in
    let (next, number) = take_next_slot_ok vm vm1 h h1 slot numbered in
    subst (λ w. Pushed kvm mem_ptr mem_size gpa idx vm.next_slot w vm') next
      (subst (λ n. Pushed kvm mem_ptr mem_size gpa idx n vm1 vm') number
        (add_at kvm mem_ptr mem_size gpa slot idx vm1 vm' h1 h' rest))

get_elem?-last : {A : Type 0} (xs : List A) (a : A) → get_elem? (xs ++ a ∷ []) (length xs) ≡ some a
get_elem?-last [] a = refl
get_elem?-last (x ∷ xs) a = get_elem?-last xs a

-- A region that is added keeps KVM's slots in agreement with the regions, under a new number and
-- over no other slot, and it is found at the index that is returned. KVM is taken to refuse a new
-- slot that has no pages or overlaps another.
pub add_mem_region-IsMapped :
    (kvm : Accepts) (mem_ptr mem_size gpa idx : ℕ) (vm vm' : Machine) (h h' : Host)
    → RefusesOverlap kvm
    → IsMapped vm
    → add_mem_region kvm (some mem_ptr) mem_size gpa vm h ≡ (vm', h', ok idx)
    → IsMapped vm'
      × (get_elem? vm'.guest_memory idx ≡ some (new_region mem_ptr mem_size gpa vm.next_slot))
add_mem_region-IsMapped kvm mem_ptr mem_size gpa idx vm vm' h h' refuses mapped e =
    let r = new_region mem_ptr mem_size gpa vm.next_slot in
    let (accepted, after, last) = add_mem_region_ok kvm mem_ptr mem_size gpa idx vm vm' h h' e in
    let absent = AllBelow-absent vm.next_slot vm.table mapped.below in
    let (pages, apart) = refuses vm.table (whole_slot vm.next_slot r) accepted absent in
    let put : put_slot (whole_slot vm.next_slot r) vm.table ≡ whole_slot vm.next_slot r ∷ vm.table =
      rw (without-absent vm.next_slot vm.table absent) (ground (arith, pages)) in
    let state : grown r vm.next_slot vm ≡ vm' =
      sym (after ∙ ap (λ t. record (grown r vm.next_slot vm) { table = t }) put) in
    subst (λ w. IsMapped w × (get_elem? w.guest_memory idx ≡ some r)) state
      (
        grown-IsMapped kvm r vm refuses mapped refl accepted,
        subst (λ i. get_elem? (vm.guest_memory ++ r ∷ []) i ≡ some r) (sym last)
            (get_elem?-last vm.guest_memory r),
      )
