-- ===== src/Vm/Slots/Split.antt =====
-- The split of a region's slot in log_dirty_pages of src/main.rs.
use kvm_rust.Vm.Host.{Host, lift}
use kvm_rust.Vm.Slots.{
  Accepts, Machine, MappedRegion, UserRegion, Part, DirtyLog, without, split_parts,
  set_user_memory_region, add_parts, forget_slot, dirty_log, page_size, mem_log_dirty_pages,
}
use kvm_rust.Vm.Slots.Table.{places, Place, AllBelow, Owns, IsSingle, places-without, Below-without}
use kvm_rust.Vm.Slots.PartSlots.{Adds, Logs, IsPart, add_places, part_slot, set_region_ok}
use kvm_rust.Vm.Slots.Parts.{add_parts-Adds}
use kvm_rust.Base.{
  All, Bool, List, Option, Outcome, [], ap, arith, false, if◌then◌else◌, inl, inr, leb, ltb, none,
  ok, refl, some, subst, sym, true, ℕ, ◌&&◌, ◌+◌, ◌-◌, ◌/◌, ◌<◌, ◌∙◌, ◌∷◌, ◌≡◌, ◌≢◌, ◌≤◌,
}

-- The slot of a region that has one: all of it, not logged.
abbrev pub whole_slot : ℕ → MappedRegion → UserRegion
whole_slot s r = record {
  slot = s;
  flags = 0;
  guest_phys_addr = r.guest_phys_addr;
  memory_size = r.mem_size;
  userspace_addr = r.mem_ptr;
}

abbrev pub OwnsSlot : List UserRegion → MappedRegion → Option ℕ → Type 0
OwnsSlot table r none = Unit {0}
OwnsSlot table r (some s) = Owns table (whole_slot s r)

-- What KVM holds agrees with what the machine knows of it.
pub record IsMapped (vm : Machine) : Type 0 where
  pub single : IsSingle vm.table
  pub below : AllBelow vm.next_slot vm.table
  pub owned : All (λ r. OwnsSlot vm.table r r.slot) vm.guest_memory

abbrev pub logged_part : ℕ → ℕ → Part
logged_part start end = record { from = start; to = end; flags = mem_log_dirty_pages }

-- The places of an address once a region is split at a range.
abbrev pub split_places : MappedRegion → ℕ → ℕ → ℕ → List Place → List Place
split_places r start end a before =
    if leb r.guest_phys_addr a && ltb a (r.guest_phys_addr + r.mem_size)
    then record {
      host = r.mem_ptr + (a - r.guest_phys_addr);
      flags = if leb start a && ltb a end then mem_log_dirty_pages else 0;
    }
      ∷ []
    else before

without_absent : (n : ℕ) (t : List UserRegion) → All (λ q. q.slot ≢ n) (without n t)
without_absent n [] = tt
without_absent n (r ∷ rs) = ground (arith, without_absent n rs)

pub Owns-below :
    (n : ℕ) (t : List UserRegion) (e : UserRegion) → AllBelow n t → Owns t e → e.slot < n
Owns-below n [] e all own = absurd own
Owns-below n (r ∷ rs) e all (inl (same, others)) = subst (λ q. q.slot < n) same all.0
Owns-below n (r ∷ rs) e all (inr (other, own)) = Owns-below n rs e all.1 own

add_places_split :
    (r : MappedRegion) (start end a : ℕ) (before : List Place)
    → r.guest_phys_addr ≤ start
    → start < end
    → end ≤ r.guest_phys_addr + r.mem_size
    → add_places r.guest_phys_addr r.mem_ptr
        (split_parts r.guest_phys_addr start end (r.guest_phys_addr + r.mem_size))
        a
        (if leb r.guest_phys_addr a && ltb a (r.guest_phys_addr + r.mem_size) then [] else before)
      ≡ split_places r start end a before
add_places_split r start end a before lo wide hi = ground arith

-- A range of a machine's region, and the log that is to be of it.
pub record Splits (start end : ℕ) (r : MappedRegion) (vm vm' : Machine) (log : DirtyLog)
    : Type 0 where
  pub split : (a : ℕ) → places vm'.table a ≡ split_places r start end a (places vm.table a)
  pub below : AllBelow vm'.next_slot vm'.table
  pub logged :
      Owns vm'.table (part_slot r.guest_phys_addr r.mem_ptr log.slot (logged_part start end))
  pub sized : log.pages ≡ (end - start) / page_size

forget_slot_ok :
    (idx : ℕ) (r : MappedRegion) (vm vm' : Machine) (h h' : Host)
    → forget_slot idx r vm h ≡ (vm', h', ok tt)
    → (vm'.table ≡ vm.table) × (vm'.next_slot ≡ vm.next_slot)
unfolding forget_slot
forget_slot_ok idx r vm vm' h h' e = ground arith

dirty_log_ok :
    (duped : Bool) (pages : ℕ) (logged : Option ℕ) (log : DirtyLog)
    → dirty_log duped pages logged ≡ ok log
    → (logged ≡ some log.slot) × (log.pages ≡ pages)
unfolding dirty_log
dirty_log_ok false pages logged log e = cc
dirty_log_ok true pages none log e = cc
dirty_log_ok true pages (some s) log e = ground arith

pub lift_ok :
    {D A : Type 0} (r : Outcome A) (d d' : D) (h h' : Host) (a : A)
    → lift r d h ≡ (d', h', ok a)
    → (d' ≡ d) × (r ≡ ok a)
lift_ok r d d' h h' a e = (ap (λ x. x.0) (sym e), ap (λ x. x.2) e)

-- The region's parts are its start, the logged range and its end.
split_parts-IsPart :
    (r : MappedRegion) (start end : ℕ)
    → r.guest_phys_addr ≤ start
    → start < end
    → end ≤ r.guest_phys_addr + r.mem_size
    → All
        (IsPart (logged_part start end))
        (split_parts r.guest_phys_addr start end (r.guest_phys_addr + r.mem_size))
split_parts-IsPart r start end lo wide hi =
    ((lo, λ x. absurd (x refl)), ((omega arith, λ x. refl), ((hi, λ x. absurd (x refl)), tt)))

deleted_places :
    (s : ℕ) (r : MappedRegion) (start end a : ℕ) (table : List UserRegion)
    → r.guest_phys_addr ≤ start
    → start < end
    → end ≤ r.guest_phys_addr + r.mem_size
    → IsSingle table
    → Owns table (whole_slot s r)
    → add_places r.guest_phys_addr r.mem_ptr
        (split_parts r.guest_phys_addr start end (r.guest_phys_addr + r.mem_size))
        a
        (places (without s table) a)
      ≡ split_places r start end a (places table a)
deleted_places s r start end a table lo wide hi single own =
    rw (places-without (whole_slot s r) table a own (single a))
      (add_places_split r start end a (places table a) lo wide hi)

-- The steps of a split, each at the state that the one before it left.
pub split_steps :
    (s start end idx : ℕ) (r : MappedRegion) (kvm : Accepts) (duped : Bool) (logged : Option ℕ)
    (log : DirtyLog) (vm vm1 vm2 vm3 vm' : Machine) (h h1 h2 h3 h' : Host)
    → r.guest_phys_addr ≤ start
    → start < end
    → end ≤ r.guest_phys_addr + r.mem_size
    → IsSingle vm.table
    → AllBelow vm.next_slot vm.table
    → Owns vm.table (whole_slot s r)
    → set_user_memory_region kvm s 0 r.guest_phys_addr 0 r.mem_ptr vm h ≡ (vm1, h1, ok tt)
    → add_parts kvm r.guest_phys_addr r.mem_ptr
        (some s)
        none
        (split_parts r.guest_phys_addr start end (r.guest_phys_addr + r.mem_size))
        vm1
        h1
      ≡ (vm2, h2, ok logged)
    → forget_slot idx r vm2 h2 ≡ (vm3, h3, ok tt)
    → lift (dirty_log duped ((end - start) / page_size) logged) vm3 h3 ≡ (vm', h', ok log)
    → Splits start end r vm vm' log
split_steps s start end idx r kvm duped logged log vm vm1 vm2 vm3 vm' h h1 h2 h3 h' lo wide hi
      single below own deleted added forgot given =
    let gone : vm1 ≡ record vm { table = without s vm.table } =
      set_region_ok kvm (record (whole_slot s r) { memory_size = 0 }) vm vm1 h h1 deleted in
    let adds : Adds r.guest_phys_addr r.mem_ptr (logged_part start end)
        (split_parts r.guest_phys_addr start end (r.guest_phys_addr + r.mem_size))
        (record vm { table = without s vm.table }) vm2 logged =
      add_parts-Adds kvm r.guest_phys_addr r.mem_ptr (logged_part start end) (some s) none
        (split_parts r.guest_phys_addr start end (r.guest_phys_addr + r.mem_size))
        (record vm { table = without s vm.table }) vm2 h1 h2 logged
        (split_parts-IsPart r start end lo wide hi) (Below-without vm.next_slot s vm.table below)
        (without_absent s vm.table, Owns-below vm.next_slot vm.table (whole_slot s r) below own) tt
        (subst
          (λ w.
            add_parts kvm r.guest_phys_addr r.mem_ptr (some s) none
              (split_parts r.guest_phys_addr start end (r.guest_phys_addr + r.mem_size)) w h1
            ≡ (vm2, h2, ok logged))
          gone added) in
    let (same, next) = forget_slot_ok idx r vm2 vm3 h2 h3 forgot in
    let (end_state, kept) =
      lift_ok (dirty_log duped ((end - start) / page_size) logged) vm3 vm' h3 h' log given in
    let (slot, pages) = dirty_log_ok duped ((end - start) / page_size) logged log kept in
    let table : vm'.table ≡ vm2.table = ap (λ w. w.table) end_state ∙ same in
    record {
      split = λ a.
          ap (λ t. places t a) table
          ∙ adds.added a
          ∙ deleted_places s r start end a vm.table lo wide hi single own;
      below =
          subst (λ n. AllBelow n vm'.table) (sym (ap (λ w. w.next_slot) end_state ∙ next))
            (subst (AllBelow vm2.next_slot) (sym table) adds.below);
      logged =
          subst
            (λ t. Owns t (part_slot r.guest_phys_addr r.mem_ptr log.slot (logged_part start end)))
            (sym table)
            (subst (λ o. Logs r.guest_phys_addr r.mem_ptr (logged_part start end) o vm2) slot
              adds.logs);
      sized = pages;
    }
