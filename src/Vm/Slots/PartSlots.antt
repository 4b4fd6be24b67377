-- ===== src/Vm/Slots/PartSlots.antt =====
-- The slot that log_dirty_pages of src/main.rs makes of a part.
use kvm_rust.Vm.Host.{Host}
use kvm_rust.Vm.Slots.{
  Accepts, Machine, UserRegion, Part, put_slot, take_next_slot, slot_for, set_user_memory_region,
}
use kvm_rust.Vm.Slots.Table.{
  holds, place_in, places, Place, AllBelow, Owns, AllBelow-absent, without-absent,
}
use kvm_rust.Base.{
  All, Bool-cases, List, Option, [], ap, arith, if◌then◌else◌, inl, inr, none, ok, ok-injective,
  refl, some, subst, sym, ℕ, ◌+◌, ◌-◌, ◌/=◌, ◌<◌, ◌∙◌, ◌∷◌, ◌≡◌, ◌≢◌, ◌≤◌,
}

-- The slot of a part.
abbrev pub part_slot : ℕ → ℕ → ℕ → Part → UserRegion
part_slot base host slot p = record {
  slot = slot;
  flags = p.flags;
  guest_phys_addr = p.from;
  memory_size = p.to - p.from;
  userspace_addr = host + (p.from - base);
}

-- The places of an address once the parts are added.
abbrev pub add_places : ℕ → ℕ → List Part → ℕ → List Place → List Place
add_places base host [] a found = found
add_places base host (p ∷ ps) a found = add_places base host ps a (
    if holds (part_slot base host 0 p) a
    then place_in (part_slot base host 0 p) a ∷ found
    else found)

-- A number that no slot has, below the next.
abbrev pub IsFree : Option ℕ → Machine → Type 0
IsFree none vm = Unit {0}
IsFree (some s) vm = All (λ q. q.slot ≢ s) vm.table × (s < vm.next_slot)

-- The logged slot, if there is one, is that of the part.
abbrev pub Logs : ℕ → ℕ → Part → Option ℕ → Machine → Type 0
Logs base host p none vm = Unit {0}
Logs base host p (some s) vm = Owns vm.table (part_slot base host s p)

abbrev pub IsPart : Part → Part → Type 0
IsPart logged p = (p.from ≤ p.to) × (p.flags ≢ 0 → p ≡ logged)

pub take_next_slot_ok :
    (vm vm' : Machine) (h h' : Host) (s : ℕ)
    → take_next_slot vm h ≡ (vm', h', ok s)
    → (vm' ≡ record vm { next_slot = vm.next_slot + 1 }) × (s ≡ vm.next_slot)
unfolding take_next_slot
take_next_slot_ok vm vm' h h' s e = ground arith

pub set_region_ok :
    (kvm : Accepts) (r : UserRegion) (vm vm' : Machine) (h h' : Host)
    → set_user_memory_region kvm r.slot r.flags r.guest_phys_addr r.memory_size r.userspace_addr vm
        h
      ≡ (vm', h', ok tt)
    → vm' ≡ record vm { table = put_slot r vm.table }
unfolding set_user_memory_region
set_region_ok kvm r vm vm' h h' e = ground arith

-- What adding parts to a machine leaves.
pub record Adds (base host : ℕ) (logged : Part) (ps : List Part) (vm vm' : Machine)
    (found : Option ℕ) : Type 0 where
  pub added : (a : ℕ) → places vm'.table a ≡ add_places base host ps a (places vm.table a)
  pub below : AllBelow vm'.next_slot vm'.table
  pub logs : Logs base host logged found vm'
  pub kept : vm'.guest_memory ≡ vm.guest_memory

-- A machine with a free number, and otherwise as it was.
abbrev pub Gets : Machine → Machine → ℕ → Type 0
Gets vm vm' s =
    (vm'.table ≡ vm.table)
    × (vm'.guest_memory ≡ vm.guest_memory)
    × (s < vm'.next_slot)
    × AllBelow vm'.next_slot vm'.table
    × All (λ q. q.slot ≢ s) vm'.table

pub AllBelow-suc : (n : ℕ) (t : List UserRegion) → AllBelow n t → AllBelow (n + 1) t
AllBelow-suc n [] all = tt
AllBelow-suc n (r ∷ rs) all = (omega (arith, all.0), AllBelow-suc n rs all.1)

pub slot_for-Gets :
    (free : Option ℕ) (vm vm' : Machine) (h h' : Host) (s : ℕ)
    → AllBelow vm.next_slot vm.table
    → IsFree free vm
    → slot_for free vm h ≡ (vm', h', ok s)
    → Gets vm vm' s
slot_for-Gets none vm vm' h h' s below is_free e =
    let (grown, number) = take_next_slot_ok vm vm' h h' s e in
    subst (λ w. Gets vm w s) (sym grown)
      (subst (Gets vm record vm { next_slot = vm.next_slot + 1 }) (sym number) (
        refl,
        refl,
        omega arith,
        AllBelow-suc vm.next_slot vm.table below,
        AllBelow-absent vm.next_slot vm.table below,
      ))
slot_for-Gets (some n) vm vm' h h' s below is_free e =
    subst (λ w. Gets vm w s) (ap (λ x. x.0) e)
      (subst (Gets vm vm) (ok-injective (ap (λ x. x.2) e))
        (refl, refl, is_free.1, below, is_free.0))

pub put_slot_new :
    (base host s : ℕ) (p : Part) (t : List UserRegion)
    → p.from ≤ p.to
    → p.from ≢ p.to
    → All (λ q. q.slot ≢ s) t
    → put_slot (part_slot base host s p) t ≡ part_slot base host s p ∷ t
put_slot_new base host s p t ordered wide absent = rw (without-absent s t absent) (ground arith)

pub Owns-present :
    (e : UserRegion) (s : ℕ) (t : List UserRegion) → Owns t e → All (λ q. q.slot ≢ s) t → s ≢ e.slot
Owns-present e s [] own absent = absurd own
Owns-present e s (r ∷ rs) (inl (same, others)) absent =
    λ x. absent.0 (ap (λ q. q.slot) same ∙ sym x)
Owns-present e s (r ∷ rs) (inr (other, own)) absent = Owns-present e s rs own absent.1

Logs-more :
    (base host : ℕ) (logged : Part) (found : Option ℕ) (vm : Machine) (r : UserRegion)
    → All (λ q. q.slot ≢ r.slot) vm.table
    → Logs base host logged found vm
    → Logs base host logged found (record vm { table = r ∷ vm.table })
Logs-more base host logged none vm r absent logs = tt
Logs-more base host logged (some n) vm r absent logs =
    inr (Owns-present (part_slot base host n logged) r.slot vm.table logs absent, logs)

pub Logs-new :
    (base host : ℕ) (logged p : Part) (found : Option ℕ) (s : ℕ) (vm : Machine)
    → IsPart logged p
    → All (λ q. q.slot ≢ s) vm.table
    → Logs base host logged found vm
    → Logs base host logged
        (if p.flags /= 0 then some s else found)
        (record vm { table = part_slot base host s p ∷ vm.table })
Logs-new base host logged p found s vm part absent logs = elim (Bool-cases (p.flags /= 0)) [
  | inl flagged ↦
      rw flagged (inl (ap (part_slot base host s) (part.1 (λ z. absurd (ground arith))), absent))
  | inr plain ↦ rw plain (Logs-more base host logged found vm (part_slot base host s p) absent logs)
]
