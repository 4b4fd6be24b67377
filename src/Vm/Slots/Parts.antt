-- ===== src/Vm/Slots/Parts.antt =====
-- The loop of log_dirty_pages in src/main.rs that adds the slots.
use kvm_rust.Vm.Host.{Host, >>=-returns, ◌>>◌}
use kvm_rust.Vm.Slots.{Accepts, Machine, Part, slot_for, set_user_memory_region, add_parts}
use kvm_rust.Vm.Slots.Table.{places, Place, AllBelow, Owns}
use kvm_rust.Vm.Slots.PartSlots.{
  part_slot, add_places, IsFree, Logs, IsPart, set_region_ok, Adds, Gets, slot_for-Gets,
  put_slot_new, Logs-new,
}
use kvm_rust.Base.{
  All, Bool-cases, List, Option, [], ap, arith, false, if◌then◌else◌, inl, inr, none, ok,
  ok-injective, refl, some, subst, sym, true, ℕ, ◌+◌, ◌-◌, ◌/=◌, ◌==◌, ◌∙◌, ◌∷◌, ◌≡◌,
}

-- An empty part adds nothing.
add_places_empty :
    (base host : ℕ) (p : Part) (ps : List Part) (a : ℕ) (found : List Place)
    → (p.from == p.to) ≡ true
    → add_places base host ps a found ≡ add_places base host (p ∷ ps) a found
add_places_empty base host p ps a found empty = ap (add_places base host ps a) (ground arith)

after_part :
    (base host : ℕ) (logged p : Part) (ps : List Part) (s : ℕ) (vm vm1 vm' : Machine)
    (found : Option ℕ)
    → Gets vm vm1 s
    → Adds base host logged ps
        (record vm1 { table = part_slot base host s p ∷ vm1.table })
        vm'
        found
    → Adds base host logged (p ∷ ps) vm vm' found
after_part base host logged p ps s vm vm1 vm' found gets adds = record {
  added = λ a.
      adds.added a
      ∙ ap (λ t. add_places base host ps a (places (part_slot base host s p ∷ t) a)) gets.0;
  below = adds.below;
  logs = adds.logs;
  kept = adds.kept ∙ gets.1;
}

Logs-same :
    (base host : ℕ) (logged : Part) (found : Option ℕ) (vm vm1 : Machine)
    → vm1.table ≡ vm.table
    → Logs base host logged found vm
    → Logs base host logged found vm1
Logs-same base host logged none vm vm1 same logs = tt
Logs-same base host logged (some n) vm vm1 same logs =
    subst (λ t. Owns t (part_slot base host n logged)) (sym same) logs

-- A part that takes a number and is accepted.
part_steps :
    (kvm : Accepts) (base host : ℕ) (logged p : Part) (free found : Option ℕ) (s : ℕ)
    (vm vm1 vm2 : Machine) (h h1 h2 : Host)
    → IsPart logged p
    → (p.from == p.to) ≡ false
    → AllBelow vm.next_slot vm.table
    → IsFree free vm
    → Logs base host logged found vm
    → slot_for free vm h ≡ (vm1, h1, ok s)
    → set_user_memory_region kvm s p.flags p.from (p.to - p.from) (host + (p.from - base)) vm1 h1
      ≡ (vm2, h2, ok tt)
    → let grown : Machine = record vm1 { table = part_slot base host s p ∷ vm1.table } in
      Gets vm vm1 s
      × (vm2 ≡ grown)
      × Logs base host logged (if p.flags /= 0 then some s else found) grown
part_steps kvm base host logged p free found s vm vm1 vm2 h h1 h2 part wide below is_free logs got
      put =
    let (same, kept, fresh, below1, absent) = slot_for-Gets free vm vm1 h h1 s below is_free got in
    (
      (same, kept, fresh, below1, absent),
      set_region_ok kvm (part_slot base host s p) vm1 vm2 h1 h2 put
          ∙ ap (λ t. record vm1 { table = t })
              (put_slot_new base host s p vm1.table part.0 (λ x. ground arith) absent),
      Logs-new base host logged p found s vm1 part absent
          (Logs-same base host logged found vm vm1 same logs),
    )

pub add_parts-Adds :
    (kvm : Accepts) (base host : ℕ) (logged : Part) (free found : Option ℕ) (ps : List Part)
    (vm vm' : Machine) (h h' : Host) (found' : Option ℕ)
    → All (IsPart logged) ps
    → AllBelow vm.next_slot vm.table
    → IsFree free vm
    → Logs base host logged found vm
    → add_parts kvm base host free found ps vm h ≡ (vm', h', ok found')
    → Adds base host logged ps vm vm' found'
unfolding add_parts
add_parts-Adds kvm base host logged free found [] vm vm' h h' found' parts below is_free logs e =
    subst (λ x. Adds base host logged [] vm x.0 found') e
      (subst (Adds base host logged [] vm vm) (ok-injective (ap (λ x. x.2) e))
        record { added = λ a. refl; below = below; logs = logs; kept = refl })
add_parts-Adds kvm base host logged free found (p ∷ ps) vm vm' h h' found' parts below is_free logs
      e =
    elim (Bool-cases (p.from == p.to)) [
      | inl empty ↦
          let rest =
            add_parts-Adds kvm base host logged free found ps vm vm' h h' found' parts.1 below
              is_free logs (rw empty at e) in
          record {
            added = λ a. rest.added a ∙ add_places_empty base host p ps a (places vm.table a) empty;
            below = rest.below;
            logs = rest.logs;
            kept = rest.kept;
          }
      | inr wide ↦
          let (vm1, h1, s, got, rest) =
            >>=-returns (slot_for free)
              (λ slot.
                set_user_memory_region kvm slot p.flags p.from (p.to - p.from)
                  (host + (p.from - base))
                >> add_parts kvm base host none (if p.flags /= 0 then some slot else found) ps)
              vm h (rw wide at e) in
          let (vm2, h2, done, put, last) =
            >>=-returns
              (set_user_memory_region kvm s p.flags p.from (p.to - p.from) (host + (p.from - base)))
              (λ done. add_parts kvm base host none (if p.flags /= 0 then some s else found) ps) vm1
              h1 rest in
          let (gets, grown, logs1) =
            part_steps kvm base host logged p free found s vm vm1 vm2 h h1 h2 parts.0 wide below
              is_free logs got put in
          after_part base host logged p ps s vm vm1 vm' found' gets (
            add_parts-Adds kvm base host logged none (if p.flags /= 0 then some s else found) ps
              (record vm1 { table = part_slot base host s p ∷ vm1.table }) vm' h2 h' found' parts.1
              (gets.2, gets.3) tt logs1
              (subst
                (λ w.
                  add_parts kvm base host none (if p.flags /= 0 then some s else found) ps w h2
                  ≡ (vm', h', ok found'))
                grown last))
    ]
