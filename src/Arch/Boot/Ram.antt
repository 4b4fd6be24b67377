-- ===== src/Arch/Boot/Ram.antt =====
-- The RAM map of src/arch/x86_64/init.rs, against the memory that the guest gets.
use kvm_rust.Vm.Host.{Host, pure, >>=-returns, ◌>>=◌}
use kvm_rust.Vm.Slots.{Accepts, Machine, MappedRegion, add_mem_region}
use kvm_rust.Vm.Slots.Adding.{add_mem_region_ok, new_region}
use kvm_rust.Arch.Boot.{
  HvmMemmapEntry, memmap, add_ram, ebda_start, himem_start, mmio_start, high_ram_start,
}
use kvm_rust.Base.{
  Bool, Bool-cases, List, Outcome, [], ap, arith, false, if◌then◌else◌, inl, inr, leb, length, ltb,
  min, not, ok, ok-injective, some, sym, within, ℕ, ◌&&◌, ◌++◌, ◌+◌, ◌-◌, ◌==◌, ◌||◌, ◌∙◌, ◌∷◌, ◌≡◌,
}

-- Whether an entry of usable RAM has the address.
abbrev pub usable : List HvmMemmapEntry → ℕ → Bool
usable [] a = false
usable (e ∷ es) a = e.kind == 1 && (leb e.addr a && ltb a (e.addr + e.size)) || usable es a

-- Whether a region of memory has it.
abbrev pub backed : List MappedRegion → ℕ → Bool
backed [] a = false
backed (r ∷ rs) a = leb r.guest_phys_addr a && ltb a (r.guest_phys_addr + r.mem_size) || backed rs a

-- The regions of so much RAM.
abbrev pub ram_regions : ℕ → ℕ → ℕ → ℕ → ℕ → List MappedRegion
ram_regions low high ram_size s t =
    new_region low (min ram_size mmio_start) 0 s
    ∷ (if ltb mmio_start ram_size
        then new_region high (ram_size - mmio_start) high_ram_start t ∷ []
        else [])

usable-backed :
    (low high ram_size s t a : ℕ) (es : List HvmMemmapEntry)
    → memmap ram_size ≡ ok es
    → usable es a
      ≡ backed (ram_regions low high ram_size s t) a && not (within ebda_start (himem_start - 1) a)
unfolding memmap
usable-backed low high ram_size s t a es e = ground arith

add_ram-regions :
    (kvm : Accepts) (low high ram_size idx : ℕ) (vm vm' : Machine) (h h' : Host)
    → vm.guest_memory ≡ []
    → add_ram kvm (some low) (some high) ram_size vm h ≡ (vm', h', ok idx)
    → (vm'.guest_memory ≡ ram_regions low high ram_size vm.next_slot (vm.next_slot + 1)) × (idx ≡ 0)
unfolding add_ram
add_ram-regions kvm low high ram_size idx vm vm' h h' fresh e =
    let (vm1, h1, first, added, rest) =
      >>=-returns (add_mem_region kvm (some low) (min ram_size mmio_start) 0)
        (λ first.
          if ltb mmio_start ram_size
          then (add_mem_region kvm (some high) (ram_size - mmio_start) high_ram_start >>= λ second.
              pure first)
          else pure first)
        vm h e in
    let (accepted, after, index) =
      add_mem_region_ok kvm low (min ram_size mmio_start) 0 first vm vm1 h h1 added in
    let r = new_region low (min ram_size mmio_start) 0 vm.next_slot in
    let one : vm1.guest_memory ≡ r ∷ [] =
      ap (λ w. w.guest_memory) after ∙ ap (λ m. m ++ r ∷ []) fresh in
    let zeroth : first ≡ 0 = index ∙ ap length fresh in
    elim (Bool-cases (ltb mmio_start ram_size)) [
      | inr all_low ↦
          let stays : (vm1, h1, ok first) ≡ (vm', h', ok idx) = rw all_low at rest in
          rw all_low (
            sym (ap (λ (x : Machine × Host × Outcome ℕ). x.0.guest_memory) stays) ∙ one,
            sym (ok-injective (ap (λ (x : Machine × Host × Outcome ℕ). x.2) stays)) ∙ zeroth,
          )
      | inl more ↦
          let (vm2, h2, second, added2, last) =
            >>=-returns (add_mem_region kvm (some high) (ram_size - mmio_start) high_ram_start)
              (λ second. pure first) vm1 h1 (rw more at rest) in
          let (accepted2, after2, index2) =
            add_mem_region_ok kvm high (ram_size - mmio_start) high_ram_start second vm1 vm2 h1 h2
              added2 in
          rw more (
            sym (ap (λ (x : Machine × Host × Outcome ℕ). x.0.guest_memory) last)
                ∙ ap (λ w. w.guest_memory) after2
                ∙ ap
                    (λ m.
                      m
                      ++ new_region high (ram_size - mmio_start) high_ram_start vm1.next_slot ∷ [])
                    one
                ∙ ap (λ n. r ∷ new_region high (ram_size - mmio_start) high_ram_start n ∷ [])
                    (ap (λ w. w.next_slot) after),
            sym (ok-injective (ap (λ (x : Machine × Host × Outcome ℕ). x.2) last)) ∙ zeroth,
          )
    ]

-- Once the RAM is added to a machine without memory, the RAM map that the guest gets calls an
-- address usable exactly if a region of memory has it and it is not between 0x9fc00 and 1 MiB.
pub memmap-backed :
    (kvm : Accepts) (low high ram_size idx a : ℕ) (es : List HvmMemmapEntry) (vm vm' : Machine)
    (h h' : Host)
    → vm.guest_memory ≡ []
    → add_ram kvm (some low) (some high) ram_size vm h ≡ (vm', h', ok idx)
    → memmap ram_size ≡ ok es
    → usable es a ≡ backed vm'.guest_memory a && not (within ebda_start (himem_start - 1) a)
memmap-backed kvm low high ram_size idx a es vm vm' h h' fresh added mapped =
    usable-backed low high ram_size vm.next_slot (vm.next_slot + 1) a es mapped
    ∙ ap (λ rs. backed rs a && not (within ebda_start (himem_start - 1) a))
        (sym (add_ram-regions kvm low high ram_size idx vm vm' h h' fresh added).0)
