-- ===== src/Arch/Boot/Tests.antt =====
-- Runs of the Linux boot in src/arch/x86_64/init.rs.
use kvm_rust.Vm.Control
use kvm_rust.Vm.Host.{Host}
use kvm_rust.Vm.Slots.{Machine, add_mem_region, set_user_memory_region, take_next_slot}
use kvm_rust.Vm.Slots.Adding.{new_region, grown}
use kvm_rust.Memory.{Memory, MemRegion, load_data_to_memory}
use kvm_rust.Util.Binary.{read_le32}
use kvm_rust.Util.Elf.{ProgramHeader, load, load_segments, load_elf}
use kvm_rust.Arch.Boot.{try_pvh_entrypoint, HvmMemmapEntry, HvmModlistEntry, memmap, add_ram, entry}
use kvm_rust.Arch.Boot.Ram.{usable, backed, memmap-backed}
use kvm_rust.Base.{
  Bool, List, [], err, false, not, ok, other_error, panic, refl, true, within, ℕ, ◌&&◌, ◌∷◌, ◌≡◌,
}

abbrev host : Host
host = record { lines = []; control = Control.new; signals = []; stdout = [] }

-- The first note of type 18 counts.
entry_point :
    (try_pvh_entrypoint (
        record { n_type = 1; desc = 9 ∷ [] }
        ∷ record { n_type = 18; desc = 0 ∷ 0 ∷ 0 ∷ 1 ∷ [] }
        ∷ [])
      ≡ ok 0x100_0000)
    × (try_pvh_entrypoint (record { n_type = 18; desc = 0 ∷ [] } ∷ []) ≡ err other_error)
    × (try_pvh_entrypoint [] ≡ err other_error)
unfolding try_pvh_entrypoint read_le32
entry_point = (refl, refl, refl)

abbrev region : MemRegion
region = record { guest_phys_addr = 0; mem_size = 0x2_0000 }

abbrev mem : Memory
mem = record { regions = region ∷ []; ram = λ r o. 0 }

abbrev header : Bool → ℕ → ℕ → ProgramHeader
header is_load p_filesz p_memsz = record {
  is_load = is_load;
  p_offset = 1;
  p_filesz = p_filesz;
  p_paddr = 0x1000;
  p_memsz = p_memsz;
}

-- The end of the segments counts memory, not file bytes; a segment outside the file panics.
segments :
    ((load_elf 0 (7 ∷ 8 ∷ 9 ∷ []) (header false 5 5 ∷ header true 2 0x50 ∷ []) mem host).2
      ≡ ok 0x1050)
    × ((load_elf 0 (7 ∷ 8 ∷ 9 ∷ []) (header true 3 3 ∷ []) mem host).2 ≡ panic)
unfolding load_elf load_segments load load_data_to_memory
segments = (refl, refl)

abbrev entries : List HvmMemmapEntry
entries = entry 0 0x9_fc00 1 ∷ entry 0x9_fc00 0x6_0400 2 ∷ []

abbrev boot_module : HvmModlistEntry
boot_module = record { paddr = 0x1_8000; size = 5; cmdline_paddr = 0x1_7000; reserved = 0 }

abbrev empty : Machine
empty = record { next_slot = 0; guest_memory = []; table = [] }

-- 4 GiB of RAM: 3 GiB below the hole, and 1 GiB from 4 GiB on.
abbrev four_gib : Machine
four_gib =
    grown (new_region 0x2_0000_0000 0x4000_0000 0x1_0000_0000 1) 1
      (grown (new_region 0x1_0000_0000 0xc000_0000 0 0) 0 empty)

abbrev four_gib_map : List HvmMemmapEntry
four_gib_map =
    entry 0 0x9_fc00 1
    ∷ entry 0x9_fc00 0x6_0400 2
    ∷ entry 0x10_0000 0xbff0_0000 1
    ∷ entry 0x1_0000_0000 0x4000_0000 1
    ∷ []

memmap-backed_example :
    usable four_gib_map 0x1_0000_0000
    ≡ backed four_gib.guest_memory 0x1_0000_0000 && not (within 0x9_fc00 0xf_ffff 0x1_0000_0000)
unfolding add_ram add_mem_region take_next_slot set_user_memory_region memmap
memmap-backed_example =
    memmap-backed (λ table r. true) 0x1_0000_0000 0x2_0000_0000 0x1_0000_0000 0 0x1_0000_0000
      four_gib_map empty four_gib host host refl refl refl
