-- ===== src/Arch/Boot/Tables.antt =====
-- The tables of the Linux boot in src/arch/x86_64/init.rs, as the guest finds them.
use kvm_rust.Vm.Host.{Host}
use kvm_rust.Memory.{Memory, MemRegion, Ptr, read_guest_ptr, write_guest_ptr, load_data_to_memory}
use kvm_rust.Util.Elf.{load}
use kvm_rust.Arch.Boot.{
  HvmMemmapEntry, HvmModlistEntry, concat_map, memmap_bytes, modlist_bytes, start_info_bytes,
  start_info, cmdline_start, memmap_start, modlist_start, hvm_base, page_up,
}
use kvm_rust.Base.{List, arith, get_elem?, length, ok, refl, some, ℕ, ◌+◌, ◌<◌, ◌^◌, ◌≡◌, ◌≤◌}

abbrev pub at : ℕ → ℕ → Ptr
at idx offset = record { region = idx; off = offset }

length-start_info :
    (cmdline : List ℕ) (es : List HvmMemmapEntry) (ms : List HvmModlistEntry)
    → length (start_info_bytes (start_info cmdline es ms)) ≡ 56
length-start_info cmdline es ms = refl

-- The tables are in order and apart.
order :
    (c m : ℕ)
    → (hvm_base + 56 ≤ cmdline_start)
      × (cmdline_start + c ≤ page_up (cmdline_start + c))
      × (m ≤ page_up m)
order c m = (omega arith, omega arith, omega arith)

-- What the guest reads at the addresses that the tables are to be at.
abbrev pub IsLoaded : ℕ → List ℕ → List HvmMemmapEntry → List HvmModlistEntry → Memory → Type 0
IsLoaded idx cmdline es ms mem =
    (read_guest_ptr mem (at idx cmdline_start) (length cmdline) ≡ cmdline)
    × (read_guest_ptr mem (at idx (memmap_start cmdline)) (length (concat_map memmap_bytes es))
        ≡ concat_map memmap_bytes es)
    × (read_guest_ptr mem (at idx (modlist_start cmdline es)) (length (concat_map modlist_bytes ms))
        ≡ concat_map modlist_bytes ms)
    × (read_guest_ptr mem (at idx hvm_base) 56 ≡ start_info_bytes (start_info cmdline es ms))

pub load_fits :
    (idx : ℕ) (bytes : List ℕ) (offset : ℕ) (r : MemRegion) (mem : Memory) (h : Host)
    → get_elem? mem.regions idx ≡ some r
    → r.mem_size < 2 ^ 63
    → offset < r.mem_size
    → offset + length bytes ≤ r.mem_size
    → load idx bytes offset mem h ≡ (write_guest_ptr mem (at idx offset) bytes, h, ok tt)
unfolding load load_data_to_memory
load_fits idx bytes offset r mem h there small inside fits = ground arith
