-- ===== src/Util/Elf.antt =====
-- load_elf of src/util/elf.rs, and load_data_to_memory as a step of the boot.
use kvm_rust.Vm.Host.{Method, pure, lift, ◌>>=◌, ◌>>◌}
use kvm_rust.Memory.{Memory, load_data_to_memory}
use kvm_rust.Util.Binary.{slice}
use kvm_rust.Base.{
  Bool, List, [], err, if◌then◌else◌, leb, max, not, ok, panic, ℕ, ◌+◌, ◌^◌, ◌||◌, ◌∷◌,
}

-- What the ELF reader gives of a program header.
pub record ProgramHeader : Type 0 where
  pub is_load : Bool
  pub p_offset : ℕ
  pub p_filesz : ℕ
  pub p_paddr : ℕ
  pub p_memsz : ℕ

-- load_data_to_memory on the guest's memory.
unfoldable pub load : ℕ → List ℕ → ℕ → Method Memory (Unit {0})
load idx bytes offset mem h =
    let (mem', r) = load_data_to_memory mem idx bytes offset in
    elim r [ ok n ↦ (mem', h, ok tt) | err e ↦ (mem', h, err e) | panic ↦ (mem', h, panic) ]

-- The loop of load_elf; `last_addr` is the end of the segments so far.
unfoldable pub load_segments : ℕ → List ℕ → List ProgramHeader → ℕ → Method Memory ℕ
unfolding load
load_segments idx elf_data [] last_addr = pure last_addr
load_segments idx elf_data (ph ∷ phs) last_addr =
    if not ph.is_load
    then load_segments idx elf_data phs last_addr
    else if leb (2 ^ 64) (ph.p_offset + ph.p_filesz) || leb (2 ^ 64) (ph.p_paddr + ph.p_memsz)
    then lift panic
    else (lift (slice elf_data ph.p_offset (ph.p_offset + ph.p_filesz)) >>= λ bytes.
        load idx bytes ph.p_paddr
        >> load_segments idx elf_data phs (max last_addr (ph.p_paddr + ph.p_memsz)))

unfoldable pub load_elf : ℕ → List ℕ → List ProgramHeader → Method Memory ℕ
unfolding load_segments
load_elf idx elf_data phs = load_segments idx elf_data phs 0
