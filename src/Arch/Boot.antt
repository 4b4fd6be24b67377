-- ===== src/Arch/Boot.antt =====
-- The Linux boot of src/arch/x86_64/init.rs: the image, the tables of the PVH protocol and the RAM
-- map.
pub mod Tables
pub mod Ram
mod Tests
use kvm_rust.Vm.Host.{Method, pure, lift, ◌>>=◌, ◌>>◌}
use kvm_rust.Vm.Slots.{Accepts, Machine, add_mem_region}
use kvm_rust.Memory.{Memory, load_data_to_memory}
use kvm_rust.Util.Binary.{read_le32, read_le64, to_le_bytes}
use kvm_rust.Util.Elf.{ProgramHeader, load, load_elf}
use kvm_rust.Base.{
  List, Option, Outcome, [], err, if◌then◌else◌, leb, length, ltb, min, none, ok, other_error,
  panic, some, ℕ, ◌*◌, ◌++◌, ◌+◌, ◌-◌, ◌/◌, ◌==◌, ◌^◌, ◌∷◌,
}

-- `(n + 0xfff) & !0xfff`
abbrev pub page_up : ℕ → ℕ
page_up n = (n + 0xfff) / 0x1000 * 0x1000

-- What the ELF reader gives of a note.
pub record Note : Type 0 where
  pub n_type : ℕ
  pub desc : List ℕ

-- The first note of type 18 is the entry point, of 4 or 8 bytes.
unfoldable pub try_pvh_entrypoint : List Note → Outcome ℕ
try_pvh_entrypoint [] = err other_error
try_pvh_entrypoint (n ∷ ns) =
    let rest = try_pvh_entrypoint ns in
    if n.n_type == 18
    then (if length n.desc == 4
        then read_le32 n.desc 0
        else if length n.desc == 8
        then read_le64 n.desc 0
        else err other_error)
    else rest

abbrev pub ebda_start : ℕ
ebda_start = 0x9_fc00

abbrev pub himem_start : ℕ
himem_start = 0x10_0000

abbrev pub mmio_start : ℕ
mmio_start = 0xc000_0000

abbrev pub high_ram_start : ℕ
high_ram_start = 0x1_0000_0000

-- The RAM: up to the MMIO hole, and the rest from 4 GiB on. `low` and `high` are what mmap returns.
unfoldable pub add_ram : Accepts → Option ℕ → Option ℕ → ℕ → Method Machine ℕ
unfolding add_mem_region
add_ram kvm low high ram_size = add_mem_region kvm low (min ram_size mmio_start) 0 >>= λ idx.
    if ltb mmio_start ram_size
    then (add_mem_region kvm high (ram_size - mmio_start) high_ram_start >>= λ second. pure idx)
    else pure idx

pub record HvmMemmapEntry : Type 0 where
  pub addr : ℕ
  pub size : ℕ
  pub kind : ℕ
  pub reserved : ℕ

pub record HvmModlistEntry : Type 0 where
  pub paddr : ℕ
  pub size : ℕ
  pub cmdline_paddr : ℕ
  pub reserved : ℕ

pub record HvmStartInfo : Type 0 where
  pub magic : ℕ
  pub version : ℕ
  pub flags : ℕ
  pub nr_modules : ℕ
  pub modlist_paddr : ℕ
  pub cmdline_paddr : ℕ
  pub rsdp_paddr : ℕ
  pub memmap_paddr : ℕ
  pub memmap_entries : ℕ
  pub reserved : ℕ

-- The fields in memory order, little endian.
abbrev pub memmap_bytes : HvmMemmapEntry → List ℕ
memmap_bytes e =
    to_le_bytes 8 e.addr ++ to_le_bytes 8 e.size ++ to_le_bytes 4 e.kind ++ to_le_bytes 4 e.reserved

abbrev pub modlist_bytes : HvmModlistEntry → List ℕ
modlist_bytes e =
    to_le_bytes 8 e.paddr
    ++ to_le_bytes 8 e.size
    ++ to_le_bytes 8 e.cmdline_paddr
    ++ to_le_bytes 8 e.reserved

abbrev pub start_info_bytes : HvmStartInfo → List ℕ
start_info_bytes s =
    to_le_bytes 4 s.magic
    ++ to_le_bytes 4 s.version
    ++ to_le_bytes 4 s.flags
    ++ to_le_bytes 4 s.nr_modules
    ++ to_le_bytes 8 s.modlist_paddr
    ++ to_le_bytes 8 s.cmdline_paddr
    ++ to_le_bytes 8 s.rsdp_paddr
    ++ to_le_bytes 8 s.memmap_paddr
    ++ to_le_bytes 4 s.memmap_entries
    ++ to_le_bytes 4 s.reserved

abbrev pub concat_map : {A : Type 0} → (A → List ℕ) → List A → List ℕ
concat_map f [] = []
concat_map f (a ∷ rest) = f a ++ concat_map f rest

abbrev pub entry : ℕ → ℕ → ℕ → HvmMemmapEntry
entry addr size kind = record { addr = addr; size = size; kind = kind; reserved = 0 }

-- The RAM map. The subtraction panics below 1 MiB of RAM.
unfoldable pub memmap : ℕ → Outcome (List HvmMemmapEntry)
memmap ram_size =
    if ltb (min ram_size mmio_start) himem_start
    then panic
    else ok (
        entry 0 ebda_start 1
        ∷ entry ebda_start (himem_start - ebda_start) 2
        ∷ entry himem_start (min ram_size mmio_start - himem_start) 1
        ∷ (if ltb mmio_start ram_size
            then entry high_ram_start (ram_size - mmio_start) 1 ∷ []
            else []))

abbrev pub hvm_base : ℕ
hvm_base = 0x1_0000

-- The command line: the console, the root file system and the virtio devices.
abbrev pub default_cmdline : List ℕ
default_cmdline =
    99 ∷ 111 ∷ 110 ∷ 115 ∷ 111 ∷ 108 ∷ 101 ∷ 61 ∷ 116 ∷ 116 ∷ 121 ∷ 83 ∷ 48 ∷ 44 ∷ 49 ∷ 49 ∷ 53 ∷ 50
    ∷ 48 ∷ 48 ∷ 32 ∷ 114 ∷ 111 ∷ 111 ∷ 116 ∷ 61 ∷ 47 ∷ 100 ∷ 101 ∷ 118 ∷ 47 ∷ 118 ∷ 100 ∷ 97 ∷ 32
    ∷ 118 ∷ 105 ∷ 114 ∷ 116 ∷ 105 ∷ 111 ∷ 95 ∷ 109 ∷ 109 ∷ 105 ∷ 111 ∷ 46 ∷ 100 ∷ 101 ∷ 118 ∷ 105
    ∷ 99 ∷ 101 ∷ 61 ∷ 52 ∷ 75 ∷ 64 ∷ 48 ∷ 120 ∷ 100 ∷ 48 ∷ 48 ∷ 48 ∷ 48 ∷ 48 ∷ 48 ∷ 48 ∷ 58 ∷ 53
    ∷ 32 ∷ 118 ∷ 105 ∷ 114 ∷ 116 ∷ 105 ∷ 111 ∷ 95 ∷ 109 ∷ 109 ∷ 105 ∷ 111 ∷ 46 ∷ 100 ∷ 101 ∷ 118
    ∷ 105 ∷ 99 ∷ 101 ∷ 61 ∷ 52 ∷ 75 ∷ 64 ∷ 48 ∷ 120 ∷ 100 ∷ 48 ∷ 48 ∷ 49 ∷ 48 ∷ 48 ∷ 48 ∷ 48 ∷ 58
    ∷ 54 ∷ []

abbrev pub full_cmdline : Option (List ℕ) → List ℕ
full_cmdline none = default_cmdline
full_cmdline (some append) = default_cmdline ++ 32 ∷ append

-- An initramfs: its file name, and its contents, or none if it cannot be read.
pub record Initramfs : Type 0 where
  pub name : List ℕ
  pub contents : Option (List ℕ)

-- `load_file_to_memory(..).unwrap()`, and the file's size.
unfoldable pub load_file : ℕ → Option (List ℕ) → ℕ → Method Memory ℕ
load_file idx none offset mem h = (mem, h, panic)
load_file idx (some contents) offset mem h =
    let (mem', r) = load_data_to_memory mem idx contents offset in
    elim r [ ok n ↦ (mem', h, ok n) | err e ↦ (mem', h, panic) | panic ↦ (mem', h, panic) ]

-- The module list: the initramfs behind the image, and its command line before it.
unfoldable pub load_initramfs : ℕ → ℕ → Option Initramfs → Method Memory (List HvmModlistEntry)
unfolding load load_file
load_initramfs idx last_addr none = pure []
load_initramfs idx last_addr (some initramfs) =
    let cmdline = initramfs.name ++ 0 ∷ [] in
    let cmdline_start = page_up last_addr in
    let start = page_up (length cmdline + cmdline_start) in
    if leb (2 ^ 64) (last_addr + 0xfff)
    then lift panic
    else (load idx cmdline cmdline_start >> load_file idx initramfs.contents start >>= λ size.
        pure
          (record { paddr = start; size = size; cmdline_paddr = cmdline_start; reserved = 0 } ∷ []))

-- Where the tables go.
abbrev pub cmdline_start : ℕ
cmdline_start = page_up (hvm_base + 56)

abbrev pub memmap_start : List ℕ → ℕ
memmap_start cmdline = page_up (cmdline_start + length cmdline)

abbrev pub modlist_start : List ℕ → List HvmMemmapEntry → ℕ
modlist_start cmdline entries = page_up (memmap_start cmdline + length entries * 24)

-- `xEn3` with bit 7 of its second byte.
abbrev pub hvm_magic : ℕ
hvm_magic = 0x336e_c578

abbrev pub start_info : List ℕ → List HvmMemmapEntry → List HvmModlistEntry → HvmStartInfo
start_info cmdline entries modules = record {
  magic = hvm_magic;
  version = 1;
  flags = 0;
  nr_modules = length modules;
  modlist_paddr = modlist_start cmdline entries;
  cmdline_paddr = cmdline_start;
  rsdp_paddr = 0;
  memmap_paddr = memmap_start cmdline;
  memmap_entries = length entries;
  reserved = 0;
}

unfoldable pub load_tables :
    ℕ → List ℕ → List HvmMemmapEntry → List HvmModlistEntry → Method Memory (Unit {0})
unfolding load
load_tables idx cmdline entries modules =
    load idx cmdline cmdline_start
    >> load idx (concat_map memmap_bytes entries) (memmap_start cmdline)
    >> load idx (concat_map modlist_bytes modules) (modlist_start cmdline entries)
    >> load idx (start_info_bytes (start_info cmdline entries modules)) hvm_base

-- linux_pvh_boot, from load_elf on: the image, the initramfs and the tables.
unfoldable pub load_guest :
    ℕ
    → List ℕ
    → List ProgramHeader
    → Option (List ℕ)
    → Option Initramfs
    → ℕ
    → Method Memory (Unit {0})
unfolding load_elf load_initramfs memmap load_tables
load_guest idx elf_data phs append initramfs ram_size = load_elf idx elf_data phs >>= λ last_addr.
    load_initramfs idx last_addr initramfs >>= λ modules.
    lift (memmap ram_size) >>= λ entries. load_tables idx (full_cmdline append) entries modules
