-- ===== src/Memory.antt =====
-- Guest memory of src/main.rs: GuestMemory, gpa_to_host, read_guest_ptr, write_guest_ptr and
-- load_data_to_memory.
pub mod Access
pub mod Lookup
pub mod Load
mod Tests
use kvm_rust.Base.{
  List, Option, Outcome, [], err, get_elem?, get_or, if◌then◌else◌, leb, length, ltb, none, ok,
  other_error, panic, some, suc, zero, ℕ, ◌&&◌, ◌+◌, ◌-◌, ◌==◌, ◌^◌, ◌∷◌,
}

-- A region without its contents and its KVM slot.
pub record MemRegion : Type 0 where
  pub guest_phys_addr : ℕ
  pub mem_size : ℕ

-- The regions in order, and the host memory behind them: `ram r o` is byte `o` of region `r`.
pub record Memory : Type 0 where
  pub regions : List MemRegion
  pub ram : ℕ → ℕ → ℕ

-- A host pointer into a region.
pub record Ptr : Type 0 where
  pub region : ℕ
  pub off : ℕ

-- `ptr.add(n)`
abbrev pub ptr_add : Ptr → ℕ → Ptr
ptr_add p n = record p { off = p.off + n }

-- The closure of gpa_to_host at one region: the offset, if the range lies in the region.
unfoldable pub offset_in : MemRegion → ℕ → ℕ → Option ℕ
offset_in r gpa len =
    if ltb gpa r.guest_phys_addr
    then none
    else if leb (2 ^ 64) (gpa - r.guest_phys_addr + len)
    then none
    else if leb (gpa - r.guest_phys_addr + len) r.mem_size
    then some (gpa - r.guest_phys_addr)
    else none

-- `find_map` from region number `i` on.
unfoldable pub find_region : ℕ → List MemRegion → ℕ → ℕ → Option Ptr
find_region i [] gpa len = none
find_region i (r ∷ rs) gpa len =
    let rest = find_region (suc i) rs gpa len in
    elim (offset_in r gpa len) [ some o ↦ some (record { region = i; off = o }) | none ↦ rest ]

unfoldable pub gpa_to_host : Memory → ℕ → ℕ → Option Ptr
gpa_to_host mem gpa len = find_region 0 mem.regions gpa len

-- The `n` bytes at a pointer.
abbrev pub bytes_from : (ℕ → ℕ) → ℕ → ℕ → List ℕ
bytes_from f o zero = []
bytes_from f o (suc n) = f o ∷ bytes_from f (suc o) n

-- The bytes that read_guest_ptr makes a `T` of, where `T` has `n` bytes.
unfoldable pub read_guest_ptr : Memory → Ptr → ℕ → List ℕ
read_guest_ptr mem p n = bytes_from (mem.ram p.region) p.off n

-- write_guest_ptr of a value with these bytes.
unfoldable pub write_guest_ptr : Memory → Ptr → List ℕ → Memory
write_guest_ptr mem p bytes = record mem {
  ram = λ r o.
      if r == p.region && (leb p.off o && ltb o (p.off + length bytes))
      then get_or bytes (o - p.off) 0
      else mem.ram r o;
}

-- Copies `data` to an offset of a region, and returns the number of bytes.
unfoldable pub load_data_to_memory : Memory → ℕ → List ℕ → ℕ → Memory × Outcome ℕ
load_data_to_memory mem idx bytes offset = elim (get_elem? mem.regions idx) [
  | none ↦ (mem, err other_error)
  | some r ↦
      if leb r.mem_size offset
      then (mem, err other_error)
      else if leb (2 ^ 64) (offset + length bytes)
      then (mem, panic)
      else if ltb r.mem_size (offset + length bytes)
      then (mem, err other_error)
      else (write_guest_ptr mem (record { region = idx; off = offset }) bytes, ok (length bytes))
]
