-- ===== src/Memory/Load.antt =====
-- load_data_to_memory of src/main.rs, on all its branches.
use kvm_rust.Base.{
  All, All-get_elem?, Bool, List, Option-cases, arith, err, false, get_elem?, inl, inr, leb, length,
  ltb, none, ok, other_error, refl, some, true, ℕ, ◌&&◌, ◌+◌, ◌<◌, ◌^◌, ◌≡◌,
}
use kvm_rust.Memory.{Memory, Ptr, read_guest_ptr, write_guest_ptr, load_data_to_memory}
use kvm_rust.Memory.Access.{read-write, read-write_ne, Disjoint}

-- Whether the copy fits the region; the offset itself must lie inside, also for no data.
abbrev pub fits : Memory → ℕ → ℕ → ℕ → Bool
fits mem idx len offset = elim (get_elem? mem.regions idx) [
  | none ↦ false
  | some r ↦ ltb offset r.mem_size && leb (offset + len) r.mem_size
]

load_fits :
    (mem : Memory) (idx : ℕ) (bytes : List ℕ) (offset : ℕ)
    → All (λ r. r.mem_size < 2 ^ 63) mem.regions
    → fits mem idx (length bytes) offset ≡ true
    → load_data_to_memory mem idx bytes offset
      ≡ (write_guest_ptr mem (record { region = idx; off = offset }) bytes, ok (length bytes))
unfolding load_data_to_memory
load_fits mem idx bytes offset s f = elim (Option-cases (get_elem? mem.regions idx)) [
  | inl missing ↦ ground arith
  | inr (r, there) ↦
      let sized : r.mem_size < 2 ^ 63 =
        All-get_elem? (λ r. r.mem_size < 2 ^ 63) mem.regions idx s there in
      ground arith
]

load_refused :
    (mem : Memory) (idx : ℕ) (bytes : List ℕ) (offset : ℕ)
    → All (λ r. r.mem_size < 2 ^ 63) mem.regions
    → length bytes < 2 ^ 63
    → fits mem idx (length bytes) offset ≡ false
    → load_data_to_memory mem idx bytes offset ≡ (mem, err other_error)
unfolding load_data_to_memory
load_refused mem idx bytes offset s l f = elim (Option-cases (get_elem? mem.regions idx)) [
  | inl missing ↦ ground arith
  | inr (r, there) ↦
      let sized : r.mem_size < 2 ^ 63 =
        All-get_elem? (λ r. r.mem_size < 2 ^ 63) mem.regions idx s there in
      ground arith
]

-- A load that fits its region puts the data at the offset, returns its length and changes no other
-- byte; any other fails and changes nothing. Sizes below 2^63 keep the sum from overflowing.
pub load_data_to_memory_lem :
    (mem : Memory) (idx : ℕ) (bytes : List ℕ) (offset : ℕ)
    → All (λ r. r.mem_size < 2 ^ 63) mem.regions
    → length bytes < 2 ^ 63
    → let (mem', r) = load_data_to_memory mem idx bytes offset in
      let p : Ptr = record { region = idx; off = offset } in
      (fits mem idx (length bytes) offset ≡ true
        → (r ≡ ok (length bytes))
          × (read_guest_ptr mem' p (length bytes) ≡ bytes)
          × ((q : Ptr) (m : ℕ)
              → Disjoint p (length bytes) q m
              → read_guest_ptr mem' q m ≡ read_guest_ptr mem q m))
      × (fits mem idx (length bytes) offset ≡ false → (r ≡ err other_error) × (mem' ≡ mem))
load_data_to_memory_lem mem idx bytes offset s l = (
  λ f.
      let p : Ptr = record { region = idx; off = offset } in
      rw (load_fits mem idx bytes offset s f)
        (refl, read-write mem p bytes, λ q m d. read-write_ne mem p q bytes m d),
  λ f. rw (load_refused mem idx bytes offset s l f) (refl, refl),
)
