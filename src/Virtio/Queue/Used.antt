-- ===== src/Virtio/Queue/Used.antt =====
-- src/virtio/queue.rs: push_used, against the used ring.
use native.Mathlib.Decide.{dec_lt}
use kvm_rust.Base.{
  List, arith, inl, inr, ok, refl, some, suc, u16, ℕ, ◌%◌, ◌*◌, ◌+◌, ◌<◌, ◌^◌, ◌∙◌, ◌≡◌, ◌≢◌, ◌≤◌,
  ◌⊎◌,
}
use kvm_rust.Util.Binary.{to_le_bytes}
use kvm_rust.Memory.{Memory, Ptr, ptr_add, gpa_to_host, read_guest_ptr, write_guest_ptr}
use kvm_rust.Memory.Access.{read-write_len, read-write_apart, Disjoint}
use kvm_rust.Virtio.Bindings.{Bindings, IsVring}
use kvm_rust.Virtio.Queue.{VringQueue, guest_ptr, push_used, used_written}

mul-step : (e i j : ℕ) → i < j → e * i + e ≤ e * j
mul-step e i j h = grind arith

module _ (b : Bindings) (v : IsVring b) (mem : Memory) (q : VringQueue) (p : Ptr) where
  abbrev pub ring_size : ℕ
  ring_size = b.vring_used_size + b.vring_used_elem_size * q.num

  -- The used index that the driver sees.
  abbrev pub used_index_in : Memory → ℕ
  used_index_in m = b.used_idx (read_guest_ptr m p b.vring_used_size)

  -- Entry number `i` of the ring.
  abbrev pub entry_in : Memory → ℕ → List ℕ
  entry_in m i =
      read_guest_ptr m (ptr_add p (4 + b.vring_used_elem_size * i)) b.vring_used_elem_size

  abbrev idx : ℕ
  idx = used_index_in mem

  abbrev slot : Ptr
  slot = ptr_add p (4 + b.vring_used_elem_size * (idx % q.num))

  abbrev filled : ℕ → ℕ → Memory
  filled head len = write_guest_ptr mem slot (b.used_elem head len)

  abbrev idx_bytes : List ℕ
  idx_bytes = to_le_bytes 2 (u16 (idx + 1))

  abbrev pub after : ℕ → ℕ → Memory
  after head len = write_guest_ptr (filled head len) (ptr_add p 2) idx_bytes

  mod_below : 0 < q.num → idx % q.num < q.num
  mod_below pos = grind arith

  -- Two entries of the ring do not overlap, and none overlaps the index.
  entries_apart :
      (i j : ℕ)
      → i ≢ j
      → (b.vring_used_elem_size * i + b.vring_used_elem_size ≤ b.vring_used_elem_size * j)
        ⊎ (b.vring_used_elem_size * j + b.vring_used_elem_size ≤ b.vring_used_elem_size * i)
  entries_apart i j ne = elim (dec_lt i j) [
    | yes h ↦ inl (mul-step b.vring_used_elem_size i j h)
    | no h ↦ inr (mul-step b.vring_used_elem_size j i (omega arith))
  ]

  entry_fits :
      (i : ℕ)
      → i < q.num
      → b.vring_used_elem_size * i + b.vring_used_elem_size ≤ b.vring_used_elem_size * q.num
  entry_fits i h = mul-step b.vring_used_elem_size i q.num h

  -- The header as four bytes.
  header :
      (m : Memory) → used_index_in m ≡ m.ram p.region (p.off + 2) + 256 * m.ram p.region (p.off + 3)
  unfolding read_guest_ptr
  header m =
      rw (v.used_header, v.used_index)
        (let e : suc (suc p.off) ≡ p.off + 2 = omega arith in
          let e' : suc (p.off + 2) ≡ p.off + 3 = omega arith in rw (e, e') refl)

  index_read : (head len : ℕ) → used_index_in (after head len) ≡ (idx + 1) % 2 ^ 16
  unfolding write_guest_ptr
  index_read head len = ground (arith, header (after head len))

  abbrev entry : ℕ → Ptr
  entry i = ptr_add p (4 + b.vring_used_elem_size * i)

  pub push_used-ok :
      (head len : ℕ)
      → gpa_to_host mem q.used ring_size ≡ some p
      → 0 < q.num
      → push_used b mem q head len ≡ ok (after head len)
  unfolding push_used guest_ptr used_written
  push_used-ok head len found pos = ground arith

  entry_after : (head len i : ℕ) → entry_in (after head len) i ≡ entry_in (filled head len) i
  entry_after head len i =
      read-write_apart (filled head len) (ptr_add p 2) (entry i) idx_bytes b.vring_used_elem_size 2
        refl (inr (inl (omega arith)))

  entry_filled : (head len : ℕ) → entry_in (after head len) (idx % q.num) ≡ b.used_elem head len
  entry_filled head len =
      entry_after head len (idx % q.num)
      ∙ read-write_len mem slot (b.used_elem head len) (v.elem_bytes head len)

  slot_apart :
      (i : ℕ)
      → i ≢ idx % q.num
      → Disjoint slot b.vring_used_elem_size (entry i) b.vring_used_elem_size
  slot_apart i ne = ground (arith, entries_apart i (idx % q.num) ne)

  index_outside : (r : Ptr) (m : ℕ) → Disjoint p ring_size r m → Disjoint (ptr_add p 2) 2 r m
  index_outside r m d = ground (arith, v.used_header)

  slot_outside :
      0 < q.num
      → (r : Ptr) (m : ℕ) → Disjoint p ring_size r m
      → Disjoint slot b.vring_used_elem_size r m
  slot_outside pos r m d = ground (arith, v.used_header, entry_fits (idx % q.num) (mod_below pos))

  pub after_outside :
      (head len : ℕ)
      → 0 < q.num
      → (r : Ptr) (m : ℕ) → Disjoint p ring_size r m
      → read_guest_ptr (after head len) r m ≡ read_guest_ptr mem r m
  after_outside head len pos r m d =
      read-write_apart (filled head len) (ptr_add p 2) r idx_bytes m 2 refl (index_outside r m d)
      ∙ read-write_apart mem slot r (b.used_elem head len) m _ (v.elem_bytes head len)
          (slot_outside pos r m d)

  -- With the ring in guest memory, push_used fills the entry that the index names, adds one to the
  -- index modulo 2^16, and leaves every other entry and all memory outside the ring as it was.
  pub push_used_lem :
      (head len : ℕ)
      → gpa_to_host mem q.used ring_size ≡ some p
      → 0 < q.num
      → (mem' : Memory) × (push_used b mem q head len ≡ ok mem')
        × (entry_in mem' (used_index_in mem % q.num) ≡ b.used_elem head len)
        × (used_index_in mem' ≡ (used_index_in mem + 1) % 2 ^ 16)
        × ((i : ℕ) → i < q.num → i ≢ used_index_in mem % q.num → entry_in mem' i ≡ entry_in mem i)
        × ((r : Ptr) (m : ℕ)
            → Disjoint p ring_size r m
            → read_guest_ptr mem' r m ≡ read_guest_ptr mem r m)
  push_used_lem head len found pos = (
    after head len,
    push_used-ok head len found pos,
    entry_filled head len,
    index_read head len,
    λ i h ne.
        entry_after head len i
        ∙ read-write_apart mem slot (entry i) (b.used_elem head len) _ _ (v.elem_bytes head len)
            (slot_apart i ne),
    after_outside head len pos,
  )
