-- ===== src/Virtio/Queue/Avail.antt =====
-- src/virtio/queue.rs: pop_avail, for a ring that holds nothing new, and for a chain.
use kvm_rust.Base.{
  List, [], arith, err, if◌then◌else◌, length, none, ok, outside_memory, panic, some, suc, zero, ℕ,
  ◌%◌, ◌*◌, ◌+◌, ◌<◌, ◌^◌, ◌≡◌, ◌≢◌, ◌≤◌,
}
use kvm_rust.Util.Binary.{from_le_bytes}
use kvm_rust.Memory.{Memory, Ptr, ptr_add, gpa_to_host, read_guest_ptr}
use kvm_rust.Virtio.Bindings.{Bindings, Desc}
use kvm_rust.Virtio.Queue.{
  VringQueue, DescChain, guest_ptr, unwrap_ptr, is_write, get_data, get_desc_head, add_desc, walk,
  chain_at, next_chain, pop_avail,
}
use kvm_rust.Virtio.Queue.Chain.{
  Placed, Linked, readable, writable, Linked-pos, walk-Linked, guest_ptr-some,
}

module _ (b : Bindings) (mem : Memory) (q : VringQueue) (p : Ptr) where
  abbrev pub avail_size : ℕ
  avail_size = b.vring_avail_size + 2 * q.num

  -- The index that the driver has published.
  abbrev pub avail_index : ℕ
  avail_index = b.avail_idx (read_guest_ptr mem p b.vring_avail_size)

  -- The chain head in the ring slot that is next for the device.
  abbrev pub next_head : ℕ
  next_head = from_le_bytes (read_guest_ptr mem (ptr_add p (4 + 2 * (q.last_avail_idx % q.num))) 2)

  walk_outside :
      (n idx : ℕ) (d : Desc) (c : DescChain)
      → 0 < n
      → get_desc_head b mem q idx ≡ ok d
      → gpa_to_host mem d.addr d.len ≡ none
      → walk b mem q n idx c ≡ (if is_write b d then err outside_memory else panic)
  unfolding walk add_desc get_data guest_ptr unwrap_ptr
  walk_outside zero idx d c pos first missing = absurd (omega arith)
  walk_outside (suc n) idx d c pos first missing = ground arith

  -- With nothing new in the ring there is no chain, and the queue stays as it is.
  pub pop_avail-none :
      gpa_to_host mem q.avail avail_size ≡ some p
      → avail_index ≡ q.last_avail_idx
      → pop_avail b mem q ≡ (q, ok none)
  unfolding pop_avail next_chain chain_at
  pop_avail-none found same = ground (arith, guest_ptr-some mem q.avail avail_size found)

  -- A chain that the driver linked with at most `num` descriptors, all of whose buffers lie in guest
  -- memory, is taken whole: its readable bytes and writable buffers in the driver's order, under the
  -- head that the ring names. The queue moves on by one slot, modulo 2^16.
  pub pop_avail-Linked :
      (es : List Placed)
      → gpa_to_host mem q.avail avail_size ≡ some p
      → avail_index ≢ q.last_avail_idx
      → Linked b mem q next_head es
      → length es ≤ q.num
      → pop_avail b mem q ≡ (
        record q { last_avail_idx = (q.last_avail_idx + 1) % 2 ^ 16 },
        ok (
            some (record {
              head = next_head;
              read_buf = readable b mem es;
              write_buf = writable b mem es;
            })),
      )
  unfolding pop_avail next_chain chain_at
  pop_avail-Linked es found new l h = ground (
    arith,
    Linked-pos l,
    guest_ptr-some mem q.avail avail_size found,
    walk-Linked b mem q q.num next_head es
        (record { head = next_head; read_buf = []; write_buf = [] }) l h,
  )

  -- A chain whose first descriptor has a buffer outside guest memory is not taken, and the queue
  -- stays as it is: a writable buffer is an error, but a readable one makes the monitor panic.
  pub pop_avail_outside :
      (d : Desc)
      → gpa_to_host mem q.avail avail_size ≡ some p
      → avail_index ≢ q.last_avail_idx
      → 0 < q.num
      → get_desc_head b mem q next_head ≡ ok d
      → gpa_to_host mem d.addr d.len ≡ none
      → pop_avail b mem q ≡ (q, if is_write b d then err outside_memory else panic)
  unfolding pop_avail next_chain chain_at
  pop_avail_outside d found new pos first missing = ground (
    arith,
    guest_ptr-some mem q.avail avail_size found,
    walk_outside q.num next_head d (record { head = next_head; read_buf = []; write_buf = [] }) pos
        first missing,
  )
