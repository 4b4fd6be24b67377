-- ===== src/Virtio/Queue/Tests.antt =====
-- A queue of two descriptors in a small guest memory.
use kvm_rust.Base.{
  All, List, [], arith, get_or, length, ok, panic, refl, some, ℕ, ◌<◌, ◌∷◌, ◌≡◌, ◌≢◌, ◌≤◌,
}
use kvm_rust.Memory.{
  Memory, Ptr, gpa_to_host, offset_in, find_region, read_guest_ptr, write_guest_ptr,
}
use kvm_rust.Memory.Access.{Disjoint}
use kvm_rust.Virtio.Bindings.{linux, linux-IsVring}
use kvm_rust.Virtio.Queue.{
  VringQueue, DescChain, guest_ptr, unwrap_ptr, get_data, get_desc_head, add_desc, walk, chain_at,
  next_chain, advance, settle, pop_avail, push_used, used_written,
}
use kvm_rust.Virtio.Queue.Chain.{Placed, Linked, last, link}
use kvm_rust.Virtio.Queue.Avail.{pop_avail-Linked, pop_avail_outside}
use kvm_rust.Virtio.Queue.Bounds.{InBounds, pop_avail_safe}
use kvm_rust.Virtio.Queue.Used.{push_used_lem, used_index_in, entry_in}

-- Descriptors at 0, the available ring at 64, the used ring at 80, data from 112 on. Descriptor 0
-- has four readable bytes and goes on to 1, which has two writable ones; 2 and 3 lie outside.
abbrev image : List ℕ
image =
    112 ∷ 0 ∷ 0 ∷ 0 ∷ 0 ∷ 0 ∷ 0 ∷ 0 ∷ 4 ∷ 0 ∷ 0 ∷ 0 ∷ 1 ∷ 0 ∷ 1 ∷ 0 ∷ 116 ∷ 0 ∷ 0 ∷ 0 ∷ 0 ∷ 0 ∷ 0
    ∷ 0 ∷ 2 ∷ 0 ∷ 0 ∷ 0 ∷ 2 ∷ 0 ∷ 0 ∷ 0 ∷ 0 ∷ 4 ∷ 0 ∷ 0 ∷ 0 ∷ 0 ∷ 0 ∷ 0 ∷ 4 ∷ 0 ∷ 0 ∷ 0 ∷ 0 ∷ 0 ∷ 0
    ∷ 0 ∷ 0 ∷ 4 ∷ 0 ∷ 0 ∷ 0 ∷ 0 ∷ 0 ∷ 0 ∷ 4 ∷ 0 ∷ 0 ∷ 0 ∷ 2 ∷ 0 ∷ 0 ∷ 0 ∷ 0 ∷ 0 ∷ 1 ∷ 0 ∷ 0 ∷ 0 ∷ 2
    ∷ 0 ∷ 0 ∷ 0 ∷ 0 ∷ 0 ∷ 0 ∷ 0 ∷ 0 ∷ 0 ∷ 0 ∷ 0 ∷ 0xff ∷ 0xff ∷ 0 ∷ 0 ∷ 0 ∷ 0 ∷ 0 ∷ 0 ∷ 0 ∷ 0 ∷ 0
    ∷ 0 ∷ 0 ∷ 0 ∷ 0 ∷ 0 ∷ 0 ∷ 0 ∷ 0 ∷ 0 ∷ 0 ∷ 0 ∷ 0 ∷ 0 ∷ 0 ∷ 0 ∷ 0 ∷ 0 ∷ 0 ∷ 0 ∷ 7 ∷ 8 ∷ 9 ∷ 10 ∷ 0
    ∷ 0 ∷ []

abbrev guest : Memory
guest = record {
  regions = record { guest_phys_addr = 0; mem_size = 118 } ∷ [];
  ram = λ r o. get_or image o 0;
}

abbrev queue : VringQueue
queue = record { ready = 1; num = 2; last_avail_idx = 0; desc = 0; avail = 64; used = 80 }

abbrev at : ℕ → Ptr
at o = record { region = 0; off = o }

-- Everything that taking a chain runs.
machinery : Unit {0}
unfolding gpa_to_host offset_in find_region read_guest_ptr write_guest_ptr guest_ptr unwrap_ptr
    get_data get_desc_head add_desc walk chain_at next_chain settle pop_avail push_used used_written
machinery = tt

abbrev request : Placed
request = record { desc = record { addr = 112; len = 4; flags = 1; next = 1 }; ptr = at 112 }

abbrev reply : Placed
reply = record { desc = record { addr = 116; len = 2; flags = 2; next = 0 }; ptr = at 116 }

abbrev taken : DescChain
taken = record {
  head = 0;
  read_buf = 7 ∷ 8 ∷ 9 ∷ 10 ∷ [];
  write_buf = record { ptr = at 116; len = 2 } ∷ [];
}

linked : Linked linux guest queue 0 (request ∷ reply ∷ [])
linked =
    link 0 request (reply ∷ []) (unfold machinery in refl) (unfold machinery in refl) refl
      (last 1 reply (unfold machinery in refl) (unfold machinery in refl) refl)

pop_runs : pop_avail linux guest queue ≡ (advance queue, ok (some taken))
unfolding machinery
pop_runs = refl

pop_avail-Linked_example : pop_avail linux guest queue ≡ (advance queue, ok (some taken))
unfolding machinery
pop_avail-Linked_example =
    pop_avail-Linked linux guest queue (at 64) (request ∷ reply ∷ []) refl (λ e. omega arith) linked
      (omega arith)

-- The descriptor table 32 bytes on: the head is then the readable descriptor that lies outside.
abbrev stray : VringQueue
stray = record queue { desc = 32 }

pop_avail_outside_example : pop_avail linux guest stray ≡ (stray, panic)
unfolding machinery
pop_avail_outside_example =
    pop_avail_outside linux guest stray (at 64)
      (record { addr = 1024; len = 4; flags = 0; next = 0 }) refl (λ e. omega arith) (omega arith)
      refl refl

pop_avail_safe_example :
    ((c : DescChain)
      → (pop_avail linux guest queue).1 ≡ ok (some c)
      → All (InBounds guest) c.write_buf
        × (length c.write_buf ≤ 2)
        × ((pop_avail linux guest queue).0 ≡ advance queue))
    × (((c : DescChain) → (pop_avail linux guest queue).1 ≢ ok (some c))
        → (pop_avail linux guest queue).0 ≡ queue)
pop_avail_safe_example = pop_avail_safe linux guest (omega arith) queue

push_used_lem_example :
    (mem' : Memory) × (push_used linux guest queue 0 3 ≡ ok mem')
    × (entry_in linux linux-IsVring guest queue (at 80) mem' 1 ≡ 0 ∷ 0 ∷ 0 ∷ 0 ∷ 3 ∷ 0 ∷ 0 ∷ 0 ∷ [])
    × (used_index_in linux linux-IsVring guest queue (at 80) mem' ≡ 0)
    × ((i : ℕ)
        → i < 2
        → i ≢ 1
        → entry_in linux linux-IsVring guest queue (at 80) mem' i
          ≡ entry_in linux linux-IsVring guest queue (at 80) guest i)
    × ((r : Ptr) (m : ℕ)
        → Disjoint (at 80) 20 r m
        → read_guest_ptr mem' r m ≡ read_guest_ptr guest r m)
unfolding machinery
push_used_lem_example = push_used_lem linux linux-IsVring guest queue (at 80) 0 3 refl (omega arith)
