-- ===== src/Virtio/Queue.antt =====
-- src/virtio/queue.rs: taking chains from the available ring and handing them back.
pub mod Used
pub mod Chain
pub mod Avail
pub mod Bounds
mod Tests
use kvm_rust.Base.{
  Bool, List, Option, Outcome, [], err, has, if◌then◌else◌, leb, none, ok, outside_memory, panic,
  some, suc, u16, zero, ℕ, ◌%◌, ◌*◌, ◌++◌, ◌+◌, ◌==◌, ◌^◌, ◌∷◌, ◌>>=◌, ◌>>◌,
}
use kvm_rust.Util.Binary.{to_le_bytes, from_le_bytes}
use kvm_rust.Memory.{Memory, Ptr, ptr_add, gpa_to_host, read_guest_ptr, write_guest_ptr}
use kvm_rust.Virtio.Bindings.{Bindings, Desc}

pub record VringQueue : Type 0 where
  pub ready : ℕ
  pub num : ℕ
  pub last_avail_idx : ℕ
  pub desc : ℕ
  pub avail : ℕ
  pub used : ℕ

abbrev pub new : VringQueue
new = record { ready = 0; num = 0; last_avail_idx = 0; desc = 0; avail = 0; used = 0 }

-- A slice of guest memory that the device may write.
pub record Buffer : Type 0 where
  pub ptr : Ptr
  pub len : ℕ

pub record DescChain : Type 0 where
  pub head : ℕ
  pub read_buf : List ℕ
  pub write_buf : List Buffer

unfoldable pub guest_ptr : Memory → ℕ → ℕ → Outcome Ptr
guest_ptr mem gpa len = elim (gpa_to_host mem gpa len) [ none ↦ err outside_memory | some p ↦ ok p ]

-- `gpa_to_host(…).unwrap()`
unfoldable pub unwrap_ptr : Memory → ℕ → ℕ → Outcome Ptr
unwrap_ptr mem gpa len = elim (gpa_to_host mem gpa len) [ none ↦ panic | some p ↦ ok p ]

abbrev pub is_write : Bindings → Desc → Bool
is_write b d = has d.flags b.vring_desc_f_write

abbrev pub has_next : Bindings → Desc → Bool
has_next b d = has d.flags b.vring_desc_f_next

unfoldable pub get_data : Memory → Desc → Outcome (List ℕ)
get_data mem d = do p ← unwrap_ptr mem d.addr d.len; ok (read_guest_ptr mem p d.len)

-- The address is a `u64` sum, which panics on overflow.
unfoldable pub get_desc_head : Bindings → Memory → VringQueue → ℕ → Outcome Desc
get_desc_head b mem q idx = if leb (2 ^ 64) (q.desc + idx * b.vring_desc_size) then panic else (do
  p ← unwrap_ptr mem (q.desc + idx * b.vring_desc_size) b.vring_desc_size
  ok (b.desc (read_guest_ptr mem p b.vring_desc_size)))

-- The match on the descriptor's type in pop_avail.
unfoldable pub add_desc : Bindings → Memory → Desc → DescChain → Outcome DescChain
add_desc b mem d c =
    if is_write b d
    then (do
      p ← guest_ptr mem d.addr d.len
      ok (record c { write_buf = c.write_buf ++ record { ptr = p; len = d.len } ∷ [] }))
    else (do bytes ← get_data mem d; ok (record c { read_buf = c.read_buf ++ bytes }))

-- `for _ in 0..self.num`, with the rounds left.
unfoldable pub walk : Bindings → Memory → VringQueue → ℕ → ℕ → DescChain → Outcome DescChain
walk b mem q zero idx c = ok c
walk b mem q (suc n) idx c = do
  d ← get_desc_head b mem q idx
  c' ← add_desc b mem d c
  let rest = walk b mem q n d.next c'
  if has_next b d then rest else ok c'

-- The part of pop_avail behind the fetch of the available index `idx`.
unfoldable pub chain_at : Bindings → Memory → VringQueue → Ptr → ℕ → Outcome (Option DescChain)
chain_at b mem q p idx =
    if q.last_avail_idx == idx then ok none else if q.num == 0 then panic else (do
      let slot = ptr_add p (4 + 2 * (q.last_avail_idx % q.num))
      let head = from_le_bytes (read_guest_ptr mem slot 2)
      c ← walk b mem q q.num head (record { head = head; read_buf = []; write_buf = [] })
      ok (some c))

-- pop_avail up to the update of last_avail_idx. `% self.num` panics at 0.
unfoldable pub next_chain : Bindings → Memory → VringQueue → Outcome (Option DescChain)
next_chain b mem q = do
  p ← guest_ptr mem q.avail (b.vring_avail_size + 2 * q.num)
  let idx = b.avail_idx (read_guest_ptr mem p b.vring_avail_size)
  chain_at b mem q p idx

abbrev pub advance : VringQueue → VringQueue
advance q = record q { last_avail_idx = u16 (q.last_avail_idx + 1) }

-- The queue moves on only when a chain is returned.
unfoldable pub settle :
    VringQueue → Outcome (Option DescChain) → VringQueue × Outcome (Option DescChain)
settle q (ok none) = (q, ok none)
settle q (ok (some c)) = (advance q, ok (some c))
settle q (err e) = (q, err e)
settle q panic = (q, panic)

unfoldable pub pop_avail : Bindings → Memory → VringQueue → VringQueue × Outcome (Option DescChain)
unfolding settle
pop_avail b mem q = settle q (next_chain b mem q)

-- The two writes of push_used, the entry first.
unfoldable pub used_written : Bindings → Memory → VringQueue → Ptr → ℕ → ℕ → ℕ → Memory
used_written b mem q p idx head len =
    let slot = ptr_add p (4 + b.vring_used_elem_size * (idx % q.num)) in
    let mem1 = write_guest_ptr mem slot (b.used_elem head len) in
    write_guest_ptr mem1 (ptr_add p 2) (to_le_bytes 2 (u16 (idx + 1)))

unfoldable pub push_used : Bindings → Memory → VringQueue → ℕ → ℕ → Outcome Memory
push_used b mem q head len = do
  p ← guest_ptr mem q.used (b.vring_used_size + b.vring_used_elem_size * q.num)
  let idx = b.used_idx (read_guest_ptr mem p b.vring_used_size)
  if q.num == 0 then panic else ok (used_written b mem q p idx head len)
