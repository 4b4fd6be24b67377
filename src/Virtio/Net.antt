-- ===== src/Virtio/Net.antt =====
-- src/virtio/net.rs: the network device, with the frames it has taken from the tap.
pub mod Frames
pub mod Delivery
mod Tests
use kvm_rust.Base.{
  Bool, List, Outcome, [], drop, err, false, if◌then◌else◌, leb, length, min, no_header, none, not,
  ok, some, take, true, u32, within, ℕ, ◌++◌, ◌+◌, ◌/=◌, ◌==◌, ◌||◌, ◌∷◌,
}
use kvm_rust.Util.Binary.{new_from}
use kvm_rust.Memory.{Memory, write_guest_ptr}
use kvm_rust.Virtio.Device.{VirtioDevice}
use kvm_rust.Virtio.Queue.{Buffer, DescChain}

abbrev pub virtio_net_queue_rx : ℕ
virtio_net_queue_rx = 0

abbrev pub virtio_net_queue_tx : ℕ
virtio_net_queue_tx = 1

abbrev pub rx_pending_max : ℕ
rx_pending_max = 256

-- The generated bindings: the size of the header in front of a frame, and the device number.
pub record NetBindings : Type 0 where
  pub virtio_net_hdr_v1_size : ℕ
  pub virtio_id_net : ℕ

-- `tap`: the frames written to the tap, in order.
pub record VirtioNet : Type 0 where
  pub tap : List (List ℕ)
  pub rx_pending : List (List ℕ)

-- One round of the receiving thread with a frame from the tap, and whether it kicks the vcpu.
unfoldable pub receive : List ℕ → VirtioNet → VirtioNet × Bool
receive frame d = if leb rx_pending_max (length d.rx_pending) then (d, false) else (
  record d { rx_pending = d.rx_pending ++ frame ∷ [] },
  length (d.rx_pending ++ frame ∷ []) == 1,
)

-- The loop over the write buffers, with what is left of the frame, and the bytes copied.
unfoldable pub copy_frame : List ℕ → List Buffer → Memory → Memory × ℕ
copy_frame frame [] mem = (mem, 0)
copy_frame frame (buf ∷ bufs) mem =
    let len = min buf.len (length frame) in
    let (mem', copied) =
      copy_frame (drop len frame) bufs (write_guest_ptr mem buf.ptr (take len frame)) in
    if length frame == 0 then (mem, 0) else (mem', len + copied)

unfoldable pub process_rx : DescChain → VirtioNet → Memory → VirtioNet × Memory × Outcome ℕ
process_rx chain d mem = elim d.rx_pending [
  | [] ↦ (d, mem, ok 0)
  | frame ∷ frames ↦
      let (mem', copied) = copy_frame frame chain.write_buf mem in
      (record d { rx_pending = frames }, mem', ok (u32 copied))
]

-- `writes` says whether the tap takes a frame; one that it refuses is dropped.
unfoldable pub process_tx :
    NetBindings
    → (List (List ℕ) → List ℕ → Bool)
    → DescChain
    → VirtioNet
    → Memory
    → VirtioNet × Memory × Outcome ℕ
process_tx b writes chain d mem = elim (new_from b.virtio_net_hdr_v1_size chain.read_buf 0) [
  | none ↦ (d, mem, err no_header)
  | some hdr ↦
      if writes d.tap chain.read_buf
      then (record d { tap = d.tap ++ chain.read_buf ∷ [] }, mem, ok 0)
      else (d, mem, ok 0)
]

unfoldable pub process :
    NetBindings
    → (List (List ℕ) → List ℕ → Bool)
    → ℕ
    → DescChain
    → VirtioNet
    → Memory
    → VirtioNet × Memory × Outcome ℕ
process b writes queue chain d mem =
    if queue == virtio_net_queue_rx
    then process_rx chain d mem
    else if queue == virtio_net_queue_tx
    then process_tx b writes chain d mem
    else (d, mem, ok 0)

unfoldable pub can_process : VirtioNet → ℕ → Bool
can_process d queue =
    queue /= virtio_net_queue_rx || not (elim d.rx_pending [ [] ↦ true | _ ∷ _ ↦ false ])

abbrev pub queue_num_max : VirtioNet → ℕ → ℕ
queue_num_max d queue = if within 0 1 queue then 256 else 0

-- The implementation of the VirtioDevice trait.
pub device : NetBindings → (List (List ℕ) → List ℕ → Bool) → VirtioDevice VirtioNet
unfolding process can_process
device b writes = record {
  device_id = b.virtio_id_net;
  features = λ d sel. 0;
  queue_num_max = queue_num_max;
  read_config = λ offset bytes d. (d, ok bytes);
  process = process b writes;
  can_process = can_process;
}
