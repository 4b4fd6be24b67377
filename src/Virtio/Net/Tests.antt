-- ===== src/Virtio/Net/Tests.antt =====
-- Frames at concrete inputs.
use kvm_rust.Base.{[], arith, ok, refl, take, ℕ, ◌∷◌, ◌≡◌}
use kvm_rust.Virtio.Net.{VirtioNet, process_rx}
use kvm_rust.Memory.{Memory}
use kvm_rust.Virtio.Buffers.{gather}
use kvm_rust.Virtio.Queue.{Buffer, DescChain}
use kvm_rust.Virtio.Net.Delivery.{process_rx_delivers}
use kvm_rust.Virtio.Net.Frames.{receive_all, receive_all_lem}

abbrev idle : VirtioNet
idle = record { tap = []; rx_pending = [] }

receive_all_lem_example :
    let (d', kicks) = receive_all ((1 ∷ []) ∷ (2 ∷ []) ∷ []) idle in
    (d'.rx_pending ≡ (1 ∷ []) ∷ (2 ∷ []) ∷ []) × (kicks ≡ 1)
receive_all_lem_example = receive_all_lem ((1 ∷ []) ∷ (2 ∷ []) ∷ []) idle (omega arith)

abbrev holding : VirtioNet
holding = record { tap = []; rx_pending = (1 ∷ 2 ∷ 3 ∷ []) ∷ (4 ∷ []) ∷ [] }

abbrev ram : Memory
ram = record { regions = []; ram = λ r o. 0 }

abbrev buffer : ℕ → ℕ → Buffer
buffer o n = record { ptr = record { region = 0; off = o }; len = n }

abbrev chain : DescChain
chain = record { head = 0; read_buf = []; write_buf = buffer 0x10 2 ∷ buffer 0x20 4 ∷ [] }

process_rx_delivers_example :
    let (d', mem', r) = process_rx chain holding ram in
    (d'.rx_pending ≡ (4 ∷ []) ∷ [])
    × (r ≡ ok 3)
    × (take 3 (gather mem' chain.write_buf) ≡ 1 ∷ 2 ∷ 3 ∷ [])
process_rx_delivers_example =
    process_rx_delivers chain (1 ∷ 2 ∷ 3 ∷ []) ((4 ∷ []) ∷ []) holding ram refl (omega arith)
      (omega arith)
