-- ===== src/Virtio/Blk/Tests.antt =====
-- A disk of one sector, and requests for it.
use kvm_rust.Base.{
  List, [], arith, drop, if◌then◌else◌, inl, length-replicate, none, ok, refl, replicate, take,
  true, ℕ, ◌==◌, ◌∷◌, ◌≡◌,
}
use kvm_rust.Util.Binary.{new_from, from_le_bytes}
use kvm_rust.Memory.{Memory, read_guest_ptr, write_guest_ptr}
use kvm_rust.Virtio.Buffers.{gather}
use kvm_rust.Virtio.Queue.{Buffer, DescChain}
use kvm_rust.Virtio.Blk.{
  BlkBindings, FileSystem, VirtioBlk, Request, blk_in, blk_out, blk_flush, blk_other, process,
}
use kvm_rust.Virtio.Blk.Disk.{IsHealthy}
use kvm_rust.Virtio.Blk.Requests.{
  IsRequest, IsWhole, process_in, process_past_end, process_out-process_in,
}

abbrev request_of : ℕ → Request
request_of n =
    if n == 0 then blk_in else if n == 1 then blk_out else if n == 4 then blk_flush else blk_other

abbrev linux_blk : BlkBindings
linux_blk = record {
  virtio_blk_outhdr_size = 16;
  type_ = λ bytes. request_of (from_le_bytes (take 4 bytes));
  sector = λ bytes. from_le_bytes (drop 8 bytes);
  virtio_id_block = 2;
  virtio_blk_f_flush = 9;
  virtio_blk_s_ok = 0;
  virtio_blk_s_ioerr = 1;
  virtio_blk_s_unsupp = 2;
}

abbrev healthy_fs : FileSystem
healthy_fs = record { read_stops = λ o n. none; write_stops = λ o n. none; syncs = true }

healthy : IsHealthy healthy_fs
healthy = record { reads = λ o n. refl; writes = λ o n. refl }

abbrev one_sector : VirtioBlk
one_sector = record { disk = replicate 512 0; capacity = 1 }

whole : IsWhole one_sector
whole = record { covers = omega (arith, length-replicate {A = ℕ} 512 0); sized = omega arith }

abbrev ram : Memory
ram = record { regions = record { guest_phys_addr = 0; mem_size = 0x1000 } ∷ []; ram = λ r o. 0xee }

abbrev buffer : ℕ → ℕ → Buffer
buffer o n = record { ptr = record { region = 0; off = o }; len = n }

-- A request of the given type for a sector, its data, two data buffers, and the status byte.
abbrev request : ℕ → ℕ → List ℕ → DescChain
request type_ sector bytes = record {
  head = 0;
  read_buf = type_ ∷ 0 ∷ 0 ∷ 0 ∷ 0 ∷ 0 ∷ 0 ∷ 0 ∷ sector ∷ 0 ∷ 0 ∷ 0 ∷ 0 ∷ 0 ∷ 0 ∷ 0 ∷ bytes;
  write_buf = buffer 0x100 2 ∷ buffer 0x200 1 ∷ buffer 0x300 1 ∷ [];
}

abbrev data_buffers : List Buffer
data_buffers = buffer 0x100 2 ∷ buffer 0x200 1 ∷ []

machinery : Unit {0}
unfolding new_from
machinery = tt

reading : IsRequest linux_blk (request 0 0 []) blk_in 0 (buffer 0x300 1) data_buffers
reading = record {
  outhdr = 0 ∷ replicate 15 0;
  header = unfold machinery in refl;
  is_type = refl;
  at_sector = refl;
  buffers = refl;
  has_status = omega arith;
}

writing : IsRequest linux_blk (request 1 0 (7 ∷ 8 ∷ 9 ∷ [])) blk_out 0 (buffer 0x300 1) data_buffers
writing = record {
  outhdr = 1 ∷ replicate 15 0;
  header = unfold machinery in refl;
  is_type = refl;
  at_sector = refl;
  buffers = refl;
  has_status = omega arith;
}

beyond : IsRequest linux_blk (request 0 1 []) blk_in 1 (buffer 0x300 1) data_buffers
beyond = record {
  outhdr = 0 ∷ 0 ∷ 0 ∷ 0 ∷ 0 ∷ 0 ∷ 0 ∷ 0 ∷ 1 ∷ replicate 7 0;
  header = unfold machinery in refl;
  is_type = refl;
  at_sector = refl;
  buffers = refl;
  has_status = omega arith;
}

process_in_example :
    let (d', mem', r) = process linux_blk healthy_fs 0 (request 0 0 []) one_sector ram in
    (d' ≡ one_sector)
    × (r ≡ ok 4)
    × (gather mem' data_buffers ≡ take 3 (drop 0 one_sector.disk))
    × (read_guest_ptr mem' (record { region = 0; off = 0x300 }) 1 ≡ 0 ∷ [])
process_in_example =
    process_in linux_blk healthy_fs 0 (request 0 0 []) healthy 0 (buffer 0x300 1) data_buffers
      one_sector ram reading whole refl (omega arith) (omega arith) (omega arith)

process_past_end_example :
    process linux_blk healthy_fs 0 (request 0 1 []) one_sector ram
    ≡ (one_sector, write_guest_ptr ram (record { region = 0; off = 0x300 }) (1 ∷ []), ok 1)
process_past_end_example =
    process_past_end linux_blk healthy_fs 0 (request 0 1 []) blk_in 1 (buffer 0x300 1) data_buffers
      one_sector ram beyond whole (inl (refl, refl))

process_out-process_in_example :
    let (d1, _, r1) =
      process linux_blk healthy_fs 0 (request 1 0 (7 ∷ 8 ∷ 9 ∷ [])) one_sector ram in
    let (d2, mem2, r2) = process linux_blk healthy_fs 0 (request 0 0 []) d1 ram in
    (r1 ≡ ok 1) × (r2 ≡ ok 4) × (gather mem2 data_buffers ≡ 7 ∷ 8 ∷ 9 ∷ [])
process_out-process_in_example =
    process_out-process_in linux_blk healthy_fs healthy 0 (request 1 0 (7 ∷ 8 ∷ 9 ∷ []))
      (request 0 0 []) 0 (buffer 0x300 1) (buffer 0x300 1) data_buffers data_buffers one_sector ram
      ram writing reading whole refl refl (omega arith) (omega arith) (omega arith)
