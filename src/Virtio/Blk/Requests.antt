-- ===== src/Virtio/Blk/Requests.antt =====
-- src/virtio/blk.rs: process, against the disk, the driver's buffers and the status byte.
use kvm_rust.Base.{
  Bool, List, [], ap, arith, drop, err, false, if◌then◌else◌, leb, length, length-append,
  length-drop, length-take, ok, past_end, refl, replicate, some, sym, take, true, u8, ℕ, ◌*◌, ◌++◌,
  ◌+◌, ◌-◌, ◌<◌, ◌^◌, ◌∙◌, ◌∷◌, ◌≡◌, ◌≤◌, ◌⊎◌,
}
use kvm_rust.Util.Binary.{new_from}
use kvm_rust.Memory.{Memory, read_guest_ptr, write_guest_ptr}
use kvm_rust.Memory.Access.{read-write}
use kvm_rust.Virtio.Buffers.{gather, Outside, Apart, gather-write}
use kvm_rust.Virtio.Queue.{Buffer, DescChain}
use kvm_rust.Virtio.Blk.{
  BlkBindings, FileSystem, VirtioBlk, Request, blk_in, blk_out, blk_flush, blk_other, sector_size,
  disk_offset, overwrite, write_all_at, total, read_bufs, read, write, execute, finish, report,
  split_last, serve, process,
}
use kvm_rust.Virtio.Blk.Disk.{IsHealthy, read_bufs_lem}

-- The range of the disk lies within its capacity.
abbrev pub within_disk : VirtioBlk → ℕ → ℕ → Bool
within_disk d sector len = leb (sector * sector_size + len) (d.capacity * sector_size)

-- The file is as long as it was when the capacity was taken, and its offsets are 64-bit numbers.
pub record IsWhole (d : VirtioBlk) : Type 0 where
  pub covers : d.capacity * sector_size ≤ length d.disk
  pub sized : d.capacity * sector_size < 2 ^ 64

disk_offset_lem :
    (d : VirtioBlk) (sector len : ℕ)
    → IsWhole d
    → disk_offset d sector len
      ≡ (if within_disk d sector len then ok (sector * sector_size) else err past_end)
unfolding disk_offset
disk_offset_lem d sector len w = ground (arith, w.sized)

-- A request as process takes it apart.
pub record IsRequest (b : BlkBindings) (chain : DescChain) (req : Request) (sector : ℕ)
    (status : Buffer) (bufs : List Buffer) : Type 0 where
  pub outhdr : List ℕ
  pub header : new_from b.virtio_blk_outhdr_size chain.read_buf 0 ≡ some outhdr
  pub is_type : b.type_ outhdr ≡ req
  pub at_sector : b.sector outhdr ≡ sector
  pub buffers : split_last chain.write_buf ≡ some (status, bufs)
  pub has_status : 0 < status.len

take_front {ℓ} : {A : Type ℓ} (xs bs : List A) → take (length xs) (xs ++ bs) ≡ xs
take_front [] bs = refl
take_front (a ∷ xs) bs = ap (λ t. a ∷ t) (take_front xs bs)

drop_front {ℓ} : {A : Type ℓ} (xs bs : List A) → drop (length xs) (xs ++ bs) ≡ bs
drop_front [] bs = refl
drop_front (a ∷ xs) bs = drop_front xs bs

module _ (file : List ℕ) (offset : ℕ) (bytes : List ℕ)
    (fits : offset + length bytes ≤ length file) where
  abbrev padded : List ℕ
  padded = file ++ replicate (offset - length file) 0

  abbrev before : List ℕ
  before = take offset padded

  length-before : length before ≡ offset
  length-before =
      omega
        (arith, length-take offset padded, length-append file (replicate (offset - length file) 0))

  length-overwrite : length (overwrite file offset bytes) ≡ length file
  unfolding overwrite
  length-overwrite = omega (
    arith,
    length-before,
    length-append before (bytes ++ drop (offset + length bytes) file),
    length-append bytes (drop (offset + length bytes) file),
    length-drop (offset + length bytes) file,
  )

  overwrite_lem : take (length bytes) (drop offset (overwrite file offset bytes)) ≡ bytes
  unfolding overwrite
  overwrite_lem =
      let rest = bytes ++ drop (offset + length bytes) file in
      ap (λ k. take (length bytes) (drop k (before ++ rest))) (sym length-before)
      ∙ ap (take (length bytes)) (drop_front before rest)
      ∙ take_front bytes (drop (offset + length bytes) file)

module _ (b : BlkBindings) (fs : FileSystem) (queue : ℕ) (chain : DescChain) where
  abbrev out_data : List ℕ
  out_data = drop b.virtio_blk_outhdr_size chain.read_buf

  process-serve :
      (req : Request) (sector : ℕ) (status : Buffer) (bufs : List Buffer) (d : VirtioBlk)
      (mem : Memory)
      → IsRequest b chain req sector status bufs
      → process b fs queue chain d mem ≡ serve b fs req sector out_data status bufs d mem
  unfolding process
  process-serve req sector status bufs d mem q =
      ground (arith, q.header, q.is_type, q.at_sector, q.buffers)

  -- A read or write request that reaches past the end of the disk is answered by the error status
  -- and a used length of one: the disk is untouched, and so is all memory but the status byte. The
  -- file covers the capacity, which is a 64-bit number of bytes.
  pub process_past_end :
      (req : Request) (sector : ℕ) (status : Buffer) (bufs : List Buffer) (d : VirtioBlk)
      (mem : Memory)
      → IsRequest b chain req sector status bufs
      → IsWhole d
      → ((req ≡ blk_in) × (within_disk d sector (total bufs) ≡ false))
        ⊎ ((req ≡ blk_out)
            × (within_disk d sector (length (drop b.virtio_blk_outhdr_size chain.read_buf))
                ≡ false))
      → process b fs queue chain d mem
        ≡ (d, write_guest_ptr mem status.ptr (u8 b.virtio_blk_s_ioerr ∷ []), ok 1)
  unfolding serve execute read write report finish
  process_past_end blk_in sector status bufs d mem q w past =
      process-serve blk_in sector status bufs d mem q
      ∙ ground (arith, q.has_status, disk_offset_lem d sector (total bufs) w)
  process_past_end blk_out sector status bufs d mem q w past =
      process-serve blk_out sector status bufs d mem q
      ∙ ground (arith, q.has_status, disk_offset_lem d sector (length out_data) w)
  process_past_end blk_flush sector status bufs d mem q w past = absurd (ground arith)
  process_past_end blk_other sector status bufs d mem q w past = absurd (ground arith)

  module _ (healthy : IsHealthy fs) where
    read_in :
        (d : VirtioBlk) (sector : ℕ) (bufs : List Buffer) (mem : Memory)
        → IsWhole d
        → within_disk d sector (total bufs) ≡ true
        → Apart bufs
        → total bufs < 2 ^ 32
        → read fs d sector bufs mem
          ≡ ((read_bufs fs d (sector * sector_size) bufs mem).0, ok (total bufs))
    unfolding read
    read_in d sector bufs mem w fits a small =
        let (done, filled) =
          read_bufs_lem fs healthy d bufs (sector * sector_size) mem (ground (arith, w.covers)) a in
        ground (arith, disk_offset_lem d sector (total bufs) w, done)

    -- A read within the disk fills the driver's buffers with the bytes of the disk from the sector on,
    -- sets the status byte to OK and reports one byte more than the buffers hold. The file system
    -- serves every access, the buffers are apart from each other and from the status byte, and the
    -- reported length is a 32-bit number.
    pub process_in :
        (sector : ℕ) (status : Buffer) (bufs : List Buffer) (d : VirtioBlk) (mem : Memory)
        → IsRequest b chain blk_in sector status bufs
        → IsWhole d
        → within_disk d sector (total bufs) ≡ true
        → Apart bufs
        → Outside status.ptr 1 bufs
        → total bufs + 1 < 2 ^ 32
        → let (d', mem', r) = process b fs queue chain d mem in
          (d' ≡ d)
          × (r ≡ ok (total bufs + 1))
          × (gather mem' bufs ≡ take (total bufs) (drop (sector * sector_size) d.disk))
          × (read_guest_ptr mem' status.ptr 1 ≡ u8 b.virtio_blk_s_ok ∷ [])
    unfolding serve execute report finish
    process_in sector status bufs d mem q w fits a o small =
        let offset = sector * sector_size in
        let mem1 = (read_bufs fs d offset bufs mem).0 in
        let byte = u8 b.virtio_blk_s_ok ∷ [] in
        let (done, filled) =
          read_bufs_lem fs healthy d bufs offset mem (ground (arith, w.covers)) a in
        let runs : process b fs queue chain d mem
            ≡ (d, write_guest_ptr mem1 status.ptr byte, ok (total bufs + 1)) =
          process-serve blk_in sector status bufs d mem q
          ∙ ground (arith, q.has_status, read_in d sector bufs mem w fits a (omega arith)) in
        rw runs (
          refl,
          refl,
          gather-write mem1 status.ptr byte bufs o ∙ filled,
          read-write mem1 status.ptr byte,
        )

    process_out :
        (sector : ℕ) (status : Buffer) (bufs : List Buffer) (d : VirtioBlk) (mem : Memory)
        → IsRequest b chain blk_out sector status bufs
        → IsWhole d
        → within_disk d sector (length out_data) ≡ true
        → process b fs queue chain d mem ≡ (
          record d { disk = overwrite d.disk (sector * sector_size) out_data },
          write_guest_ptr mem status.ptr (u8 b.virtio_blk_s_ok ∷ []),
          ok 1,
        )
    unfolding serve execute write write_all_at report finish
    process_out sector status bufs d mem q w fits =
        process-serve blk_out sector status bufs d mem q
        ∙ ground (
          arith,
          q.has_status,
          disk_offset_lem d sector (length out_data) w,
          healthy.writes (sector * sector_size) (length out_data),
        )

-- What a request writes to a range of the disk, the next request to read that range gets, whatever
-- is in guest memory by then. The file system serves every access, and the reading request is as
-- in process_in.
pub process_out-process_in :
    (b : BlkBindings) (fs : FileSystem) (healthy : IsHealthy fs) (queue : ℕ)
    (writing reading : DescChain) (sector : ℕ) (status status' : Buffer) (bufs bufs' : List Buffer)
    (d : VirtioBlk) (mem mem' : Memory)
    → IsRequest b writing blk_out sector status bufs
    → IsRequest b reading blk_in sector status' bufs'
    → IsWhole d
    → within_disk d sector (total bufs') ≡ true
    → total bufs' ≡ length (drop b.virtio_blk_outhdr_size writing.read_buf)
    → Apart bufs'
    → Outside status'.ptr 1 bufs'
    → total bufs' + 1 < 2 ^ 32
    → let (d1, _, r1) = process b fs queue writing d mem in
      let (d2, mem2, r2) = process b fs queue reading d1 mem' in
      (r1 ≡ ok 1)
      × (r2 ≡ ok (total bufs' + 1))
      × (gather mem2 bufs' ≡ drop b.virtio_blk_outhdr_size writing.read_buf)
process_out-process_in b fs healthy queue writing reading sector status status' bufs bufs' d mem
      mem' qw qr w fits same a o small =
    let bytes = drop b.virtio_blk_outhdr_size writing.read_buf in
    let offset = sector * sector_size in
    let room : offset + length bytes ≤ length d.disk = ground (arith, w.covers) in
    let d1 = record d { disk = overwrite d.disk offset bytes } in
    let w1 : IsWhole d1 = record {
      covers = omega (arith, w.covers, length-overwrite d.disk offset bytes room);
      sized = w.sized;
    } in
    let (kept, len, filled, ok_status) =
      process_in b fs queue reading healthy sector status' bufs' d1 mem' qr w1 fits a o small in
    rw (process_out b fs queue writing healthy sector status bufs d mem qw w (ground arith)) (
      refl,
      len,
      filled ∙ ap (λ k. take k (drop offset d1.disk)) same ∙ overwrite_lem d.disk offset bytes room,
    )
