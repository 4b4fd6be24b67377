-- ===== src/Virtio/Blk.antt =====
-- src/virtio/blk.rs: the block device. Its file is the list of its bytes.
pub mod Disk
pub mod Requests
mod Tests
use kvm_rust.Base.{
  Bool, Error, List, Option, Outcome, [], drop, err, if◌then◌else◌, leb, length, ltb, no_header,
  no_status, none, ok, os, other_error, panic, past_end, replicate, some, take, true, u32, u8,
  unexpected_eof, ℕ, ◌*◌, ◌++◌, ◌+◌, ◌-◌, ◌/◌, ◌<<<◌, ◌==◌, ◌>>=◌, ◌>>>◌, ◌^◌, ◌||◌, ◌∷◌,
}
use kvm_rust.Util.Binary.{new_from, write_le32}
use kvm_rust.Memory.{Memory, Ptr, write_guest_ptr}
use kvm_rust.Virtio.Device.{VirtioDevice}
use kvm_rust.Virtio.Queue.{Buffer, DescChain}

abbrev pub sector_size : ℕ
sector_size = 512

-- The request types of the generated bindings, or any other number.
pub data Request : Type 0 where
  blk_in blk_out blk_flush blk_other : Request

-- The generated bindings: the header's size and fields, and the constants.
pub record BlkBindings : Type 0 where
  pub virtio_blk_outhdr_size : ℕ
  pub type_ : List ℕ → Request
  pub sector : List ℕ → ℕ
  pub virtio_id_block : ℕ
  pub virtio_blk_f_flush : ℕ
  pub virtio_blk_s_ok : ℕ
  pub virtio_blk_s_ioerr : ℕ
  pub virtio_blk_s_unsupp : ℕ

-- What the operating system does with an access to `n` bytes from an offset: all of it, or an error
-- after the given number of bytes; and whether it syncs.
pub record FileSystem : Type 0 where
  pub read_stops : ℕ → ℕ → Option ℕ
  pub write_stops : ℕ → ℕ → Option ℕ
  pub syncs : Bool

pub record VirtioBlk : Type 0 where
  pub disk : List ℕ
  pub capacity : ℕ

-- With the file that was opened.
abbrev pub new : List ℕ → VirtioBlk
new file = record { disk = file; capacity = length file / sector_size }

unfoldable pub disk_offset : VirtioBlk → ℕ → ℕ → Outcome ℕ
disk_offset d sector len =
    if leb (2 ^ 64) (sector * sector_size) || leb (2 ^ 64) (sector * sector_size + len)
    then err past_end
    else if leb (sector * sector_size + len) (d.capacity * sector_size)
    then ok (sector * sector_size)
    else err past_end

-- `read_exact_at`, into a buffer of guest memory. It fails at the end of the file.
unfoldable pub read_exact_at :
    FileSystem → VirtioBlk → ℕ → Buffer → Memory → Memory × Outcome (Unit {0})
read_exact_at fs d offset buf mem =
    let found = take buf.len (drop offset d.disk) in
    elim (fs.read_stops offset buf.len) [
      | none ↦
          if ltb (length found) buf.len
          then (write_guest_ptr mem buf.ptr found, err unexpected_eof)
          else (write_guest_ptr mem buf.ptr found, ok tt)
      | some k ↦ (write_guest_ptr mem buf.ptr (take k found), err Error.os)
    ]

-- The file with bytes at an offset; zeros fill what lies between its end and the offset.
unfoldable pub overwrite : List ℕ → ℕ → List ℕ → List ℕ
overwrite file offset bytes =
    let padded = file ++ replicate (offset - length file) 0 in
    take offset padded ++ (bytes ++ drop (offset + length bytes) file)

-- `write_all_at`
unfoldable pub write_all_at : FileSystem → VirtioBlk → List ℕ → ℕ → VirtioBlk × Outcome (Unit {0})
write_all_at fs d bytes offset = elim (fs.write_stops offset (length bytes)) [
  | none ↦ (record d { disk = overwrite d.disk offset bytes }, ok tt)
  | some k ↦ (record d { disk = overwrite d.disk offset (take k bytes) }, err Error.os)
]

abbrev pub total : List Buffer → ℕ
total [] = 0
total (buf ∷ bufs) = buf.len + total bufs

-- The loop of read, and read.
unfoldable pub read_bufs :
    FileSystem → VirtioBlk → ℕ → List Buffer → Memory → Memory × Outcome (Unit {0})
read_bufs fs d offset [] mem = (mem, ok tt)
read_bufs fs d offset (buf ∷ bufs) mem =
    let (mem', r) = read_exact_at fs d offset buf mem in
    let rest = read_bufs fs d (offset + buf.len) bufs mem' in
    elim r [ ok _ ↦ rest | err e ↦ (mem', err e) | panic ↦ (mem', panic) ]

unfoldable pub read : FileSystem → VirtioBlk → ℕ → List Buffer → Memory → Memory × Outcome ℕ
read fs d sector bufs mem = elim (disk_offset d sector (total bufs)) [
  | ok offset ↦
      let (mem', r) = read_bufs fs d offset bufs mem in (mem', r >>= λ _. ok (u32 (total bufs)))
  | err e ↦ (mem, err e)
  | panic ↦ (mem, panic)
]

unfoldable pub write : FileSystem → VirtioBlk → ℕ → List ℕ → VirtioBlk × Outcome (Unit {0})
write fs d sector bytes = elim (disk_offset d sector (length bytes)) [
  | ok offset ↦ write_all_at fs d bytes offset
  | err e ↦ (d, err e)
  | panic ↦ (d, panic)
]

-- The match on the request type: the device, the memory, and the result with the bytes written.
unfoldable pub execute :
    FileSystem
    → Request
    → ℕ
    → List ℕ
    → List Buffer
    → VirtioBlk
    → Memory
    → VirtioBlk × Memory × Outcome ℕ
execute fs blk_in sector bytes bufs d mem =
    let (mem', r) = read fs d sector bufs mem in (d, mem', r)
execute fs blk_out sector bytes bufs d mem =
    let (d', r) = write fs d sector bytes in (d', mem, r >>= λ _. ok 0)
execute fs blk_flush sector bytes bufs d mem = (d, mem, if fs.syncs then ok 0 else err Error.os)
execute fs blk_other sector bytes bufs d mem = (d, mem, err other_error)

-- `status[0] = v`, and the used length `len`, a u32 that panics on overflow.
unfoldable pub finish : Buffer → ℕ → ℕ → VirtioBlk → Memory → VirtioBlk × Memory × Outcome ℕ
finish status v len d mem =
    if status.len == 0
    then (d, mem, panic)
    else (d, write_guest_ptr mem status.ptr (u8 v ∷ []), if leb (2 ^ 32) len then panic else ok len)

-- What follows the match.
unfoldable pub report :
    BlkBindings → Buffer → VirtioBlk → Memory → Outcome ℕ → VirtioBlk × Memory × Outcome ℕ
report b status d mem (ok written) = finish status b.virtio_blk_s_ok (written + 1) d mem
report b status d mem (err e) = finish status b.virtio_blk_s_ioerr 1 d mem
report b status d mem panic = (d, mem, panic)

-- `split_last_mut`
abbrev pub split_last {ℓ} : {A : Type ℓ} → List A → Option (A × List A)
split_last [] = none
split_last (a ∷ xs) = elim (split_last xs) [
  | none ↦ some (a, [])
  | some (z, init) ↦ some (z, a ∷ init)
]

-- process behind the two checks.
unfoldable pub serve :
    BlkBindings
    → FileSystem
    → Request
    → ℕ
    → List ℕ
    → Buffer
    → List Buffer
    → VirtioBlk
    → Memory
    → VirtioBlk × Memory × Outcome ℕ
serve b fs blk_other sector bytes status bufs d mem = finish status b.virtio_blk_s_unsupp 1 d mem
serve b fs req sector bytes status bufs d mem =
    let (d', mem', r) = execute fs req sector bytes bufs d mem in report b status d' mem' r

unfoldable pub process :
    BlkBindings → FileSystem → ℕ → DescChain → VirtioBlk → Memory → VirtioBlk × Memory × Outcome ℕ
process b fs queue chain d mem = elim (new_from b.virtio_blk_outhdr_size chain.read_buf 0) [
  | none ↦ (d, mem, err no_header)
  | some outhdr ↦ elim (split_last chain.write_buf) [
    | none ↦ (d, mem, err no_status)
    | some (status, bufs) ↦
        serve b fs (b.type_ outhdr) (b.sector outhdr) (drop b.virtio_blk_outhdr_size chain.read_buf)
          status bufs d mem
  ]
]

unfoldable pub read_config : ℕ → List ℕ → VirtioBlk → VirtioBlk × Outcome (List ℕ)
read_config offset bytes d =
    if offset == 0
    then (d, write_le32 bytes 0 (u32 d.capacity))
    else if offset == 4
    then (d, write_le32 bytes 0 (u32 (d.capacity >>> 32)))
    else (d, ok bytes)

abbrev pub features : BlkBindings → VirtioBlk → ℕ → ℕ
features b d sel = if sel == 0 then 1 <<< b.virtio_blk_f_flush else 0

abbrev pub queue_num_max : VirtioBlk → ℕ → ℕ
queue_num_max d queue = if queue == 0 then 128 else 0

-- The implementation of the VirtioDevice trait.
pub device : BlkBindings → FileSystem → VirtioDevice VirtioBlk
unfolding process read_config
device b fs = record {
  device_id = b.virtio_id_block;
  features = features b;
  queue_num_max = queue_num_max;
  read_config = read_config;
  process = process b fs;
  can_process = λ d queue. true;
}
