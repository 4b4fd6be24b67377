-- ===== src/Virtio/Blk/Disk.antt =====
-- src/virtio/blk.rs: the loop of read, over the buffers of a chain.
use kvm_rust.Base.{
  List, Outcome, [], ap, ap₂, arith, drop, length, length-drop, length-take, none, ok, refl, subst,
  sym, take, ℕ, ◌++◌, ◌+◌, ◌∙◌, ◌∷◌, ◌≡◌, ◌≤◌,
}
use kvm_rust.Memory.{Memory, Ptr, read_guest_ptr, write_guest_ptr}
use kvm_rust.Memory.Access.{read-write_len, read-write_apart}
use kvm_rust.Virtio.Buffers.{gather, Outside, Apart, take-add, drop-drop}
use kvm_rust.Virtio.Queue.{Buffer}
use kvm_rust.Virtio.Blk.{FileSystem, VirtioBlk, read_exact_at, read_bufs, total}

-- The operating system serves every access whole.
pub record IsHealthy (fs : FileSystem) : Type 0 where
  pub reads : (offset n : ℕ) → fs.read_stops offset n ≡ none
  pub writes : (offset n : ℕ) → fs.write_stops offset n ≡ none

module _ (fs : FileSystem) (healthy : IsHealthy fs) (d : VirtioBlk) where
  abbrev pub content : ℕ → ℕ → List ℕ
  content offset n = take n (drop offset d.disk)

  length-content : (offset n : ℕ) → offset + n ≤ length d.disk → length (content offset n) ≡ n
  length-content offset n h =
      omega (arith, length-take n (drop offset d.disk), length-drop offset d.disk)

  read_exact_at_lem :
      (offset : ℕ) (buf : Buffer) (mem : Memory)
      → offset + buf.len ≤ length d.disk
      → read_exact_at fs d offset buf mem
        ≡ (write_guest_ptr mem buf.ptr (content offset buf.len), ok tt)
  unfolding read_exact_at
  read_exact_at_lem offset buf mem h =
      ground (arith, healthy.reads offset buf.len, length-content offset buf.len h)

  abbrev filled : ℕ → Buffer → Memory → Memory
  filled offset buf mem = write_guest_ptr mem buf.ptr (content offset buf.len)

  read_bufs-cons :
      (offset : ℕ) (buf : Buffer) (bufs : List Buffer) (mem : Memory)
      → offset + buf.len ≤ length d.disk
      → read_bufs fs d offset (buf ∷ bufs) mem
        ≡ read_bufs fs d (offset + buf.len) bufs (filled offset buf mem)
  unfolding read_bufs
  read_bufs-cons offset buf bufs mem h = ground (arith, read_exact_at_lem offset buf mem h)

  pub read_bufs-Outside :
      (bufs : List Buffer) (offset : ℕ) (mem : Memory) (p : Ptr) (n : ℕ)
      → offset + total bufs ≤ length d.disk
      → Outside p n bufs
      → read_guest_ptr (read_bufs fs d offset bufs mem).0 p n ≡ read_guest_ptr mem p n
  read_bufs-Outside [] offset mem p n h o = unfold read_bufs in refl
  read_bufs-Outside (buf ∷ bufs) offset mem p n h o =
      rw (read_bufs-cons offset buf bufs mem (omega arith)) (
        read_bufs-Outside bufs (offset + buf.len) (filled offset buf mem) p n (omega arith) o.1
        ∙ read-write_apart mem buf.ptr p (content offset buf.len) n buf.len
            (length-content offset buf.len (omega arith)) o.0)

  pub read_bufs_lem :
      (bufs : List Buffer) (offset : ℕ) (mem : Memory)
      → offset + total bufs ≤ length d.disk
      → Apart bufs
      → let (mem', r) = read_bufs fs d offset bufs mem in
        (r ≡ ok tt) × (gather mem' bufs ≡ content offset (total bufs))
  read_bufs_lem [] offset mem h a = unfold read_bufs in (refl, refl)
  read_bufs_lem (buf ∷ bufs) offset mem h a =
      let mem1 = filled offset buf mem in
      let (done, rest) = read_bufs_lem bufs (offset + buf.len) mem1 (omega arith) a.1 in
      let first =
        read_bufs-Outside bufs (offset + buf.len) mem1 buf.ptr buf.len (omega arith) a.0
        ∙ read-write_len mem buf.ptr (content offset buf.len)
            (length-content offset buf.len (omega arith)) in
      subst
        (λ (x : Memory × Outcome (Unit {0})).
          (x.1 ≡ ok tt) × (gather x.0 (buf ∷ bufs) ≡ content offset (buf.len + total bufs)))
        (sym (read_bufs-cons offset buf bufs mem (omega arith)))
        (
          done,
          ap₂ ◌++◌ first rest
              ∙ ap (λ xs. content offset buf.len ++ take (total bufs) xs)
                  (sym (drop-drop offset buf.len d.disk))
              ∙ sym (take-add buf.len (total bufs) (drop offset d.disk)),
        )
