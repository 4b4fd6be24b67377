-- ===== src/Virtio/Net/Delivery.antt =====
-- src/virtio/net.rs: the copy of a frame into the buffers of a chain.
use native.Mathlib.Decide.{dec_lt}
use kvm_rust.Base.{
  List, [], ap, ap₂, arith, drop, length, length-drop, length-take, min, ok, refl, subst, suc, sym,
  take, zero, ℕ, ◌++◌, ◌+◌, ◌-◌, ◌<◌, ◌^◌, ◌∙◌, ◌∷◌, ◌≡◌, ◌≤◌,
}
use kvm_rust.Memory.{Memory, Ptr, bytes_from, read_guest_ptr, write_guest_ptr}
use kvm_rust.Memory.Access.{Disjoint, length-read, read-write_len, read-write_apart}
use kvm_rust.Virtio.Buffers.{gather, Outside, Apart, take-add}
use kvm_rust.Virtio.Queue.{Buffer, DescChain}
use kvm_rust.Virtio.Net.{VirtioNet, copy_frame, process_rx}

abbrev pub room : List Buffer → ℕ
room [] = 0
room (buf ∷ bufs) = buf.len + room bufs

take-bytes_from : (f : ℕ → ℕ) (o k n : ℕ) → k ≤ n → take k (bytes_from f o n) ≡ bytes_from f o k
take-bytes_from f o zero n h = refl
take-bytes_from f o (suc k) zero h = absurd (omega arith)
take-bytes_from f o (suc k) (suc n) h =
    ap (λ t. f o ∷ t) (take-bytes_from f (suc o) k n (omega arith))

take-read :
    (mem : Memory) (p : Ptr) (k n : ℕ)
    → k ≤ n
    → take k (read_guest_ptr mem p n) ≡ read_guest_ptr mem p k
unfolding read_guest_ptr
take-read mem p k n h = take-bytes_from (mem.ram p.region) p.off k n h

take_within {ℓ} :
    {A : Type ℓ} (k : ℕ) (xs bs : List A) → k ≤ length xs → take k (xs ++ bs) ≡ take k xs
take_within zero xs bs h = refl
take_within (suc k) [] bs h = absurd (omega arith)
take_within (suc k) (a ∷ xs) bs h = ap (λ t. a ∷ t) (take_within k xs bs (omega arith))

take_beyond {ℓ} :
    {A : Type ℓ} (k : ℕ) (xs bs : List A)
    → length xs ≤ k
    → take k (xs ++ bs) ≡ xs ++ take (k - length xs) bs
take_beyond k [] bs h = ap (λ n. take n bs) (omega arith)
take_beyond zero (a ∷ xs) bs h = absurd (omega arith)
take_beyond (suc k) (a ∷ xs) bs h =
    ap (λ t. a ∷ t) (take_beyond k xs bs (omega arith) ∙ ap (λ n. xs ++ take n bs) (omega arith))

take_all {ℓ} : {A : Type ℓ} (k : ℕ) (xs : List A) → length xs ≤ k → take k xs ≡ xs
take_all zero [] h = refl
take_all (suc k) [] h = refl
take_all zero (a ∷ xs) h = absurd (omega arith)
take_all (suc k) (a ∷ xs) h = ap (λ t. a ∷ t) (take_all k xs (omega arith))

copy_frame-none : (bufs : List Buffer) (mem : Memory) → copy_frame [] bufs mem ≡ (mem, 0)
unfolding copy_frame
copy_frame-none [] mem = refl
copy_frame-none (buf ∷ bufs) mem = refl

abbrev part : List ℕ → Buffer → List ℕ
part frame buf = take (min buf.len (length frame)) frame

abbrev left : List ℕ → Buffer → List ℕ
left frame buf = drop (min buf.len (length frame)) frame

abbrev after_first : List ℕ → Buffer → Memory → Memory
after_first frame buf mem = write_guest_ptr mem buf.ptr (part frame buf)

length-part : (frame : List ℕ) (buf : Buffer) → length (part frame buf) ≡ min buf.len (length frame)
length-part frame buf = omega (arith, length-take (min buf.len (length frame)) frame)

length-left : (frame : List ℕ) (buf : Buffer) → length (left frame buf) ≡ length frame - buf.len
length-left frame buf = omega (arith, length-drop (min buf.len (length frame)) frame)

copy_frame-cons :
    (frame : List ℕ) (buf : Buffer) (bufs : List Buffer) (mem : Memory)
    → 0 < length frame
    → copy_frame frame (buf ∷ bufs) mem ≡ (
      (copy_frame (left frame buf) bufs (after_first frame buf mem)).0,
      min buf.len (length frame) + (copy_frame (left frame buf) bufs (after_first frame buf mem)).1,
    )
unfolding copy_frame
copy_frame-cons frame buf bufs mem h = ground arith

narrow : (p q : Ptr) (n k m : ℕ) → k ≤ n → Disjoint p n q m → Disjoint p k q m
narrow p q n k m h d = ground arith

-- Memory apart from all buffers is left alone.
copy_frame-Outside :
    (bufs : List Buffer) (frame : List ℕ) (mem : Memory) (p : Ptr) (n : ℕ)
    → Outside p n bufs
    → read_guest_ptr (copy_frame frame bufs mem).0 p n ≡ read_guest_ptr mem p n
copy_frame-Outside [] frame mem p n o = unfold copy_frame in refl
copy_frame-Outside (buf ∷ bufs) [] mem p n o =
    ap (λ x. read_guest_ptr x.0 p n) (copy_frame-none (buf ∷ bufs) mem)
copy_frame-Outside (buf ∷ bufs) (b ∷ bs) mem p n o =
    let frame = b ∷ bs in
    ap (λ x. read_guest_ptr x.0 p n) (copy_frame-cons frame buf bufs mem (omega arith))
    ∙ copy_frame-Outside bufs (left frame buf) (after_first frame buf mem) p n o.1
    ∙ read-write_apart mem buf.ptr p (part frame buf) n (min buf.len (length frame))
        (length-part frame buf)
        (narrow buf.ptr p buf.len (min buf.len (length frame)) n (omega arith) o.0)

drop_all {ℓ} : {A : Type ℓ} (k : ℕ) (xs : List A) → length xs ≤ k → drop k xs ≡ []
drop_all zero [] h = refl
drop_all (suc k) [] h = refl
drop_all zero (a ∷ xs) h = absurd (omega arith)
drop_all (suc k) (a ∷ xs) h = drop_all k xs (omega arith)

-- What copying the frame comes to.
abbrev Delivers : List ℕ → List Buffer → Memory × ℕ → Type 0
Delivers frame bufs (mem', copied) =
    (copied ≡ min (room bufs) (length frame))
    × (take (length frame) (gather mem' bufs) ≡ take (room bufs) frame)

-- The rest of the frame fits into the first buffer.
last_part :
    (frame : List ℕ) (buf : Buffer) (bufs : List Buffer) (mem : Memory)
    → length frame ≤ buf.len
    → let (mem', copied) = copy_frame (left frame buf) bufs (after_first frame buf mem) in
      Delivers frame (buf ∷ bufs) (mem', min buf.len (length frame) + copied)
last_part frame buf bufs mem h =
    let mem1 = after_first frame buf mem in
    let none_left : left frame buf ≡ [] =
      drop_all (min buf.len (length frame)) frame (omega arith) in
    let nothing : copy_frame (left frame buf) bufs mem1 ≡ (mem1, 0) =
      ap (λ f. copy_frame f bufs mem1) none_left ∙ copy_frame-none bufs mem1 in
    subst (λ (x : Memory × ℕ). Delivers frame (buf ∷ bufs) (x.0, min buf.len (length frame) + x.1))
      (sym nothing)
      (
        omega arith,
        take_within (length frame) (read_guest_ptr mem1 buf.ptr buf.len) (gather mem1 bufs)
              (omega (arith, length-read mem1 buf.ptr buf.len))
            ∙ take-read mem1 buf.ptr (length frame) buf.len h
            ∙ read-write_len mem buf.ptr (part frame buf) (omega (arith, length-part frame buf))
            ∙ take_all (min buf.len (length frame)) frame (omega arith)
            ∙ sym (take_all (buf.len + room bufs) frame (omega arith)),
      )

-- The first buffer is filled, and the others take the rest.
first_part :
    (frame : List ℕ) (buf : Buffer) (bufs : List Buffer) (mem : Memory)
    → buf.len ≤ length frame
    → Outside buf.ptr buf.len bufs
    → Delivers (left frame buf) bufs (copy_frame (left frame buf) bufs (after_first frame buf mem))
    → let (mem', copied) = copy_frame (left frame buf) bufs (after_first frame buf mem) in
      Delivers frame (buf ∷ bufs) (mem', min buf.len (length frame) + copied)
first_part frame buf bufs mem h o (count, bytes) =
    let mem1 = after_first frame buf mem in
    let mem' = (copy_frame (left frame buf) bufs mem1).0 in
    let whole : min buf.len (length frame) ≡ buf.len = omega arith in
    let first : read_guest_ptr mem' buf.ptr buf.len ≡ part frame buf =
      copy_frame-Outside bufs (left frame buf) mem1 buf.ptr buf.len o
      ∙ read-write_len mem buf.ptr (part frame buf) (omega (arith, length-part frame buf)) in
    let rest : length frame - length (read_guest_ptr mem' buf.ptr buf.len)
        ≡ length (left frame buf) =
      omega (arith, length-read mem' buf.ptr buf.len, length-left frame buf) in
    (
      omega (arith, count, length-left frame buf),
      take_beyond (length frame) (read_guest_ptr mem' buf.ptr buf.len) (gather mem' bufs)
            (omega (arith, length-read mem' buf.ptr buf.len))
          ∙ ap₂ ◌++◌ first (ap (λ k. take k (gather mem' bufs)) rest ∙ bytes)
          ∙ ap (λ k. take k frame ++ take (room bufs) (drop k frame)) whole
          ∙ sym (take-add buf.len (room bufs) frame),
    )

copy_frame_lem :
    (bufs : List Buffer) (frame : List ℕ) (mem : Memory)
    → Apart bufs
    → Delivers frame bufs (copy_frame frame bufs mem)
copy_frame_lem [] frame mem a =
    unfold copy_frame in (omega arith, take_all (length frame) [] (omega arith))
copy_frame_lem (buf ∷ bufs) [] mem a =
    subst (Delivers [] (buf ∷ bufs)) (sym (copy_frame-none (buf ∷ bufs) mem))
      (omega arith, sym (take_all (buf.len + room bufs) [] (omega arith)))
copy_frame_lem (buf ∷ bufs) (b ∷ bs) mem a =
    let frame = b ∷ bs in
    subst (Delivers frame (buf ∷ bufs)) (sym (copy_frame-cons frame buf bufs mem (omega arith)))
      (elim (dec_lt (length frame) buf.len) [
        | yes fits ↦ last_part frame buf bufs mem (omega arith)
        | no long ↦
            first_part frame buf bufs mem (omega arith) a.0
              (copy_frame_lem bufs (left frame buf) (after_first frame buf mem) a.1)
      ])

-- Taking a chain of the receive queue delivers the oldest pending frame and takes it off the queue:
-- the chain's buffers, read one after the other, begin with as much of the frame as they have room
-- for, and that many bytes are reported. The buffers do not overlap, and the report is a 32-bit
-- number.
pub process_rx_delivers :
    (chain : DescChain) (frame : List ℕ) (frames : List (List ℕ)) (d : VirtioNet) (mem : Memory)
    → d.rx_pending ≡ frame ∷ frames
    → Apart chain.write_buf
    → room chain.write_buf < 2 ^ 32
    → let (d', mem', r) = process_rx chain d mem in
      (d'.rx_pending ≡ frames)
      × (r ≡ ok (min (room chain.write_buf) (length frame)))
      × (take (length frame) (gather mem' chain.write_buf) ≡ take (room chain.write_buf) frame)
unfolding process_rx
process_rx_delivers chain frame frames d mem e a small =
    let (count, bytes) = copy_frame_lem chain.write_buf frame mem a in
    rw e (refl, ground (arith, count), bytes)
