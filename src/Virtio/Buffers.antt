-- ===== src/Virtio/Buffers.antt =====
-- The write buffers of a chain of src/virtio/queue.rs: what they hold, and where they lie.
use kvm_rust.Base.{
  All, List, [], ap, ap₂, arith, drop, length, refl, suc, sym, take, zero, ℕ, ◌++◌, ◌+◌, ◌∙◌, ◌∷◌,
  ◌≡◌,
}
use kvm_rust.Memory.{Memory, Ptr, read_guest_ptr, write_guest_ptr}
use kvm_rust.Memory.Access.{Disjoint, read-write_ne}
use kvm_rust.Virtio.Queue.{Buffer}

-- The bytes of the buffers, one after the other.
abbrev pub gather : Memory → List Buffer → List ℕ
gather mem [] = []
gather mem (buf ∷ bufs) = read_guest_ptr mem buf.ptr buf.len ++ gather mem bufs

-- A range apart from every buffer, and buffers pairwise apart.
abbrev pub Outside : Ptr → ℕ → List Buffer → Type 0
Outside p n bufs = All (λ (buf : Buffer). Disjoint buf.ptr buf.len p n) bufs

abbrev pub Apart : List Buffer → Type 0
Apart [] = Unit
Apart (buf ∷ bufs) = Outside buf.ptr buf.len bufs × Apart bufs

module _ {ℓ} {A : Type ℓ} where
  take_nil : (n : ℕ) → take {A = A} n [] ≡ []
  take_nil zero = refl
  take_nil (suc n) = refl

  drop_nil : (n : ℕ) → drop {A = A} n [] ≡ []
  drop_nil zero = refl
  drop_nil (suc n) = refl

  pub take-add : (m n : ℕ) (xs : List A) → take (m + n) xs ≡ take m xs ++ take n (drop m xs)
  take-add zero n xs = ap (λ k. take k xs) (omega arith)
  take-add (suc m) n [] = take_nil (suc m + n) ∙ sym (take_nil n)
  take-add (suc m) n (a ∷ xs) =
      let e : suc m + n ≡ suc (m + n) = omega arith in rw e (ap (λ t. a ∷ t) (take-add m n xs))

  pub drop-drop : (m n : ℕ) (xs : List A) → drop n (drop m xs) ≡ drop (m + n) xs
  drop-drop zero n xs = ap (λ k. drop k xs) (omega arith)
  drop-drop (suc m) n [] = drop_nil n ∙ sym (drop_nil (suc m + n))
  drop-drop (suc m) n (a ∷ xs) =
      let e : suc m + n ≡ suc (m + n) = omega arith in rw e (drop-drop m n xs)

-- A write apart from the buffers leaves what they hold.
pub gather-write :
    (mem : Memory) (p : Ptr) (bytes : List ℕ) (bufs : List Buffer)
    → Outside p (length bytes) bufs
    → gather (write_guest_ptr mem p bytes) bufs ≡ gather mem bufs
gather-write mem p bytes [] o = refl
gather-write mem p bytes (buf ∷ bufs) o =
    ap₂ ◌++◌ (read-write_ne mem p buf.ptr bytes buf.len (turned o.0))
      (gather-write mem p bytes bufs o.1)
  where
    turned : Disjoint buf.ptr buf.len p (length bytes) → Disjoint p (length bytes) buf.ptr buf.len
    turned d = ground arith
