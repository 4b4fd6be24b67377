-- ===== src/Virtio/Queue/Chain.antt =====
-- src/virtio/queue.rs: a descriptor chain as the driver links it, and what walking it gathers.
use mathlib.Core.List.{append_assoc, append-nil}
use kvm_rust.Base.{
  Bool-cases, List, [], ap, ap₂, arith, false, if◌then◌else◌, inl, inr, length, ok, some, suc, true,
  zero, ℕ, ◌++◌, ◌<◌, ◌∙◌, ◌∷◌, ◌≡◌, ◌≤◌,
}
use kvm_rust.Memory.{Memory, Ptr, gpa_to_host, read_guest_ptr}
use kvm_rust.Virtio.Bindings.{Bindings, Desc}
use kvm_rust.Virtio.Queue.{
  VringQueue, Buffer, DescChain, guest_ptr, unwrap_ptr, is_write, has_next, get_data, get_desc_head,
  add_desc, walk,
}

-- A descriptor, and the host pointer of its buffer.
pub record Placed : Type 0 where
  pub desc : Desc
  pub ptr : Ptr

-- The descriptors from an index on, linked by `next` up to the one without a successor, each with
-- its buffer in guest memory.
pub data Linked (b : Bindings) (mem : Memory) (q : VringQueue) : ℕ → List Placed → Type 0 where
  last :
      (idx : ℕ) (e : Placed)
      → get_desc_head b mem q idx ≡ ok e.desc
      → gpa_to_host mem e.desc.addr e.desc.len ≡ some e.ptr
      → has_next b e.desc ≡ false
      → Linked b mem q idx (e ∷ [])
  link :
      (idx : ℕ) (e : Placed) (es : List Placed)
      → get_desc_head b mem q idx ≡ ok e.desc
      → gpa_to_host mem e.desc.addr e.desc.len ≡ some e.ptr
      → has_next b e.desc ≡ true
      → Linked b mem q e.desc.next es
      → Linked b mem q idx (e ∷ es)

pub Linked-pos :
    {b : Bindings} {mem : Memory} {q : VringQueue} {idx : ℕ} {es : List Placed}
    → Linked b mem q idx es
    → 0 < length es
Linked-pos (last _ e g p x) = omega arith
Linked-pos (link _ e es g p x l) = omega arith

regroup {ℓ} : {A : Type ℓ} (xs ys zs : List A) → (xs ++ (ys ++ [])) ++ zs ≡ xs ++ (ys ++ zs)
regroup xs ys zs = simp (append-nil, append_assoc)

pub guest_ptr-some :
    (mem : Memory) (gpa len : ℕ) {p : Ptr}
    → gpa_to_host mem gpa len ≡ some p
    → guest_ptr mem gpa len ≡ ok p
unfolding guest_ptr
guest_ptr-some mem gpa len h = ground arith

get_data-some :
    (mem : Memory) (d : Desc) {p : Ptr}
    → gpa_to_host mem d.addr d.len ≡ some p
    → get_data mem d ≡ ok (read_guest_ptr mem p d.len)
unfolding get_data unwrap_ptr
get_data-some mem d h = ground arith

module _ (b : Bindings) (mem : Memory) where
  -- What the chain holds for the device to read: the bytes of its readable buffers, in order.
  abbrev pub readable : List Placed → List ℕ
  readable [] = []
  readable (e ∷ es) =
      (if is_write b e.desc then [] else read_guest_ptr mem e.ptr e.desc.len) ++ readable es

  -- And for the device to write: its writable buffers, in order.
  abbrev pub writable : List Placed → List Buffer
  writable [] = []
  writable (e ∷ es) =
      (if is_write b e.desc then record { ptr = e.ptr; len = e.desc.len } ∷ [] else [])
      ++ writable es

  abbrev bytes : Placed → List ℕ
  bytes e = read_guest_ptr mem e.ptr e.desc.len

  abbrev buffer : Placed → Buffer
  buffer e = record { ptr = e.ptr; len = e.desc.len }

  abbrev pub gathered : DescChain → List Placed → DescChain
  gathered c es = record c {
    read_buf = c.read_buf ++ readable es;
    write_buf = c.write_buf ++ writable es;
  }

  abbrev gathered_one : DescChain → Placed → DescChain
  gathered_one c e = gathered c (e ∷ [])

  add_desc_placed :
      (e : Placed) (c : DescChain)
      → gpa_to_host mem e.desc.addr e.desc.len ≡ some e.ptr
      → add_desc b mem e.desc c ≡ ok (gathered_one c e)
  unfolding add_desc
  add_desc_placed e c h = elim (Bool-cases (is_write b e.desc)) [
    | inl w ↦ rw (w, guest_ptr-some mem _ _ h, append-nil c.read_buf)
    | inr r ↦ rw (r, get_data-some mem e.desc h, append-nil c.write_buf, append-nil (bytes e))
  ]

  gathered-cons :
      (e : Placed) (es : List Placed) (c : DescChain)
      → gathered (gathered_one c e) es ≡ gathered c (e ∷ es)
  gathered-cons e es c =
      ap₂ (λ (r : List ℕ) (w : List Buffer). record c { read_buf = r; write_buf = w })
        (regroup c.read_buf _ (readable es)) (regroup c.write_buf _ (writable es))

  pub walk-Linked :
      (q : VringQueue) (n idx : ℕ) (es : List Placed) (c : DescChain)
      → Linked b mem q idx es
      → length es ≤ n
      → walk b mem q n idx c ≡ ok (gathered c es)
  unfolding walk
  walk-Linked q zero idx es c (last _ e g p x) h = absurd (omega arith)
  walk-Linked q zero idx es c (link _ e es' g p x l) h = absurd (omega arith)
  walk-Linked q (suc n) idx es c (last _ e g p x) h = rw (g, add_desc_placed e c p, x)
  walk-Linked q (suc n) idx es c (link _ e es' g p x l) h =
      rw (g, add_desc_placed e c p, x)
        (walk-Linked q n e.desc.next es' (gathered_one c e) l (omega arith)
          ∙ ap ok (gathered-cons e es' c))
