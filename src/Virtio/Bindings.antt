-- ===== src/Virtio/Bindings.antt =====
-- The virtio definitions that src/virtio takes from the kernel headers through the generated
-- bindings, which are not part of the repository: sizes, field access and flags.
use kvm_rust.Base.{List, [], arith, drop, length, refl, take, ℕ, ◌*◌, ◌++◌, ◌+◌, ◌∷◌, ◌≡◌}
use kvm_rust.Util.Binary.{to_le_bytes, from_le_bytes}

-- vring_desc
pub record Desc : Type 0 where
  pub addr : ℕ
  pub len : ℕ
  pub flags : ℕ
  pub next : ℕ

pub record Bindings : Type 0 where
  pub vring_desc_size : ℕ
  pub vring_avail_size : ℕ
  pub vring_used_size : ℕ
  pub vring_used_elem_size : ℕ
  pub desc : List ℕ → Desc
  pub avail_idx : List ℕ → ℕ
  pub used_idx : List ℕ → ℕ
  pub used_elem : ℕ → ℕ → List ℕ
  pub vring_desc_f_next : ℕ
  pub vring_desc_f_write : ℕ

-- The layout of the used ring that the code relies on: the index is the little-endian number in
-- the third and fourth byte, and the ring begins behind it.
pub record IsVring (b : Bindings) : Type 0 where
  pub used_header : b.vring_used_size ≡ 4
  pub used_index : (b0 b1 b2 b3 : ℕ) → b.used_idx (b0 ∷ b1 ∷ b2 ∷ b3 ∷ []) ≡ b2 + 256 * b3
  pub elem_bytes : (id len : ℕ) → length (b.used_elem id len) ≡ b.vring_used_elem_size

abbrev desc_of : List ℕ → Desc
desc_of bytes = record {
  addr = from_le_bytes (take 8 bytes);
  len = from_le_bytes (take 4 (drop 8 bytes));
  flags = from_le_bytes (take 2 (drop 12 bytes));
  next = from_le_bytes (take 2 (drop 14 bytes));
}

abbrev index_of : List ℕ → ℕ
index_of bytes = from_le_bytes (take 2 (drop 2 bytes))

-- The bindings of the Linux headers, for the tests.
abbrev pub linux : Bindings
linux = record {
  vring_desc_size = 16;
  vring_avail_size = 4;
  vring_used_size = 4;
  vring_used_elem_size = 8;
  desc = desc_of;
  avail_idx = index_of;
  used_idx = index_of;
  used_elem = λ id len. to_le_bytes 4 id ++ to_le_bytes 4 len;
  vring_desc_f_next = 1;
  vring_desc_f_write = 2;
}

pub linux-IsVring : IsVring linux
linux-IsVring = record {
  used_header = refl;
  used_index = λ b0 b1 b2 b3. omega arith;
  elem_bytes = λ id len. refl;
}
