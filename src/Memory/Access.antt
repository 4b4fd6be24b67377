-- ===== src/Memory/Access.antt =====
-- read_guest_ptr and write_guest_ptr of src/main.rs: what a read gives after a write.
use kvm_rust.Base.{
  List, [], ap, ap₂, arith, get_or, length, refl, subst, suc, sym, zero, ℕ, ◌+◌, ◌<◌, ◌∙◌, ◌∷◌, ◌≡◌,
  ◌≢◌, ◌≤◌, ◌⊎◌,
}
use kvm_rust.Memory.{Memory, Ptr, bytes_from, read_guest_ptr, write_guest_ptr}

bytes_from-cong :
    (f g : ℕ → ℕ) (o n : ℕ)
    → ((i : ℕ) → o ≤ i → i < o + n → f i ≡ g i)
    → bytes_from f o n ≡ bytes_from g o n
bytes_from-cong f g o zero h = refl
bytes_from-cong f g o (suc n) h =
    ap₂ ◌∷◌ (h o (omega arith) (omega arith))
      (bytes_from-cong f g (suc o) n (λ i p q. h i (omega arith) (omega arith)))

pub length-read : (mem : Memory) (p : Ptr) (n : ℕ) → length (read_guest_ptr mem p n) ≡ n
unfolding read_guest_ptr
length-read mem p n = go (mem.ram p.region) p.off n
  where
    go : (f : ℕ → ℕ) (o k : ℕ) → length (bytes_from f o k) ≡ k
    go f o zero = refl
    go f o (suc k) = ap suc (go f (suc o) k)

-- A run of bytes that holds a list.
bytes_from-list :
    (f : ℕ → ℕ) (o : ℕ) (bytes : List ℕ)
    → ((i : ℕ) → i < length bytes → f (o + i) ≡ get_or bytes i 0)
    → bytes_from f o (length bytes) ≡ bytes
bytes_from-list f o [] h = refl
bytes_from-list f o (b ∷ bs) h =
    ap₂ ◌∷◌ (let e : o ≡ o + 0 = omega arith in ap f e ∙ h 0 (omega arith)) (
      bytes_from-list f (suc o) bs
        (λ i q. let e : suc o + i ≡ o + suc i = omega arith in ap f e ∙ h (suc i) (omega arith)))

-- A read of what was just written gives it.
pub read-write :
    (mem : Memory) (p : Ptr) (bytes : List ℕ)
    → read_guest_ptr (write_guest_ptr mem p bytes) p (length bytes) ≡ bytes
unfolding read_guest_ptr write_guest_ptr
read-write mem p bytes = bytes_from-list _ p.off bytes (λ i h. ground arith)

-- Ranges that share no byte.
abbrev pub Disjoint : Ptr → ℕ → Ptr → ℕ → Type 0
Disjoint p n q m = (p.region ≢ q.region) ⊎ ((p.off + n ≤ q.off) ⊎ (q.off + m ≤ p.off))

-- A write elsewhere is not seen.
pub read-write_ne :
    (mem : Memory) (p q : Ptr) (bytes : List ℕ) (m : ℕ)
    → Disjoint p (length bytes) q m
    → read_guest_ptr (write_guest_ptr mem p bytes) q m ≡ read_guest_ptr mem q m
unfolding read_guest_ptr write_guest_ptr
read-write_ne mem p q bytes m d = bytes_from-cong _ _ q.off m (λ i lo hi. ground arith)

-- The same where the length is known by another name.
pub read-write_len :
    (mem : Memory) (p : Ptr) (bytes : List ℕ) {n : ℕ}
    → length bytes ≡ n
    → read_guest_ptr (write_guest_ptr mem p bytes) p n ≡ bytes
read-write_len mem p bytes e = rw (← e) (read-write mem p bytes)

pub read-write_apart :
    (mem : Memory) (p q : Ptr) (bytes : List ℕ) (m n : ℕ)
    → length bytes ≡ n
    → Disjoint p n q m
    → read_guest_ptr (write_guest_ptr mem p bytes) q m ≡ read_guest_ptr mem q m
read-write_apart mem p q bytes m n e d =
    read-write_ne mem p q bytes m (subst (λ k. Disjoint p k q m) (sym e) d)
