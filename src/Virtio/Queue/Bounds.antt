-- ===== src/Virtio/Queue/Bounds.antt =====
-- src/virtio/queue.rs: pop_avail, for descriptors of any content.
use kvm_rust.Base.{
  >>=-eq-ok, All, All-append, Bool-cases, Option, Option-cases, Outcome, [], arith, err, get_elem?,
  inl, inr, length, length-append, none, ok, ok-injective, panic, refl, some, subst, suc, zero, ℕ,
  ◌*◌, ◌++◌, ◌+◌, ◌==◌, ◌∷◌, ◌≡◌, ◌≢◌, ◌≤◌,
}
use kvm_rust.Memory.{Memory, MemRegion, Ptr, gpa_to_host}
use kvm_rust.Memory.Lookup.{IsSized, gpa_to_host_lem}
use kvm_rust.Virtio.Bindings.{Bindings, Desc}
use kvm_rust.Virtio.Queue.{
  VringQueue, Buffer, DescChain, guest_ptr, is_write, has_next, get_data, get_desc_head, add_desc,
  walk, chain_at, next_chain, advance, settle, pop_avail,
}

-- The buffer lies within one region of guest memory.
abbrev pub InBounds : Memory → Buffer → Type 0
InBounds mem buf =
    (r : MemRegion) × (get_elem? mem.regions buf.ptr.region ≡ some r)
    × (buf.ptr.off + buf.len ≤ r.mem_size)

guest_ptr-InBounds :
    (mem : Memory) (gpa len : ℕ) (p : Ptr)
    → All IsSized mem.regions
    → guest_ptr mem gpa len ≡ ok p
    → InBounds mem (record { ptr = p; len = len })
unfolding guest_ptr
guest_ptr-InBounds mem gpa len p s e = elim (Option-cases (gpa_to_host mem gpa len)) [
  | inl outside ↦ absurd (ground arith)
  | inr (p', found) ↦
      let (r, there, base, fits) = (gpa_to_host_lem mem gpa len s).0 p' found in
      (r, ground arith, ground arith)
]

-- The chain has buffers in bounds, and at most `n` of them.
record IsSafe (mem : Memory) (n : ℕ) (c : DescChain) : Type 0 where
  inside : All (InBounds mem) c.write_buf
  few : length c.write_buf ≤ n

module _ (b : Bindings) (mem : Memory) (s : All IsSized mem.regions) where
  add_write :
      (d : Desc) (n : ℕ) (c c' : DescChain) (p : Ptr)
      → IsSafe mem n c
      → guest_ptr mem d.addr d.len ≡ ok p
      → record c { write_buf = c.write_buf ++ record { ptr = p; len = d.len } ∷ [] } ≡ c'
      → IsSafe mem (suc n) c'
  add_write d n c c' p v g e = subst (IsSafe mem (suc n)) e (record {
    inside =
        All-append (InBounds mem) c.write_buf _ v.inside
          (guest_ptr-InBounds mem d.addr d.len p s g, tt);
    few = omega (arith, length-append c.write_buf (record { ptr = p; len = d.len } ∷ []));
  })

  add_desc-IsSafe :
      (d : Desc) (n : ℕ) (c c' : DescChain)
      → IsSafe mem n c
      → add_desc b mem d c ≡ ok c'
      → IsSafe mem (suc n) c'
  unfolding add_desc
  add_desc-IsSafe d n c c' v e = elim (Bool-cases (is_write b d)) [
    | inl w ↦
        let (p, g, done) = >>=-eq-ok (guest_ptr mem d.addr d.len) _ (rw w at e) in
        add_write d n c c' p v g (ok-injective done)
    | inr r ↦
        let (bytes, g, done) = >>=-eq-ok (get_data mem d) _ (rw r at e) in
        subst (IsSafe mem (suc n)) (ok-injective done)
          (record { inside = v.inside; few = omega arith })
  ]

  walk-IsSafe :
      (q : VringQueue) (k n idx : ℕ) (c c' : DescChain)
      → IsSafe mem n c
      → walk b mem q k idx c ≡ ok c'
      → IsSafe mem (n + k) c'
  unfolding walk
  walk-IsSafe q zero n idx c c' v e =
      subst (IsSafe mem (n + 0)) (ok-injective e) (record { inside = v.inside; few = omega arith })
  walk-IsSafe q (suc k) n idx c c' v e =
      let (d, g, step) = >>=-eq-ok (get_desc_head b mem q idx) _ e in
      let (c1, added, rest) = >>=-eq-ok (add_desc b mem d c) _ step in
      let v1 = add_desc-IsSafe d n c c1 v added in
      elim (Bool-cases (has_next b d)) [
        | inl more ↦
            let v' = walk-IsSafe q k (suc n) d.next c1 c' v1 (rw more at rest) in
            record { inside = v'.inside; few = omega arith }
        | inr stop ↦
            subst (IsSafe mem (n + suc k)) (ok-injective (rw stop at rest))
              (record { inside = v1.inside; few = omega arith })
      ]

  chain_at-IsSafe :
      (q : VringQueue) (p : Ptr) (idx : ℕ) (c : DescChain)
      → chain_at b mem q p idx ≡ ok (some c)
      → IsSafe mem q.num c
  unfolding chain_at
  chain_at-IsSafe q p idx c e = elim (Bool-cases (q.last_avail_idx == idx)) [
    | inl none_new ↦ absurd (ground arith)
    | inr new ↦ elim (Bool-cases (q.num == 0)) [
      | inl empty ↦ absurd (ground arith)
      | inr some_room ↦
          let (c1, walked, done) =
            >>=-eq-ok (walk b mem q q.num _ _) _ (rw (new, some_room) at e) in
          let v = walk-IsSafe q q.num 0 _ _ c1 (record { inside = tt; few = omega arith }) walked in
          subst (IsSafe mem q.num) {x = c1} (ground arith)
            (record { inside = v.inside; few = omega arith })
    ]
  ]

  next_chain-IsSafe :
      (q : VringQueue) (c : DescChain) → next_chain b mem q ≡ ok (some c) → IsSafe mem q.num c
  unfolding next_chain
  next_chain-IsSafe q c e =
      let (p, g, rest) = >>=-eq-ok (guest_ptr mem q.avail (b.vring_avail_size + 2 * q.num)) _ e in
      chain_at-IsSafe q p _ c rest

  abbrev Settled : VringQueue → VringQueue → Outcome (Option DescChain) → Type 0
  Settled q q' r =
      ((c : DescChain)
        → r ≡ ok (some c)
        → All (InBounds mem) c.write_buf × (length c.write_buf ≤ q.num) × (q' ≡ advance q))
      × (((c : DescChain) → r ≢ ok (some c)) → q' ≡ q)

  settle-Settled :
      (q : VringQueue) (r : Outcome (Option DescChain))
      → ((c : DescChain) → r ≡ ok (some c) → IsSafe mem q.num c)
      → Settled q (settle q r).0 (settle q r).1
  unfolding settle
  settle-Settled q (ok none) h = (λ c e. absurd (ground arith), λ ne. refl)
  settle-Settled q (ok (some c)) h =
      (λ c' e. let v = h c' e in (v.inside, v.few, refl), λ ne. absurd (ne c refl))
  settle-Settled q (err e) h = (λ c e'. absurd (ground arith), λ ne. refl)
  settle-Settled q panic h = (λ c e. absurd (ground arith), λ ne. refl)

  -- Whatever the guest writes into its descriptors: a chain that is taken has at most `num` writable
  -- buffers, each of them within guest memory, and the queue moves on by one slot; without a chain
  -- the queue stays as it is.
  pub pop_avail_safe :
      (q : VringQueue)
      → let (q', r) = pop_avail b mem q in
        ((c : DescChain)
          → r ≡ ok (some c)
          → All (InBounds mem) c.write_buf × (length c.write_buf ≤ q.num) × (q' ≡ advance q))
        × (((c : DescChain) → r ≢ ok (some c)) → q' ≡ q)
  unfolding pop_avail
  pop_avail_safe q = settle-Settled q (next_chain b mem q) (λ c e. next_chain-IsSafe q c e)
