-- ===== src/Vm/Ring/Drain.antt =====
-- drain of src/main.rs, against the queue that the ring stands for.
use native.Mathlib.Nat.{mod-eq_of_lt, mod_self}
use kvm_rust.Vm.Ring.{CoalescedMmio, CoalescedRing, queued_write, drain_from, drain}
use kvm_rust.Base.{
  Bool-cases, List, [], ap, arith, drop, false, get_elem?, if◌then◌else◌, inl, inr, leb, length,
  length-append, length-drop, length-take, map, refl, some, suc, sym, take, take-append-drop, zero,
  ℕ, ◌%◌, ◌++◌, ◌+◌, ◌-◌, ◌<◌, ◌==◌, ◌∙◌, ◌∷◌, ◌≡◌, ◌≤◌,
}

-- The entries that a reader at `i` has before it: those behind `i`, and then those from the start.
abbrev pub from_index : ℕ → List CoalescedMmio → List CoalescedMmio
from_index i es = drop i es ++ take i es

-- How many are queued.
abbrev pub queue_length : ℕ → ℕ → ℕ → ℕ
queue_length n i end = if leb i end then end - i else n - i + end

next_index : (n i : ℕ) → i < n → (i + 1) % n ≡ (if i + 1 == n then 0 else i + 1)
next_index n i lt = elim (Bool-cases (i + 1 == n)) [
  | inl last ↦ rw last (ap (λ k. k % n) (ground (arith, last)) ∙ mod_self n)
  | inr more ↦ rw more (mod-eq_of_lt (ground arith))
]

drop_at :
    (es : List CoalescedMmio) (i : ℕ)
    → i < length es
    → (e : CoalescedMmio) × (get_elem? es i ≡ some e)
      × (drop i es ≡ e ∷ drop (suc i) es)
      × (take (suc i) es ≡ take i es ++ e ∷ [])
drop_at [] i lt = absurd (omega arith)
drop_at (x ∷ es) zero lt = (x, refl, refl, refl)
drop_at (x ∷ es) (suc i) lt =
    let (e, at, dropped, taken) = drop_at es i (omega arith) in
    (e, at, dropped, ap (λ t. x ∷ t) taken)

take_prefix : (k : ℕ) (xs bs : List CoalescedMmio) → k ≤ length xs → take k (xs ++ bs) ≡ take k xs
take_prefix zero xs bs le = refl
take_prefix (suc k) [] bs le = absurd (omega arith)
take_prefix (suc k) (x ∷ xs) bs le = ap (λ t. x ∷ t) (take_prefix k xs bs (omega arith))

append_assoc : (xs bs cs : List CoalescedMmio) → (xs ++ bs) ++ cs ≡ xs ++ (bs ++ cs)
append_assoc [] bs cs = refl
append_assoc (x ∷ xs) bs cs = ap (λ t. x ∷ t) (append_assoc xs bs cs)

append_nil : (xs : List CoalescedMmio) → xs ++ [] ≡ xs
append_nil [] = refl
append_nil (x ∷ xs) = ap (λ t. x ∷ t) (append_nil xs)

drop_all : (n : ℕ) (es : List CoalescedMmio) → length es ≤ n → drop n es ≡ []
drop_all zero [] le = refl
drop_all zero (x ∷ es) le = absurd (omega arith)
drop_all (suc n) [] le = refl
drop_all (suc n) (x ∷ es) le = drop_all n es (omega arith)

add_one : (i : ℕ) → i + 1 ≡ suc i
add_one i = omega arith

-- The entries behind the one at `i` are those at the next index, up to a lap.
from_index_next :
    (es : List CoalescedMmio) (i k : ℕ)
    → i < length es
    → k < length es
    → (i + 1 ≡ length es → k ≤ i)
    → take k (from_index ((i + 1) % length es) es) ≡ take k (drop (suc i) es ++ take i es)
from_index_next es i k lt kn wraps = elim (Bool-cases (i + 1 == length es)) [
  | inl last ↦
      rw
        (
          next_index (length es) i lt,
          last,
          drop_all (suc i) es (ground (arith, last)),
          append_nil es,
        )
        (sym (ap (take k) (take-append-drop i es))
          ∙ take_prefix k (take i es) (drop i es)
              (omega (arith, length-take i es, wraps (ground (arith, last)))))
  | inr more ↦
      let (e, at, dropped, taken) = drop_at es i lt in
      rw (next_index (length es) i lt, more)
        (ap (λ j. take k (drop j es ++ take j es)) (add_one i)
          ∙ ap (λ t. take k (drop (suc i) es ++ t)) taken
          ∙ ap (take k) (sym (append_assoc (drop (suc i) es) (take i es) (e ∷ [])))
          ∙ take_prefix k (drop (suc i) es ++ take i es) (e ∷ []) (
              omega (
                arith,
                length-append (drop (suc i) es) (take i es),
                length-drop (suc i) es,
                length-take i es,
              )))
]

next_queue :
    (n i end : ℕ)
    → i < n
    → end < n
    → (i == end) ≡ false
    → ((i + 1) % n < n) × (queue_length n i end ≡ suc (queue_length n ((i + 1) % n) end))
next_queue n i end lt end_lt more = rw (next_index n i lt) (ground arith)

queue_short : (n i end : ℕ) → i < n → end < n → queue_length n i end < n
queue_short n i end lt end_lt = ground arith

queue_wrap : (n i end : ℕ) → end < n → i + 1 ≡ n → (i == end) ≡ false → queue_length n i end ≤ i + 1
queue_wrap n i end end_lt last more = ground arith

drain_from_lem :
    (fuel : ℕ) (es : List CoalescedMmio) (i end : ℕ)
    → i < length es
    → end < length es
    → queue_length (length es) i end ≤ fuel
    → drain_from fuel (length es) es i end
      ≡ some (map queued_write (take (queue_length (length es) i end) (from_index i es)))
unfolding drain_from
drain_from_lem zero es i end lt end_lt enough = ground arith
drain_from_lem (suc fuel) es i end lt end_lt enough = elim (Bool-cases (i == end)) [
  | inl done ↦ ground (arith, done)
  | inr more ↦
      let (e, at, dropped, taken) = drop_at es i lt in
      let (next_lt, shorter) = next_queue (length es) i end lt end_lt more in
      let rest = drain_from_lem fuel es ((i + 1) % length es) end next_lt end_lt (omega arith) in
      rw (more, at, rest, shorter, dropped)
        (ap (λ t. some (queued_write e ∷ map queued_write t))
          (from_index_next es i (queue_length (length es) ((i + 1) % length es) end) lt
            (queue_short (length es) ((i + 1) % length es) end next_lt end_lt)
            (λ last. omega (arith, shorter, queue_wrap (length es) i end end_lt last more))))
]

-- drain of a ring with `n` entries, both indices on the page, gives the queued writes, oldest
-- first: the entries from `first` up to `last`, over the end of the page where they wrap. It leaves
-- the ring empty, and takes fewer than `n` rounds.
pub drain_lem :
    (ring : CoalescedRing)
    → ring.first < length ring.coalesced_mmio
    → ring.last < length ring.coalesced_mmio
    → drain (length ring.coalesced_mmio) ring
      ≡ some (
        map queued_write (
            take
              (queue_length (length ring.coalesced_mmio) ring.first ring.last)
              (from_index ring.first ring.coalesced_mmio)),
        record ring { first = ring.last },
      )
unfolding drain
drain_lem ring first last =
    rw
      (drain_from_lem (length ring.coalesced_mmio) ring.coalesced_mmio ring.first ring.last first
        last
        (omega (arith, queue_short (length ring.coalesced_mmio) ring.first ring.last first last)))
      refl
