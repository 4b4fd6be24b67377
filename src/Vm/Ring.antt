-- ===== src/Vm/Ring.antt =====
-- CoalescedRing of src/main.rs: the guest's writes that KVM queues.
pub mod Drain
mod Tests
use mathlib.Core.Option
use kvm_rust.Base.{
  List, Option, [], get_elem?, if◌then◌else◌, length, map, min, none, some, suc, take, zero, ℕ, ◌%◌,
  ◌+◌, ◌-◌, ◌/◌, ◌==◌, ◌∷◌,
}

-- kvm_coalesced_mmio of the generated bindings.
pub record CoalescedMmio : Type 0 where
  pub phys_addr : ℕ
  pub len : ℕ
  pub bytes : List ℕ

-- The page: the indices, and the entries behind them.
pub record CoalescedRing : Type 0 where
  pub first : ℕ
  pub last : ℕ
  pub coalesced_mmio : List CoalescedMmio

-- ENTRIES, from the sizes of the generated bindings.
unfoldable pub entries : ℕ → ℕ → ℕ
entries ring_size entry_size = (4096 - ring_size) / entry_size

-- The arguments of the closure: `data[..(entry.len as usize).min(entry.data.len())]`.
abbrev pub queued_write : CoalescedMmio → ℕ × List ℕ
queued_write e = (e.phys_addr, take (min e.len (length e.bytes)) e.bytes)

-- The loop of drain with `n` entries, for at most `fuel` rounds: what the closure is called with.
-- None if an entry is not on the page, or the rounds do not suffice.
unfoldable pub drain_from : ℕ → ℕ → List CoalescedMmio → ℕ → ℕ → Option (List (ℕ × List ℕ))
drain_from zero n es i end = if i == end then some [] else none
drain_from (suc fuel) n es i end =
    let rest = drain_from fuel n es ((i + 1) % n) end in
    if i == end then some [] else (elim (get_elem? es i) [
      | none ↦ none
      | some e ↦ Option.map (λ ws. queued_write e ∷ ws) rest
    ])

-- drain, with at most `n` rounds.
unfoldable pub drain : ℕ → CoalescedRing → Option (List (ℕ × List ℕ) × CoalescedRing)
unfolding drain_from
drain n ring =
    Option.map (λ ws. (ws, record ring { first = last }))
      (drain_from n n ring.coalesced_mmio ring.first ring.last)
  where
    open ring use {last}
