-- ===== src/Vm/Slots/Table.antt =====
-- The slots of a table that hold an address, and what a call does to them.
use kvm_rust.Vm.Slots.{UserRegion, without}
use kvm_rust.Base.{
  All, Bool, List, [], arith, if◌then◌else◌, inl, inr, leb, length, ltb, refl, true, ℕ, ◌&&◌, ◌+◌,
  ◌-◌, ◌<◌, ◌∷◌, ◌≡◌, ◌≢◌, ◌≤◌, ◌⊎◌,
}

abbrev pub holds : UserRegion → ℕ → Bool
holds r a = leb r.guest_phys_addr a && ltb a (r.guest_phys_addr + r.memory_size)

-- What a guest address stands for through one slot: the host address, and the slot's flags.
pub record Place : Type 0 where
  pub host : ℕ
  pub flags : ℕ

abbrev pub place_in : UserRegion → ℕ → Place
place_in r a = record { host = r.userspace_addr + (a - r.guest_phys_addr); flags = r.flags }

-- The places of an address, one for each slot that holds it.
abbrev pub places : List UserRegion → ℕ → List Place
places [] a = []
places (r ∷ rs) a = if holds r a then place_in r a ∷ places rs a else places rs a

-- No two slots hold the same address.
abbrev pub IsSingle : List UserRegion → Type 0
IsSingle table = (a : ℕ) → length (places table a) ≤ 1

abbrev pub AllBelow : ℕ → List UserRegion → Type 0
AllBelow n = All (λ r. r.slot < n)

-- The table has the entry, and no other of its number.
abbrev pub Owns : List UserRegion → UserRegion → Type 0
Owns [] e = ⊥
Owns (r ∷ rs) e = ((r ≡ e) × All (λ q. q.slot ≢ e.slot) rs) ⊎ ((r.slot ≢ e.slot) × Owns rs e)

pub without-absent : (n : ℕ) (t : List UserRegion) → All (λ q. q.slot ≢ n) t → without n t ≡ t
without-absent n [] all = refl
without-absent n (r ∷ rs) all = ground (arith, without-absent n rs)

pub AllBelow-absent : (n : ℕ) (t : List UserRegion) → AllBelow n t → All (λ q. q.slot ≢ n) t
AllBelow-absent n [] all = tt
AllBelow-absent n (r ∷ rs) all = (λ e. omega arith, AllBelow-absent n rs all.1)

pub Owns-places :
    (e : UserRegion) (t : List UserRegion) (a : ℕ)
    → Owns t e
    → holds e a ≡ true
    → 1 ≤ length (places t a)
Owns-places e [] a own h = absurd own
Owns-places e (r ∷ rs) a (inl (same, others)) h = ground arith
Owns-places e (r ∷ rs) a (inr (other, own)) h = ground (arith, Owns-places e rs a own h)

pub Below-without : (n k : ℕ) (t : List UserRegion) → AllBelow n t → AllBelow n (without k t)
Below-without n k [] all = tt
Below-without n k (r ∷ rs) all = ground (arith, Below-without n k rs)

-- Deleting the owned entry empties the addresses that it held alone, and keeps the others.
pub places-without :
    (e : UserRegion) (t : List UserRegion) (a : ℕ)
    → Owns t e
    → length (places t a) ≤ 1
    → places (without e.slot t) a ≡ (if holds e a then [] else places t a)
places-without e [] a own one = absurd own
places-without e (r ∷ rs) a (inl (same, others)) one =
    ground (arith, without-absent e.slot rs others)
places-without e (r ∷ rs) a (inr (other, own)) one =
    ground (arith, places-without e rs a own, Owns-places e rs a own)
