-- ===== src/Util/Binary/Tests.antt =====
-- The byte helpers at small inputs.
use kvm_rust.Base.{List, [], arith, get_elem?, length, ok, panic, refl, ℕ, ◌<◌, ◌∷◌, ◌≡◌, ◌≤◌, ◌⊎◌}
use kvm_rust.Util.Binary.RoundTrip.{read_le32-write_le32}
use kvm_rust.Util.Binary.{read_le32, write_le32, read_le16}

write_le32_runs :
    write_le32 (0 ∷ 1 ∷ 2 ∷ 3 ∷ 4 ∷ 5 ∷ []) 1 0xdeadbeef
    ≡ ok (0 ∷ 0xef ∷ 0xbe ∷ 0xad ∷ 0xde ∷ 5 ∷ [])
unfolding write_le32
write_le32_runs = refl

read_le32_runs : read_le32 (0 ∷ 0xef ∷ 0xbe ∷ 0xad ∷ 0xde ∷ 5 ∷ []) 1 ≡ ok 0xdeadbeef
unfolding read_le32
read_le32_runs = refl

read_le16_short : read_le16 (1 ∷ []) 0 ≡ panic
unfolding read_le16
read_le16_short = refl

read_le32-write_le32_example :
    (b' : List ℕ) × (write_le32 (0 ∷ 1 ∷ 2 ∷ 3 ∷ 4 ∷ 5 ∷ []) 1 0xdeadbeef ≡ ok b')
    × (read_le32 b' 1 ≡ ok 0xdeadbeef)
    × (length b' ≡ 6)
    × ((i : ℕ) → (i < 1) ⊎ (5 ≤ i) → get_elem? b' i ≡ get_elem? (0 ∷ 1 ∷ 2 ∷ 3 ∷ 4 ∷ 5 ∷ []) i)
read_le32-write_le32_example =
    read_le32-write_le32 (0 ∷ 1 ∷ 2 ∷ 3 ∷ 4 ∷ 5 ∷ []) 1 0xdeadbeef (omega arith) (omega arith)
