-- ===== src/Vm/MemSize/Tests.antt =====
-- Runs of parse_mem_size of src/main.rs.
use kvm_rust.Vm.MemSize.{
  size, failed, unknown_suffix, invalid_number, invalid_size, parse_mem_size, parse_with,
  parse_number, parse_usize, parse_digits,
}
use kvm_rust.Base.{[], refl, ◌*◌, ◌^◌, ◌∷◌, ◌≡◌}

-- "512M", "1024", "0G", "5T", "M" and "+2g".
sizes :
    (parse_mem_size (0x35 ∷ 0x31 ∷ 0x32 ∷ 0x4d ∷ []) ≡ size (512 * 2 ^ 20))
    × (parse_mem_size (0x31 ∷ 0x30 ∷ 0x32 ∷ 0x34 ∷ []) ≡ size (2 ^ 20))
    × (parse_mem_size (0x30 ∷ 0x47 ∷ []) ≡ failed invalid_size)
    × (parse_mem_size (0x35 ∷ 0x54 ∷ []) ≡ failed unknown_suffix)
    × (parse_mem_size (0x4d ∷ []) ≡ failed invalid_number)
    × (parse_mem_size (0x2b ∷ 0x32 ∷ 0x67 ∷ []) ≡ size (2 ^ 31))
unfolding parse_mem_size parse_with parse_number parse_usize parse_digits
sizes = (refl, refl, refl, refl, refl, refl)
