-- ===== src/Arch/Arm.antt =====
-- The aarch64 machine: the registers of src/arch/aarch64/vcpu.rs and the Linux boot of
-- src/arch/aarch64/init.rs.
pub mod Header
pub mod Images
mod Tests
use kvm_rust.Vm.Host.{Method, pure, lift, ◌>>=◌, ◌>>◌}
use kvm_rust.Vm.MemSize.{parse_usize}
use kvm_rust.Memory.{Memory, load_data_to_memory}
use kvm_rust.Util.Binary.{read_le32, read_le64}
use kvm_rust.Base.{
  Bool, List, Option, Outcome, [], bit_or, err, false, if◌then◌else◌, invalid_data, ltb, none, ok,
  os, other_error, panic, some, suc, true, zero, ℕ, ◌%◌, ◌&&◌, ◌*◌, ◌+◌, ◌/◌, ◌==◌, ◌||◌, ◌∷◌,
}

-- A text is the list of its code points.
abbrev pub text_eq : List ℕ → List ℕ → Bool
text_eq [] [] = true
text_eq [] (b ∷ bs) = false
text_eq (a ∷ cs) [] = false
text_eq (a ∷ cs) (b ∷ bs) = a == b && text_eq cs bs

abbrev pub sp : List ℕ
sp = 0x73 ∷ 0x70 ∷ []

abbrev pub pc : List ℕ
pc = 0x70 ∷ 0x63 ∷ []

abbrev pub pstate : List ℕ
pstate = 0x70 ∷ 0x73 ∷ 0x74 ∷ 0x61 ∷ 0x74 ∷ 0x65 ∷ []

-- The number of a register below the flags that the generated bindings give: `reg * 2`.
unfoldable pub core_number : List ℕ → Outcome ℕ
unfolding parse_usize
core_number [] = err other_error
core_number (c ∷ cs) =
    if c == 0x78
    then (elim (parse_usize cs) [ none ↦ err invalid_data | some reg ↦ ok (reg * 2) ])
    else if text_eq (c ∷ cs) sp
    then ok 62
    else if text_eq (c ∷ cs) pc
    then ok 64
    else if text_eq (c ∷ cs) pstate
    then ok 66
    else err other_error

-- The id, with the flags `base`; they share no bit with the numbers.
unfoldable pub aarch64_core_reg : ℕ → List ℕ → Outcome ℕ
unfolding core_number
aarch64_core_reg base name = elim (core_number name) [
  | ok n ↦ ok (bit_or base n)
  | err e ↦ err e
  | panic ↦ panic
]

-- `format!("x{x}")` of a number below 100.
abbrev pub x_name : ℕ → List ℕ
x_name n = 0x78 ∷ (if ltb n 10 then (0x30 + n) ∷ [] else (0x30 + n / 10) ∷ (0x30 + n % 10) ∷ [])

-- x0 and on, below a bound, the highest first.
abbrev pub x_names : ℕ → List (List ℕ)
x_names zero = []
x_names (suc n) = x_name n ∷ x_names n

-- The names that load_regs_hash enters: x0 to x29, and three more.
abbrev pub register_names : List (List ℕ)
register_names = sp ∷ pc ∷ pstate ∷ x_names 30

abbrev pub has_name : List ℕ → List (List ℕ) → Bool
has_name name [] = false
has_name name (n ∷ ns) = text_eq n name || has_name name ns

-- What the table REGS gives: the id of a name that is in it.
unfoldable pub register_id : ℕ → List ℕ → Option ℕ
unfolding aarch64_core_reg
register_id base name =
    if has_name name register_names
    then (elim (aarch64_core_reg base name) [ ok id ↦ some id | err e ↦ none | panic ↦ none ])
    else none

-- The vcpu's registers as KVM keeps them: the accepted KVM_SET_ONE_REG calls, newest first.
pub record Set : Type 0 where
  pub id : ℕ
  pub value : ℕ

-- KVM: whether it accepts a call, and the value that KVM_GET_ONE_REG gives, or none for an error.
pub record OneReg : Type 0 where
  pub accepts : List Set → Set → Bool
  pub value : List Set → ℕ → Option ℕ

unfoldable pub get_one_reg : OneReg → ℕ → List ℕ → Method (List Set) ℕ
unfolding register_id
get_one_reg kvm base name calls h = elim (register_id base name) [
  | none ↦ (calls, h, err other_error)
  | some id ↦ elim (kvm.value calls id) [ none ↦ (calls, h, err os) | some v ↦ (calls, h, ok v) ]
]

unfoldable pub set_one_reg : OneReg → ℕ → List ℕ → ℕ → Method (List Set) (Unit {0})
unfolding register_id
set_one_reg kvm base name v calls h = elim (register_id base name) [
  | none ↦ (calls, h, err other_error)
  | some id ↦
      let call : Set = record { id = id; value = v } in
      if kvm.accepts calls call then (call ∷ calls, h, ok tt) else (calls, h, err os)
]

unfoldable pub set_ip : OneReg → ℕ → ℕ → Method (List Set) (Unit {0})
unfolding set_one_reg
set_ip kvm base ip = set_one_reg kvm base pc ip

-- It asks for x0.
unfoldable pub get_ip : OneReg → ℕ → Method (List Set) ℕ
unfolding get_one_reg
get_ip kvm base = get_one_reg kvm base (x_name 0)
