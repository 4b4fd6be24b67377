-- ===== src/Arch/Vcpu.antt =====
-- The vcpu registers of src/arch/x86_64/vcpu.rs, and the state in which src/arch/x86_64/init.rs starts
-- the kernel.
mod Tests
pub mod Start
use kvm_rust.Vm.Host.{Method, pure, lift, modify, ◌>>=◌, ◌>>◌}
use kvm_rust.Base.{Bool, err, if◌then◌else◌, ok, os, ℕ}

-- The fields of kvm_regs that the code sets; the others stay.
pub record Regs : Type 0 where
  pub rip : ℕ
  pub rbx : ℕ
  pub rflags : ℕ

-- kvm_segment.
pub record Segment : Type 0 where
  pub base : ℕ
  pub limit : ℕ
  pub selector : ℕ
  pub type_ : ℕ
  pub present : ℕ
  pub dpl : ℕ
  pub db : ℕ
  pub s : ℕ
  pub l : ℕ
  pub g : ℕ
  pub avl : ℕ
  pub unusable : ℕ

-- The fields of kvm_sregs2 that the code sets; the others stay.
pub record Sregs2 : Type 0 where
  pub cs : Segment
  pub ds : Segment
  pub es : Segment
  pub fs : Segment
  pub gs : Segment
  pub ss : Segment
  pub tr : Segment
  pub cr0 : ℕ
  pub cr4 : ℕ

-- A vcpu as KVM keeps it.
pub record Vcpu : Type 0 where
  pub regs : Regs
  pub sregs2 : Sregs2

-- Whether KVM carries out each of the calls.
pub record Calls : Type 0 where
  pub gets_regs : Bool
  pub sets_regs : Bool
  pub gets_sregs2 : Bool
  pub sets_sregs2 : Bool

unfoldable pub get_regs : Calls → Method Vcpu Regs
get_regs kvm v h = if kvm.gets_regs then (v, h, ok v.regs) else (v, h, err os)

unfoldable pub set_regs : Calls → Regs → Method Vcpu (Unit {0})
set_regs kvm regs v h =
    if kvm.sets_regs then (record v { regs = regs }, h, ok tt) else (v, h, err os)

unfoldable pub get_sregs2 : Calls → Method Vcpu Sregs2
get_sregs2 kvm v h = if kvm.gets_sregs2 then (v, h, ok v.sregs2) else (v, h, err os)

unfoldable pub set_sregs2 : Calls → Sregs2 → Method Vcpu (Unit {0})
set_sregs2 kvm sregs2 v h =
    if kvm.sets_sregs2 then (record v { sregs2 = sregs2 }, h, ok tt) else (v, h, err os)

unfoldable pub set_ip : Calls → ℕ → Method Vcpu (Unit {0})
unfolding get_regs set_regs
set_ip kvm ip = get_regs kvm >>= λ regs. set_regs kvm (record regs { rip = ip })

unfoldable pub get_ip : Calls → Method Vcpu ℕ
unfolding get_regs
get_ip kvm = get_regs kvm >>= λ regs. pure regs.rip

-- arch_init, once KVM has the CPUID table: the code segment starts at 0.
unfoldable pub reset_cs : Calls → Method Vcpu (Unit {0})
unfolding get_sregs2 set_sregs2
reset_cs kvm = get_sregs2 kvm >>= λ r.
    set_sregs2 kvm (record r { cs = record (r.cs) { base = 0; selector = 0 } })

abbrev pub code : Segment
code = record {
  base = 0;
  limit = 0xffff_ffff;
  selector = 8;
  type_ = 10;
  present = 1;
  dpl = 0;
  db = 1;
  s = 1;
  l = 0;
  g = 1;
  avl = 0;
  unusable = 0;
}

abbrev pub data_segment : Segment
data_segment = record code { selector = 16; type_ = 2 }

abbrev pub task : Segment
task = record code { limit = 0x67; g = 0; s = 0 }

abbrev pub protected_mode : Sregs2 → Sregs2
protected_mode r = record r {
  cs = code;
  ds = data_segment;
  es = data_segment;
  fs = data_segment;
  gs = data_segment;
  ss = data_segment;
  tr = task;
  cr0 = 1;
  cr4 = 0;
}

unfoldable pub protected_mode_setup : Calls → Method Vcpu (Unit {0})
unfolding get_sregs2 set_sregs2
protected_mode_setup kvm = get_sregs2 kvm >>= λ r. set_sregs2 kvm (protected_mode r)

-- The end of linux_pvh_boot: the registers of the entry.
unfoldable pub enter_at : Calls → ℕ → ℕ → Method Vcpu (Unit {0})
unfolding get_regs set_regs protected_mode_setup
enter_at kvm entry start_info = get_regs kvm >>= λ regs.
    set_regs kvm (record regs { rip = entry; rbx = start_info; rflags = 2 })
    >> protected_mode_setup kvm
