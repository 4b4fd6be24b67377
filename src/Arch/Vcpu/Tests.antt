-- ===== src/Arch/Vcpu/Tests.antt =====
-- Runs of the vcpu set-up of src/arch/x86_64/vcpu.rs.
use kvm_rust.Vm.Control
use kvm_rust.Vm.Host.{Host}
use kvm_rust.Arch.Vcpu.{Vcpu, Calls, data_segment, get_ip, set_ip, get_regs, set_regs}
use kvm_rust.Base.{[], ok, refl, true, ◌≡◌}

abbrev host : Host
host = record { lines = []; control = Control.new; signals = []; stdout = [] }

abbrev reset : Vcpu
reset = record {
  regs = record { rip = 0xfff0; rbx = 0; rflags = 2 };
  sregs2 = record {
    cs = data_segment;
    ds = data_segment;
    es = data_segment;
    fs = data_segment;
    gs = data_segment;
    ss = data_segment;
    tr = data_segment;
    cr0 = 0x10;
    cr4 = 0;
  };
}

abbrev working : Calls
working = record { gets_regs = true; sets_regs = true; gets_sregs2 = true; sets_sregs2 = true }

ip : (get_ip working reset host).2 ≡ ok 0xfff0
ip = unfold get_ip get_regs in refl

moves : (set_ip working 7 reset host).0.regs.rip ≡ 7
unfolding set_ip get_regs set_regs
moves = refl
