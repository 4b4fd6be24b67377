-- ===== src/Vm/Run/Tests.antt =====
-- Runs of the run loop of src/main.rs.
use kvm_rust.Vm.Control
use kvm_rust.Vm.Host.{Host, stop_vm}
use kvm_rust.Vm.Devices.{MmioDevice, handle_mmio, poll_mmio_devices}
use kvm_rust.Vm.Run.{
  Vm, Turn, interrupted, hlt, mmio, stop_note, kick_note, heed, kick_vm, should_stop,
  take_devices_pending, round, handle_exit, run_loop, vcpu_run, vcpu_thread, stop_host,
}
use kvm_rust.Base.{[], ok, refl, true, ℕ, ◌+◌, ◌∷◌, ◌≡◌}

abbrev counter : MmioDevice ℕ
counter = record { handle = λ x n h. (n + 1, h, ok (7 ∷ [])); poll = λ n h. (n + 10, h, ok tt) }

abbrev vm : Vm ℕ
vm = record { mmio_devices = (0xd0000, counter) ∷ []; io_devices = [] }

abbrev host : Host
host = record {
  lines = [];
  control = record Control.new { vcpu_threads = 41 ∷ [] };
  signals = [];
  stdout = [];
}

abbrev access : Turn
access = record {
  notes = [];
  exit = mmio record { phys_addr = 0xd000_0010; bytes = 0 ∷ []; is_write = 0 };
}

-- A kick makes the loop poll before it runs the guest, and a halt ends it.
halts :
    run_loop vm
      (access
        ∷ record { notes = kick_note ∷ []; exit = interrupted }
        ∷ record { notes = []; exit = hlt }
        ∷ access
        ∷ [])
      0
      host
    ≡ (11, record host { signals = 41 ∷ [] }, ok record { answers = (7 ∷ []) ∷ []; left = true })
unfolding run_loop heed kick_vm should_stop take_devices_pending round handle_exit handle_mmio
    poll_mmio_devices
halts = refl

-- The thread 42 is told to stop, and signals itself and the thread 41.
thread_stops :
    vcpu_thread vm 42 (record { notes = stop_note ∷ []; exit = interrupted } ∷ []) 0 host ≡ (
      0,
      record host {
        control = record (host.control) { should_stop = true };
        signals = 41 ∷ 42 ∷ 41 ∷ [];
      },
      ok record { answers = []; left = true },
    )
unfolding vcpu_thread vcpu_run stop_host run_loop heed stop_vm should_stop round
thread_stops = refl
