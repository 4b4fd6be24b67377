-- ===== src/Vm/Run.antt =====
-- The run loop of a vcpu in src/main.rs: VCPU::run, run_loop and VM::run.
pub mod Ends
mod Tests
use kvm_rust.Vm.Control
use kvm_rust.Vm.Host.{Host, Method, pure, lift, ◌>>=◌, ◌>>◌, Io, Mmio, stop_vm}
use kvm_rust.Vm.Devices.{MmioDevices, IoDevices, handle_mmio, poll_mmio_devices, arch_handle_io}
use kvm_rust.Base.{
  Bool, List, Outcome, [], err, false, if◌then◌else◌, ok, os, other_error, panic, true, ℕ, ◌++◌,
  ◌∷◌,
}

-- What KVM_RUN returns: EINTR, another error, or an exit by its reason. `printed`: whether
-- print_regs could read the registers.
pub data Exit : Type 0 where
  interrupted internal_error hlt fail_entry other : Exit
  failed shutdown : (printed : Bool) → Exit
  io : Io → Exit
  mmio : Mmio → Exit

-- What another thread does with VmControl: stop, and kick.
pub data Note : Type 0 where
  stop_note kick_note : Note

-- One round of the loop: what others do before it, and what KVM_RUN returns in it.
pub record Turn : Type 0 where
  pub notes : List Note
  pub exit : Exit

-- The devices of the VM, which stay while it runs.
pub record Vm (S : Type 0) : Type 0 where
  pub mmio_devices : MmioDevices S
  pub io_devices : IoDevices S

-- What the loop has done: the bytes that it has answered to each exit that has a device's, and
-- whether it has ended.
pub record Report : Type 0 where
  pub answers : List (List ℕ)
  pub left : Bool

abbrev pub add_answers : List (List ℕ) → Report → Report
add_answers answers r = record r { answers = answers ++ r.answers }

abbrev pub on_control : (Control.VmControl → Control.VmControl) → Host → Host
on_control f h = record h { control = f h.control }

unfoldable pub stop_host : Host → Host
unfolding Control.stop
stop_host h =
    let (control, targets) = Control.stop h.control in
    record h { control = control; signals = h.signals ++ targets }

-- What follows a result, error or not; a panic leaves before it.
abbrev pub unless_panic :
    {D A : Type 0} → (Host → Host) → D × Host × Outcome A → D × Host × Outcome A
unless_panic f (d, h, ok a) = (d, f h, ok a)
unless_panic f (d, h, err e) = (d, f h, err e)
unless_panic f (d, h, panic) = (d, h, panic)

module _ {S : Type 0} where
  unfoldable pub kick_vm : Method S (Unit {0})
  unfolding Control.kick
  kick_vm d h =
      let (control, targets) = Control.kick h.control in
      (d, record h { control = control; signals = h.signals ++ targets }, ok tt)

  unfoldable pub heed : List Note → Method S (Unit {0})
  unfolding kick_vm
  heed [] = pure tt
  heed (stop_note ∷ notes) = stop_vm >> heed notes
  heed (kick_note ∷ notes) = kick_vm >> heed notes

  unfoldable pub should_stop : Method S Bool
  should_stop d h = (d, h, ok h.control.should_stop)

  unfoldable pub take_devices_pending : Method S Bool
  unfolding Control.take_devices_pending
  take_devices_pending d h =
      let (control, pending) = Control.take_devices_pending h.control in
      (d, record h { control = control }, ok pending)

  abbrev pub poll_if : Vm S → Bool → Method S (Unit {0})
  poll_if vm true = poll_mmio_devices vm.mmio_devices
  poll_if vm false = pure tt

  abbrev pub go_on : List (List ℕ) → Method S Report
  go_on answers = pure record { answers = answers; left = false }

  abbrev pub leave : Method S Report
  leave = pure record { answers = []; left = true }

  -- print_regs, and then an error or the end of the loop.
  abbrev pub after_regs : Bool → Method S Report → Method S Report
  after_regs true next = next
  after_regs false next = lift (err os)

  -- The match on the exit, and the one on the error of KVM_RUN.
  unfoldable pub handle_exit : Vm S → Exit → Method S Report
  handle_exit vm interrupted = go_on []
  handle_exit vm (failed printed) = after_regs printed (lift (err os))
  handle_exit vm (io x) = arch_handle_io vm.io_devices x >>= λ bytes. go_on (bytes ∷ [])
  handle_exit vm (shutdown printed) = after_regs printed leave
  handle_exit vm (mmio x) = handle_mmio vm.mmio_devices x >>= λ bytes. go_on (bytes ∷ [])
  handle_exit vm hlt = leave
  handle_exit vm internal_error = lift (err other_error)
  handle_exit vm fail_entry = leave
  handle_exit vm other = leave

  -- The round once should_stop is read.
  unfoldable pub round : Vm S → Exit → Bool → Method S Report
  unfolding take_devices_pending handle_exit
  round vm exit true = leave
  round vm exit false = take_devices_pending >>= poll_if vm >> handle_exit vm exit

  abbrev pub unless_left : Method S Report → Report → Method S Report
  unless_left rest r =
      if r.left then pure r else (rest >>= λ later. pure (add_answers r.answers later))

  -- run_loop, for as many rounds as there are turns.
  unfoldable pub run_loop : Vm S → List Turn → Method S Report
  unfolding heed should_stop round
  run_loop vm [] = go_on []
  run_loop vm (t ∷ turns) =
      heed t.notes >> should_stop >>= round vm t.exit >>= unless_left (run_loop vm turns)

  -- VCPU::run, on the thread `self`.
  unfoldable pub vcpu_run : Vm S → ℕ → List Turn → Method S Report
  unfolding Control.register_vcpu_thread Control.unregister_vcpu_thread run_loop
  vcpu_run vm self turns d h =
      unless_panic (on_control (Control.unregister_vcpu_thread self))
        (run_loop vm turns d (on_control (Control.register_vcpu_thread self) h))

  -- The thread that VM::run spawns for a vcpu; stop's signals are the calls' targets.
  unfoldable pub vcpu_thread : Vm S → ℕ → List Turn → Method S Report
  unfolding stop_host vcpu_run
  vcpu_thread vm self turns d h = unless_panic stop_host (vcpu_run vm self turns d h)

-- The results that VM::run joins, in order: the first that is not Ok is returned. A vcpu thread that
-- panics counts as an error.
abbrev pub joined : Outcome (Unit {0}) → Outcome (Unit {0})
joined panic = err other_error
joined (ok done) = ok done
joined (err e) = err e

unfoldable pub join_all : Outcome (Unit {0}) → List (Outcome (Unit {0})) → Outcome (Unit {0})
join_all res [] = res
join_all (ok done) (r ∷ rs) = join_all (joined r) rs
join_all (err e) (r ∷ rs) = join_all (err e) rs
join_all panic (r ∷ rs) = join_all panic rs
