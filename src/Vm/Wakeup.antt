-- ===== src/Vm/Wakeup.antt =====
-- A vcpu thread among the threads that stop and kick the VM, in small steps: run_loop and
-- kick_handler of src/main.rs, with VmControl's stop and kick up to their signals.
pub mod Flow
pub mod Stops
mod Tests
use kvm_rust.Base.{Bool, false, if◌then◌else◌, suc, true, ℕ, ◌≡◌}

-- Where the thread stands in run_loop: before should_stop, before take_devices_pending, before
-- poll_mmio_devices, before KVM_RUN or in it, before `immediate_exit` is cleared, before the exit is
-- handled, and after the loop.
pub data Place : Type 0 where
  at_stop at_pending at_poll at_run at_clear at_exit ended : Place

-- The thread is the first that is registered, so kick signals it too. `unsent`: the calls of stop
-- and kick that have set their flag and are about to signal the thread.
-- `signalled`: a signal is on its way to it.
pub record World : Type 0 where
  pub should_stop : Bool
  pub devices_pending : Bool
  pub unsent : ℕ
  pub signalled : Bool
  pub immediate_exit : Bool
  pub place : Place

-- What KVM_RUN or a handler does to the loop: a call interrupted by a signal, an exit that is to be
-- handled, and one that ends the loop; a handler goes on or ends the loop by its error.
pub data Answer : Type 0 where
  interrupted handled ends : Answer

abbrev pub continue_at : Place → Answer → Place
continue_at p ends = ended
continue_at p interrupted = p
continue_at p handled = p

abbrev pub run_at : Answer → Place
run_at interrupted = at_clear
run_at handled = at_exit
run_at ends = ended

-- KVM_RUN returns EINTR at once while `immediate_exit` is set, and enters the guest otherwise.
abbrev pub kvm_run : Bool → Answer → Answer
kvm_run true answer = interrupted
kvm_run false answer = answer

-- The thread's next step.
abbrev pub thread_step : Place → Answer → World → World
thread_step at_stop a w = record w { place = if w.should_stop then ended else at_pending }
thread_step at_pending a w = record w {
  devices_pending = false;
  place = if w.devices_pending then at_poll else at_run;
}
thread_step at_poll a w = record w { place = continue_at at_run a }
thread_step at_run a w = record w { place = run_at (kvm_run w.immediate_exit a) }
thread_step at_clear a w = record w { immediate_exit = false; place = at_stop }
thread_step at_exit a w = record w { place = continue_at at_stop a }
thread_step ended a w = w

unfoldable pub vcpu_step : Answer → World → World
vcpu_step a w = thread_step w.place a w

-- kick_handler, on the thread.
abbrev pub kick_handler : World → World
kick_handler w = record w { signalled = false; immediate_exit = true }

-- The steps of all threads: stop and kick set their flag, send the signal, and it arrives.
infix 40 ◌⟶◌
pub data ◌⟶◌ : World → World → Type 0 where
  stop : {w : World} → w ⟶ record w { should_stop = true; unsent = suc (w.unsent) }
  kick : {w : World} → w ⟶ record w { devices_pending = true; unsent = suc (w.unsent) }
  send : {w : World} {n : ℕ} → w.unsent ≡ suc n → w ⟶ record w { unsent = n; signalled = true }
  arrive : {w : World} → w.signalled ≡ true → w ⟶ kick_handler w
  run : {w : World} (a : Answer) → w ⟶ vcpu_step a w

infix 40 ◌⟶*◌
pub data ◌⟶*◌ : World → World → Type 0 where
  here : {w : World} → w ⟶* w
  then : {w v u : World} → w ⟶* v → v ⟶ u → w ⟶* u

-- A thread that enters the loop.
abbrev pub entering : World
entering = record {
  should_stop = false;
  devices_pending = false;
  unsent = 0;
  signalled = false;
  immediate_exit = false;
  place = at_stop;
}
