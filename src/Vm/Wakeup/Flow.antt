-- ===== src/Vm/Wakeup/Flow.antt =====
-- No request to stop or to poll is lost on the way to a vcpu thread of src/main.rs.
use kvm_rust.Vm.Wakeup.{
  Place, at_stop, at_pending, at_poll, at_run, at_clear, at_exit, ended, World, Answer, interrupted,
  handled, ends, thread_step, vcpu_step, ◌⟶◌, ◌⟶*◌, entering, stop, kick, send, arrive, run, here,
  then,
}
use kvm_rust.Base.{Bool, arith, false, ltb, refl, true, ◌||◌, ◌≡◌}

-- Places past the check of should_stop, and past take_devices_pending, up to the return of KVM_RUN.
abbrev pub past_stop : Place → Bool
past_stop at_pending = true
past_stop at_poll = true
past_stop at_run = true
past_stop _ = false

abbrev pub past_pending : Place → Bool
past_pending at_poll = true
past_pending at_run = true
past_pending _ = false

-- KVM_RUN will return, or a signal that makes it return is to come.
abbrev pub alarmed : World → Bool
alarmed w = w.immediate_exit || w.signalled || ltb 0 w.unsent

-- A flag that the thread has passed by has an alarm.
pub record IsAlarmed (w : World) : Type 0 where
  pub stop_alarm : w.should_stop ≡ true → past_stop w.place ≡ true → alarmed w ≡ true
  pub poll_alarm : w.devices_pending ≡ true → past_pending w.place ≡ true → alarmed w ≡ true

thread_step-IsAlarmed :
    (p : Place) (a : Answer) (w : World) → w.place ≡ p → IsAlarmed w → IsAlarmed (thread_step p a w)
thread_step-IsAlarmed at_stop a w at inv = ground arith
thread_step-IsAlarmed at_pending a w at inv = ground arith
thread_step-IsAlarmed at_poll interrupted w at inv = ground arith
thread_step-IsAlarmed at_poll handled w at inv = ground arith
thread_step-IsAlarmed at_poll ends w at inv = ground arith
thread_step-IsAlarmed at_run interrupted w at inv = ground arith
thread_step-IsAlarmed at_run handled w at inv = ground arith
thread_step-IsAlarmed at_run ends w at inv = ground arith
thread_step-IsAlarmed at_clear a w at inv = ground arith
thread_step-IsAlarmed at_exit interrupted w at inv = ground arith
thread_step-IsAlarmed at_exit handled w at inv = ground arith
thread_step-IsAlarmed at_exit ends w at inv = ground arith
thread_step-IsAlarmed ended a w at inv = inv

vcpu_step-IsAlarmed : (a : Answer) (w : World) → IsAlarmed w → IsAlarmed (vcpu_step a w)
unfolding vcpu_step
vcpu_step-IsAlarmed a w inv = thread_step-IsAlarmed w.place a w refl inv

⟶-IsAlarmed : (w v : World) → w ⟶ v → IsAlarmed w → IsAlarmed v
⟶-IsAlarmed w _ stop inv = ground arith
⟶-IsAlarmed w _ kick inv = ground arith
⟶-IsAlarmed w _ (send e) inv = ground arith
⟶-IsAlarmed w _ (arrive e) inv = ground arith
⟶-IsAlarmed w _ (run a) inv = vcpu_step-IsAlarmed a w inv

entering-IsAlarmed : IsAlarmed entering
entering-IsAlarmed = ground arith

-- In every interleaving of the threads, a vcpu thread that has passed by a request to stop, or one
-- to poll, finds `immediate_exit` set, or a signal is still to be sent or to arrive.
pub reachable-IsAlarmed : (w : World) → entering ⟶* w → IsAlarmed w
reachable-IsAlarmed _ here = entering-IsAlarmed
reachable-IsAlarmed _ (then {v = v} before last) =
    ⟶-IsAlarmed v _ last (reachable-IsAlarmed v before)
