-- ===== src/Vm/Wakeup/Tests.antt =====
-- Runs of a vcpu thread that is stopped and kicked.
use kvm_rust.Vm.Wakeup.{
  World, handled, at_run, ended, ◌⟶*◌, entering, here, then, run, stop, kick, send, arrive,
  vcpu_step,
}
use kvm_rust.Vm.Wakeup.Stops.{run_steps, guest_entries, serves, stop_ends, kick_polls}
use kvm_rust.Base.{[], refl, true, ◌∷◌, ◌≡◌}

-- The thread has checked the flags and is about to call KVM_RUN.
abbrev checked : World
checked = record entering { place = at_run }

checked_reached : entering ⟶* checked
unfolding vcpu_step
checked_reached = then (then here (run handled)) (run handled)

-- stop is called just then: its flag is set too late for the check, and the signal arrives.
abbrev stopped : World
stopped = record checked { should_stop = true; immediate_exit = true }

stopped_reached : entering ⟶* stopped
stopped_reached = then (then (then checked_reached stop) (send refl)) (arrive refl)

abbrev kicked : World
kicked = record checked { devices_pending = true; immediate_exit = true }

kicked_reached : entering ⟶* kicked
kicked_reached = then (then (then checked_reached kick) (send refl)) (arrive refl)

stop_ends_example :
    ((run_steps (handled ∷ handled ∷ handled ∷ handled ∷ handled ∷ []) stopped).place ≡ ended)
    × (guest_entries (handled ∷ handled ∷ handled ∷ handled ∷ handled ∷ []) stopped ≡ 0)
stop_ends_example =
    stop_ends stopped handled handled handled handled handled stopped_reached refl refl refl

kick_polls_example : serves (handled ∷ handled ∷ handled ∷ handled ∷ handled ∷ []) kicked ≡ true
kick_polls_example =
    kick_polls kicked handled handled handled handled handled kicked_reached refl refl refl
