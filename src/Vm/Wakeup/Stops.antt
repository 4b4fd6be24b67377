-- ===== src/Vm/Wakeup/Stops.antt =====
-- The end of run_loop in src/main.rs, and its polls, after stop and kick have signalled.
use kvm_rust.Vm.Wakeup.{
  Place, at_stop, at_pending, at_poll, at_run, at_clear, at_exit, ended, World, Answer, interrupted,
  handled, ends, vcpu_step, ◌⟶*◌, entering,
}
use kvm_rust.Vm.Wakeup.Flow.{reachable-IsAlarmed, past_stop, past_pending}
use kvm_rust.Base.{
  Bool, List, [], arith, false, refl, subst, sym, true, ℕ, ◌&&◌, ◌+◌, ◌||◌, ◌∷◌, ◌≡◌,
}

-- The thread alone, with the answers that it gets.
unfoldable pub run_steps : List Answer → World → World
unfolding vcpu_step
run_steps [] w = w
run_steps (a ∷ answers) w = run_steps answers (vcpu_step a w)

abbrev pub enters_guest : Place → Bool → ℕ
enters_guest at_run false = 1
enters_guest _ _ = 0

-- How often it enters the guest on the way.
unfoldable pub guest_entries : List Answer → World → ℕ
unfolding vcpu_step
guest_entries [] w = 0
guest_entries (a ∷ answers) w =
    let rest = guest_entries answers (vcpu_step a w) in enters_guest w.place w.immediate_exit + rest

abbrev Quits : List Answer → World → Type 0
Quits answers w = ((run_steps answers w).place ≡ ended) × (guest_entries answers w ≡ 0)

quits :
    (p : Place) (a b c d e : Answer) (pending alarm : Bool) (n : ℕ) (signal : Bool)
    → (past_stop p ≡ true → alarm ≡ true)
    → Quits (a ∷ b ∷ c ∷ d ∷ e ∷ []) record {
      should_stop = true;
      devices_pending = pending;
      unsent = n;
      signalled = signal;
      immediate_exit = alarm;
      place = p;
    }
unfolding run_steps guest_entries vcpu_step
quits at_stop a b c d e pending alarm n signal rings = (refl, refl)
quits at_pending a interrupted c d e true true n signal rings = (refl, refl)
quits at_pending a handled c d e true true n signal rings = (refl, refl)
quits at_pending a ends c d e true true n signal rings = (refl, refl)
quits at_pending a b c d e false true n signal rings = (refl, refl)
quits at_pending a b c d e pending false n signal rings = absurd (ground (arith, rings refl))
quits at_poll interrupted b c d e pending true n signal rings = (refl, refl)
quits at_poll handled b c d e pending true n signal rings = (refl, refl)
quits at_poll ends b c d e pending true n signal rings = (refl, refl)
quits at_poll a b c d e pending false n signal rings = absurd (ground (arith, rings refl))
quits at_run a b c d e pending true n signal rings = (refl, refl)
quits at_run a b c d e pending false n signal rings = absurd (ground (arith, rings refl))
quits at_clear a b c d e pending alarm n signal rings = (refl, refl)
quits at_exit interrupted b c d e pending alarm n signal rings = (refl, refl)
quits at_exit handled b c d e pending alarm n signal rings = (refl, refl)
quits at_exit ends b c d e pending alarm n signal rings = (refl, refl)
quits ended a b c d e pending alarm n signal rings = (refl, refl)

-- Whether the loop polls the devices, or ends, before it enters the guest.
unfoldable pub serves : List Answer → World → Bool
unfolding vcpu_step
serves [] w = false
serves (a ∷ answers) w =
    let rest = serves answers (vcpu_step a w) in
    elim w.place [
      | at_pending ↦ w.devices_pending || rest
      | at_run ↦ w.immediate_exit && rest
      | ended ↦ true
      | _ ↦ rest
    ]

serves_soon :
    (p : Place) (a b c d e : Answer) (stopped alarm : Bool) (n : ℕ) (signal : Bool)
    → (past_pending p ≡ true → alarm ≡ true)
    → serves (a ∷ b ∷ c ∷ d ∷ e ∷ []) record {
      should_stop = stopped;
      devices_pending = true;
      unsent = n;
      signalled = signal;
      immediate_exit = alarm;
      place = p;
    }
      ≡ true
unfolding serves vcpu_step
serves_soon at_stop a b c d e true alarm n signal rings = refl
serves_soon at_stop a b c d e false alarm n signal rings = refl
serves_soon at_pending a b c d e stopped alarm n signal rings = refl
serves_soon at_poll interrupted b c d e true true n signal rings = refl
serves_soon at_poll interrupted b c d e false true n signal rings = refl
serves_soon at_poll handled b c d e true true n signal rings = refl
serves_soon at_poll handled b c d e false true n signal rings = refl
serves_soon at_poll ends b c d e true true n signal rings = refl
serves_soon at_poll ends b c d e false true n signal rings = refl
serves_soon at_poll a b c d e stopped false n signal rings = absurd (ground (arith, rings refl))
serves_soon at_run a b c d e true true n signal rings = refl
serves_soon at_run a b c d e false true n signal rings = refl
serves_soon at_run a b c d e stopped false n signal rings = absurd (ground (arith, rings refl))
serves_soon at_clear a b c d e true alarm n signal rings = refl
serves_soon at_clear a b c d e false alarm n signal rings = refl
serves_soon at_exit interrupted b c d e true alarm n signal rings = refl
serves_soon at_exit interrupted b c d e false alarm n signal rings = refl
serves_soon at_exit handled b c d e true alarm n signal rings = refl
serves_soon at_exit handled b c d e false alarm n signal rings = refl
serves_soon at_exit ends b c d e true alarm n signal rings = refl
serves_soon at_exit ends b c d e false alarm n signal rings = refl
serves_soon ended a b c d e stopped alarm n signal rings = refl

-- Once stop is called and its signals have arrived, a vcpu thread ends its loop within five steps,
-- whatever KVM_RUN and the handlers answer, and does not enter the guest again; in every
-- interleaving before.
pub stop_ends :
    (w : World) (a b c d e : Answer)
    → entering ⟶* w
    → w.should_stop ≡ true
    → w.unsent ≡ 0
    → w.signalled ≡ false
    → ((run_steps (a ∷ b ∷ c ∷ d ∷ e ∷ []) w).place ≡ ended)
      × (guest_entries (a ∷ b ∷ c ∷ d ∷ e ∷ []) w ≡ 0)
stop_ends w a b c d e reached stopped sent arrived =
    let alarm = reachable-IsAlarmed w reached in
    subst (λ s. Quits (a ∷ b ∷ c ∷ d ∷ e ∷ []) (record w { should_stop = s })) (sym stopped)
      (quits w.place a b c d e w.devices_pending w.immediate_exit w.unsent w.signalled
        (λ past. ground (arith, alarm.stop_alarm stopped past)))

-- Once kick is called and its signals have arrived, the thread polls the devices within five steps
-- or ends its loop, before it enters the guest again.
pub kick_polls :
    (w : World) (a b c d e : Answer)
    → entering ⟶* w
    → w.devices_pending ≡ true
    → w.unsent ≡ 0
    → w.signalled ≡ false
    → serves (a ∷ b ∷ c ∷ d ∷ e ∷ []) w ≡ true
kick_polls w a b c d e reached pending sent arrived =
    let alarm = reachable-IsAlarmed w reached in
    subst (λ s. serves (a ∷ b ∷ c ∷ d ∷ e ∷ []) (record w { devices_pending = s }) ≡ true)
      (sym pending)
      (serves_soon w.place a b c d e w.should_stop w.immediate_exit w.unsent w.signalled
        (λ past. ground (arith, alarm.poll_alarm pending past)))
