-- ===== src/Arch/I8042/Tests.antt =====
-- The controller at concrete inputs.
use kvm_rust.Vm.Control
use kvm_rust.Vm.Host.{Host, Kvm, arch_update_irq, stop_vm}
use kvm_rust.Base.{[], false, none, ok, refl, some, true, ◌∷◌, ◌≡◌}
use kvm_rust.Arch.I8042.{
  I8042, new, update_irq, load_output, take_output, read_data, dispatch, handle, push,
  keyboard_command, keyboard_param_byte, keyboard_command_byte, write_data, controller_command,
  run_controller_param, pulse_reset, press, key_event, status, wanted_level,
}
use kvm_rust.Arch.I8042.Keymap.{
  keysym_to_set1, letter_code, key_lookup, named_key, function_or_extended,
}
use kvm_rust.Arch.I8042.Fifo.{pending}
use kvm_rust.Arch.I8042.Invariant.{IsValid, handle-IsValid}
use kvm_rust.Arch.I8042.Reads.{read_at, handle_reads_oldest, handle_read_edge}
use kvm_rust.Arch.I8042.Writes.{write_at, key_event_bytes}

-- KVM accepts every call.
abbrev willing : Kvm
willing lines line = true

abbrev quiet : Host
quiet = record { lines = []; control = Control.new; signals = []; stdout = [] }

-- Every definition of the controller.
device : Unit {0}
unfolding update_irq load_output take_output read_data dispatch handle push keyboard_command
    keyboard_param_byte keyboard_command_byte write_data controller_command run_controller_param
    pulse_reset press key_event status arch_update_irq stop_vm keysym_to_set1 letter_code key_lookup
    named_key function_or_extended Control.stop
device = tt

-- The keysyms of the test in the source.
keysyms :
    (keysym_to_set1 0x61 ≡ some (false, 0x1e))
    × (keysym_to_set1 0x5a ≡ some (false, 0x2c))
    × (keysym_to_set1 0x6d ≡ some (false, 0x32))
    × (keysym_to_set1 0x31 ≡ some (false, 0x02))
    × (keysym_to_set1 0x30 ≡ some (false, 0x0b))
    × (keysym_to_set1 0x21 ≡ some (false, 0x02))
    × (keysym_to_set1 0xffbe ≡ some (false, 0x3b))
    × (keysym_to_set1 0xffc7 ≡ some (false, 0x44))
    × (keysym_to_set1 0xff52 ≡ some (true, 0x48))
    × (keysym_to_set1 0xffe4 ≡ some (true, 0x1d))
    × (keysym_to_set1 0x1234 ≡ none)
unfolding device
keysyms = (refl, refl, refl, refl, refl, refl, refl, refl, refl, refl, refl)

-- Two bytes pending, the line high.
abbrev busy : I8042
busy = record new { output = some 0x1e; queue = 0x9e ∷ []; irq_level = true }

abbrev high : Host
high = record quiet { lines = record { num = 1; level = 1 } ∷ [] }

busy-IsValid : IsValid busy high
busy-IsValid = record { loaded = λ e. cc; wired = refl }

reset_reply : pending (handle willing (write_at 0x60 0 0xff []) new quiet).0 ≡ 0xfa ∷ 0xaa ∷ []
unfolding device
reset_reply = refl

handle-IsValid_example :
    IsValid
      (handle willing (read_at 0x60 0 0 []) busy high).0
      (handle willing (read_at 0x60 0 0 []) busy high).1
    × ((handle willing (read_at 0x60 0 0 []) busy high).0.irq_level
        ≡ wanted_level (handle willing (read_at 0x60 0 0 []) busy high).0)
handle-IsValid_example =
    handle-IsValid willing (read_at 0x60 0 0 []) busy high busy-IsValid (unfold device in refl)

handle_reads_oldest_example :
    ((handle willing (read_at 0x60 0 0 []) busy high).2 ≡ ok (0x1e ∷ []))
    × (pending (handle willing (read_at 0x60 0 0 []) busy high).0 ≡ 0x9e ∷ [])
handle_reads_oldest_example =
    handle_reads_oldest willing 0 0 [] busy high busy-IsValid.loaded (unfold device in refl)

handle_read_edge_example :
    ((handle willing (read_at 0x60 0 0 []) busy high).2 ≡ ok (0x1e ∷ []))
    × ((handle willing (read_at 0x60 0 0 []) busy high).1.lines
        ≡ record { num = 1; level = 1 } ∷ record { num = 1; level = 0 } ∷ high.lines)
handle_read_edge_example =
    handle_read_edge willing 0 0 0x1e 0x9e [] [] busy high (λ lines l. refl) refl
      busy-IsValid.loaded refl refl

key_event_bytes_example :
    pending (key_event willing false 0xff52 busy high).0 ≡ 0x1e ∷ 0x9e ∷ 0xe0 ∷ 0xc8 ∷ []
key_event_bytes_example =
    key_event_bytes willing false true 0xff52 0x48 busy high busy-IsValid.loaded refl refl
      (unfold device in refl)
