-- ===== src/Arch/I8042/Invariant.antt =====
-- src/arch/x86_64/i8042.rs: an invariant of the output buffer and the interrupt line.
use kvm_rust.Base.{
  Bool, List, Option-cases, arith, clear8, false, get_or, inl, inr, is_ok, none, take, true, ℕ, ◌≡◌,
}
use kvm_rust.Vm.Host.{Host, Kvm, Io, Direction, io_in, io_out, neither, stop_vm}
use kvm_rust.Arch.I8042.{
  I8042, wanted_level, push, load_output, take_output, read_data, controller_command, pulse_reset,
  run_controller_param, keyboard_param_byte, keyboard_command_byte, keyboard_command, write_data,
  dispatch, handle, press, key_event, set_config, config_kbd_disable,
}
use kvm_rust.Arch.I8042.Keymap.{keysym_to_set1}
use kvm_rust.Arch.I8042.Line.{IsWired, update_irq-relevel, update_irq-IsWired}
use kvm_rust.Arch.I8042.Fifo.{IsLoaded}

pub record IsValid (d : I8042) (h : Host) : Type 0 where
  pub loaded : IsLoaded d
  pub wired : IsWired d h

-- A step that leaves the line alone and the buffer loaded.
record Kept (d : I8042) (d' : I8042) : Type 0 where
  loaded' : IsLoaded d'
  level' : d'.irq_level ≡ d.irq_level

keyboard_param_byte-Kept :
    (cmd byte : ℕ) (d : I8042) → IsLoaded d → Kept d (keyboard_param_byte cmd byte d)
unfolding keyboard_param_byte push load_output
keyboard_param_byte-Kept cmd byte d l = ground arith

keyboard_command_byte-Kept :
    (byte : ℕ) (d : I8042) → IsLoaded d → Kept d (keyboard_command_byte byte d)
unfolding keyboard_command_byte push load_output
keyboard_command_byte-Kept byte d l = ground arith

abbrev enabled : I8042 → I8042
enabled d = set_config (λ c. clear8 c config_kbd_disable) d

keyboard_command-Kept : (byte : ℕ) (d : I8042) → IsLoaded d → Kept d (keyboard_command byte d)
unfolding keyboard_command
keyboard_command-Kept byte d l = elim (Option-cases d.keyboard_param) [
  | inl e ↦ ground (arith, keyboard_command_byte-Kept byte (enabled d))
  | inr (cmd, e) ↦
      ground
        (arith, keyboard_param_byte-Kept cmd byte (record (enabled d) { keyboard_param = none }))
]

controller_command-Kept :
    (cmd : ℕ) (d : I8042) (h : Host)
    → IsLoaded d
    → let (d', h', r) = controller_command cmd d h in Kept d d' × (h'.lines ≡ h.lines)
unfolding controller_command push load_output pulse_reset stop_vm
controller_command-Kept cmd d h l = ground arith

run_controller_param-Kept :
    (cmd byte : ℕ) (d : I8042) (h : Host)
    → IsLoaded d
    → let (d', h', r) = run_controller_param cmd byte d h in Kept d d' × (h'.lines ≡ h.lines)
unfolding run_controller_param push load_output
run_controller_param-Kept cmd byte d h l = ground (arith, controller_command-Kept 0xfe d h)

write_data-Kept :
    (byte : ℕ) (d : I8042) (h : Host)
    → IsLoaded d
    → let (d', h', r) = write_data byte d h in Kept d d' × (h'.lines ≡ h.lines)
unfolding write_data
write_data-Kept byte d h l = elim (Option-cases d.controller_param) [
  | inl e ↦ ground (arith, keyboard_command-Kept byte d)
  | inr (cmd, e) ↦
      ground (arith, run_controller_param-Kept cmd byte (record d { controller_param = none }) h)
]

-- Reading a byte: the line drops while the output buffer is empty, and then the buffer is loaded.
read_data-IsValid :
    (kvm : Kvm) (d : I8042) (h : Host)
    → IsValid d h
    → let (d', h', r) = read_data kvm d h in is_ok r ≡ true → IsValid d' h'
unfolding read_data take_output load_output
read_data-IsValid kvm d h v e = ground (
  arith,
  update_irq-relevel kvm (record d { output = none }) h,
  update_irq-IsWired kvm (record d { output = none }) h,
)

dispatch-IsValid :
    (kvm : Kvm) (dir : Direction) (port : ℕ) (bytes : List ℕ) (d : I8042) (h : Host)
    → IsValid d h
    → let (d', h', r) = dispatch kvm dir port bytes d h in is_ok r ≡ true → IsValid d' h'
unfolding dispatch
dispatch-IsValid kvm io_in port bytes d h v e = ground (arith, read_data-IsValid kvm d h)
dispatch-IsValid kvm io_out port bytes d h v e = ground (
  arith,
  write_data-Kept (get_or bytes 0 0) (record d { status_cmd = false }) h,
  controller_command-Kept (get_or bytes 0 0)
      (record d { status_cmd = true; controller_param = none }) h,
)
dispatch-IsValid kvm neither port bytes d h v e = v

-- Every port access that returns normally keeps the invariant, and leaves the line at the level
-- that the registers ask for.
pub handle-IsValid :
    (kvm : Kvm) (io : Io) (d : I8042) (h : Host)
    → IsValid d h
    → let (d', h', r) = handle kvm io d h in
      is_ok r ≡ true → IsValid d' h' × (d'.irq_level ≡ wanted_level d')
unfolding handle
handle-IsValid kvm io d h v e =
    let slice = take io.size io.bytes in
    let done = dispatch kvm io.direction io.port slice d h in
    ground (
      arith,
      dispatch-IsValid kvm io.direction io.port slice d h,
      update_irq-relevel kvm done.0 done.1,
      update_irq-IsWired kvm done.0 done.1,
    )

press-Kept :
    (extended down : Bool) (code : ℕ) (d : I8042) → IsLoaded d → Kept d (press extended down code d)
unfolding press push load_output
press-Kept extended down code d l = ground arith

-- So does every key event.
pub key_event-IsValid :
    (kvm : Kvm) (down : Bool) (keysym : ℕ) (d : I8042) (h : Host)
    → IsValid d h
    → d.irq_level ≡ wanted_level d
    → let (d', h', r) = key_event kvm down keysym d h in
      is_ok r ≡ true → IsValid d' h' × (d'.irq_level ≡ wanted_level d')
unfolding key_event
key_event-IsValid kvm down keysym d h v s e = elim (Option-cases (keysym_to_set1 keysym)) [
  | inl silent ↦ ground arith
  | inr ((extended, code), found) ↦
      let pressed = press extended down code d in
      ground (
        arith,
        press-Kept extended down code d,
        update_irq-relevel kvm pressed h,
        update_irq-IsWired kvm pressed h,
      )
]
