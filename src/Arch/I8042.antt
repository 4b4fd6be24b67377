-- ===== src/Arch/I8042.antt =====
-- src/arch/x86_64/i8042.rs: the PS/2 controller with a keyboard on its first port.
pub mod Keymap
pub mod Line
pub mod Fifo
pub mod Invariant
pub mod Reads
pub mod Writes
pub mod Reset
mod Tests
use mathlib.Core.Option
use mathlib.Core.List.{foldl}
use kvm_rust.Base.{
  Bool, List, Option, [], as_num, bit_and, bit_or, bool_eq, clear8, drop, false, first_byte, get_or,
  has, if◌then◌else◌, is_some, length, none, not, ok, put_first, replicate, some, take, true, ℕ,
  ◌&&◌, ◌++◌, ◌==◌, ◌||◌, ◌∷◌,
}
use kvm_rust.Vm.Host.{
  Method, ◌>>=◌, ◌>>◌, pure, modify, lift, Kvm, arch_update_irq, stop_vm, Io, Direction, io_in,
  io_out, neither, Host,
}
use Keymap.{keysym_to_set1}

abbrev pub i8042_data : ℕ
i8042_data = 0x60

abbrev pub i8042_command : ℕ
i8042_command = 0x64

abbrev pub i8042_irq : ℕ
i8042_irq = 1

abbrev pub status_obf : ℕ
status_obf = 0x01

abbrev pub status_sys : ℕ
status_sys = 0x04

abbrev pub status_cmd_bit : ℕ
status_cmd_bit = 0x08

abbrev pub status_unlocked : ℕ
status_unlocked = 0x10

abbrev pub config_kbd_int : ℕ
config_kbd_int = 0x01

abbrev pub config_sys : ℕ
config_sys = 0x04

abbrev pub config_kbd_disable : ℕ
config_kbd_disable = 0x10

abbrev pub config_aux_disable : ℕ
config_aux_disable = 0x20

abbrev pub config_translate : ℕ
config_translate = 0x40

abbrev pub kbd_ack : ℕ
kbd_ack = 0xfa

abbrev pub kbd_self_test_ok : ℕ
kbd_self_test_ok = 0xaa

-- `vm_fd` and `control` are the host that every method takes beside the device.
pub record I8042 : Type 0 where
  pub config : ℕ
  pub output : Option ℕ
  pub queue : List ℕ
  pub controller_param : Option ℕ
  pub keyboard_param : Option ℕ
  pub status_cmd : Bool
  pub scanning : Bool
  pub irq_level : Bool

abbrev pub new : I8042
new = record {
  config = bit_or (bit_or (bit_or config_kbd_int config_sys) config_aux_disable) config_translate;
  output = none;
  queue = [];
  controller_param = none;
  keyboard_param = none;
  status_cmd = false;
  scanning = true;
  irq_level = false;
}

-- `self.output = self.queue.pop_front()`
pub load_output : I8042 → I8042
load_output d = elim d.queue [
  | [] ↦ record d { output = none }
  | b ∷ bs ↦ record d { output = some b; queue = bs }
]

pub push : ℕ → I8042 → I8042
push byte d =
    let queued = record d { queue = d.queue ++ byte ∷ [] } in
    if is_some d.output then queued else load_output queued

-- The level that the interrupt line should have.
abbrev pub wanted_level : I8042 → Bool
wanted_level d = is_some d.output && has d.config config_kbd_int

pub update_irq : Kvm → Method I8042 (Unit {0})
update_irq kvm d h =
    if bool_eq (wanted_level d) d.irq_level
    then (d, h, ok tt)
    else arch_update_irq kvm (as_num (wanted_level d)) i8042_irq
        (record d { irq_level = wanted_level d }) h

-- `self.output.take().unwrap_or(0)`
pub take_output : Method I8042 ℕ
take_output d h = (record d { output = none }, h, ok (Option.get_or d.output 0))

pub read_data : Kvm → Method I8042 ℕ
read_data kvm = do byte ← take_output; update_irq kvm; modify load_output; pure byte

pub status : I8042 → ℕ
status d =
    let s1 = if is_some d.output then bit_or status_unlocked status_obf else status_unlocked in
    let s2 = if has d.config config_sys then bit_or s1 status_sys else s1 in
    if d.status_cmd then bit_or s2 status_cmd_bit else s2

abbrev pub set_config : (ℕ → ℕ) → I8042 → I8042
set_config f d = record d { config = f d.config }

pub pulse_reset : Method I8042 (Unit {0})
pulse_reset = stop_vm

pub controller_command : ℕ → Method I8042 (Unit {0})
controller_command cmd =
    if cmd == 0x20
    then modify (λ d. push d.config d)
    else if cmd == 0x60 || cmd == 0xd1 || cmd == 0xd2
    then modify (λ d. record d { controller_param = some cmd })
    else if cmd == 0xa7
    then modify (set_config (λ c. bit_or c config_aux_disable))
    else if cmd == 0xa8
    then modify (set_config (λ c. clear8 c config_aux_disable))
    else if cmd == 0xaa
    then modify (λ d. push 0x55 (set_config (λ c. bit_or c config_sys) d))
    else if cmd == 0xab
    then modify (push 0x00)
    else if cmd == 0xad
    then modify (set_config (λ c. bit_or c config_kbd_disable))
    else if cmd == 0xae
    then modify (set_config (λ c. clear8 c config_kbd_disable))
    else if cmd == 0xfe
    then pulse_reset
    else pure tt

pub run_controller_param : ℕ → ℕ → Method I8042 (Unit {0})
run_controller_param cmd byte =
    if cmd == 0x60
    then modify (λ d. record d { config = byte })
    else if cmd == 0xd1 && (bit_and byte 1 == 0)
    then controller_command 0xfe
    else if cmd == 0xd2
    then modify (push byte)
    else pure tt

-- The reply to the parameter byte of a keyboard command.
pub keyboard_param_byte : ℕ → ℕ → I8042 → I8042
keyboard_param_byte cmd byte d =
    if cmd == 0xf0 && byte == 0 then push 1 (push kbd_ack d) else push kbd_ack d

-- A keyboard command itself.
pub keyboard_command_byte : ℕ → I8042 → I8042
keyboard_command_byte byte d =
    if byte == 0xed || byte == 0xf0 || byte == 0xf3
    then push kbd_ack (record d { keyboard_param = some byte })
    else if byte == 0xee
    then push 0xee d
    else if byte == 0xf2
    then foldl (λ d' b. push b d') (push kbd_ack d) (0xab ∷ 0x83 ∷ [])
    else if byte == 0xf4
    then push kbd_ack (record d { scanning = true })
    else if byte == 0xf5
    then push kbd_ack (record d { scanning = false })
    else if byte == 0xff
    then push kbd_self_test_ok (push kbd_ack (record d { scanning = true; queue = [] }))
    else push kbd_ack d

pub keyboard_command : ℕ → I8042 → I8042
keyboard_command byte d =
    let enabled = set_config (λ c. clear8 c config_kbd_disable) d in
    elim d.keyboard_param [
      | some cmd ↦ keyboard_param_byte cmd byte (record enabled { keyboard_param = none })
      | none ↦ keyboard_command_byte byte enabled
    ]

-- A byte written to 0x60: the parameter of a waiting controller command, or for the keyboard.
pub write_data : ℕ → Method I8042 (Unit {0})
write_data byte d h = elim d.controller_param [
  | some cmd ↦ run_controller_param cmd byte (record d { controller_param = none }) h
  | none ↦ (keyboard_command byte d, h, ok tt)
]

-- The match of `handle` on direction and port; it returns the data slice as it leaves it.
pub dispatch : Kvm → Direction → ℕ → List ℕ → Method I8042 (List ℕ)
dispatch kvm io_in port bytes =
    if port == i8042_data
    then (do byte ← read_data kvm; lift (put_first byte bytes))
    else if port == i8042_command
    then (λ d h. (d, h, put_first (status d) bytes))
    else pure (replicate (length bytes) 0xff)
dispatch kvm io_out port bytes =
    if port == i8042_data
    then (do
      modify (λ d. record d { status_cmd = false })
      byte ← lift (first_byte bytes)
      write_data byte
      pure bytes)
    else if port == i8042_command
    then (do
      modify (λ d. record d { status_cmd = true; controller_param = none })
      byte ← lift (first_byte bytes)
      controller_command byte
      pure bytes)
    else pure bytes
dispatch kvm neither port bytes = pure bytes

-- The slice that the handler takes has `size` bytes, whatever `count` is.
pub handle : Kvm → Io → Method I8042 (List ℕ)
handle kvm io = do
  slice ← dispatch kvm io.direction io.port (take io.size io.bytes)
  update_irq kvm
  pure (slice ++ drop io.size io.bytes)

-- The bytes of a key with a scancode.
pub press : Bool → Bool → ℕ → I8042 → I8042
press extended down code d =
    push (if down then code else bit_or code 0x80) (if extended then push 0xe0 d else d)

pub key_event : Kvm → Bool → ℕ → Method I8042 (Unit {0})
key_event kvm down keysym d h =
    if not d.scanning || has d.config config_kbd_disable
    then (d, h, ok tt)
    else elim (keysym_to_set1 keysym) [
      | none ↦ (d, h, ok tt)
      | some (extended, code) ↦ update_irq kvm (press extended down code d) h
    ]
