-- ===== src/Arch/I8042/Writes.antt =====
-- src/arch/x86_64/i8042.rs: writes of the guest, and keys of the user.
use kvm_rust.Base.{
  ==-true, Bool, List, Option, Option-cases, [], all_below, all_below_sound, arith, bit_and, bit_or,
  clear8, false, has, if◌then◌else◌, inl, inr, is_some, none, not, refl, some, suc, take, true, ℕ,
  ◌&&◌, ◌++◌, ◌+◌, ◌<◌, ◌==◌, ◌||◌, ◌∷◌, ◌≡◌,
}
use kvm_rust.Vm.Host.{Host, Kvm, Io, io_out, stop_vm}
use kvm_rust.Vm.Control
use kvm_rust.Arch.I8042.{
  I8042, i8042_data, i8042_command, dispatch, handle, write_data, controller_command,
  run_controller_param, pulse_reset, press, key_event, config_kbd_disable, set_config,
}
use kvm_rust.Arch.I8042.Keymap.{keysym_to_set1}
use kvm_rust.Arch.I8042.Keymap.Codes.{keysym_to_set1-IsMake}
use kvm_rust.Arch.I8042.Line.{update_irq-relevel, update_irq-host}
use kvm_rust.Arch.I8042.Fifo.{IsLoaded, pending, to_list, push-pending, push_two}

-- A write of `n + 1` bytes whose slice begins with `x`.
abbrev pub write_at : ℕ → ℕ → ℕ → List ℕ → Io
write_at port n x xs = record {
  direction = io_out;
  port = port;
  size = suc n;
  count = 1;
  bytes = x ∷ xs;
}

-- The byte sequence of a key going down or up.
abbrev pub scancode : Bool → Bool → ℕ → List ℕ
scancode extended down code =
    (if extended then 0xe0 ∷ [] else []) ++ (if down then code else code + 0x80) ∷ []

break_table : all_below 0x80 (λ c. bit_or c 0x80 == c + 0x80) ≡ true
unfolding all_below
break_table = refl

break_code : (c : ℕ) → c < 0x80 → bit_or c 0x80 ≡ c + 0x80
break_code c h =
    (==-true _ _).0 (all_below_sound 0x80 (λ c. bit_or c 0x80 == c + 0x80) c break_table h)

press-pending :
    (extended down : Bool) (code : ℕ) (d : I8042)
    → code < 0x80
    → IsLoaded d
    → pending (press extended down code d) ≡ pending d ++ scancode extended down code
unfolding press
press-pending true true code d h l = (push_two 0xe0 code d l).0
press-pending true false code d h l = rw (break_code code h) (push_two 0xe0 (code + 0x80) d l).0
press-pending false true code d h l = (push-pending code d l).0
press-pending false false code d h l = rw (break_code code h) (push-pending (code + 0x80) d l).0

-- While the keyboard scans and its port is enabled, a key that has a scancode adds the key's bytes
-- behind those already pending: 0xe0 for an extended key, then its code, with 0x80 added on release.
pub key_event_bytes :
    (kvm : Kvm) (down extended : Bool) (keysym code : ℕ) (d : I8042) (h : Host)
    → IsLoaded d
    → d.scanning ≡ true
    → has d.config config_kbd_disable ≡ false
    → keysym_to_set1 keysym ≡ some (extended, code)
    → pending (key_event kvm down keysym d h).0 ≡ pending d ++ scancode extended down code
unfolding key_event
key_event_bytes kvm down extended keysym code d h l s e k =
    let pressed = press extended down code d in
    ground (
      arith,
      press-pending extended down code d (keysym_to_set1-IsMake keysym extended code k).1 l,
      update_irq-relevel kvm pressed h,
    )

-- The answer of the keyboard to a byte, given the command that waits for its parameter.
abbrev pub reply : Option ℕ → ℕ → List ℕ
reply (some cmd) byte = if cmd == 0xf0 && byte == 0 then 0xfa ∷ 0x01 ∷ [] else 0xfa ∷ []
reply none byte =
    if byte == 0xee
    then 0xee ∷ []
    else if byte == 0xf2
    then 0xfa ∷ 0xab ∷ 0x83 ∷ []
    else if byte == 0xff
    then 0xfa ∷ 0xaa ∷ []
    else 0xfa ∷ []

-- A reset drops what is queued, but not the byte in the output buffer.
abbrev pub kept_by : I8042 → ℕ → List ℕ
kept_by d byte =
    if not (is_some d.keyboard_param) && byte == 0xff then to_list d.output else pending d

abbrev enabled : I8042 → I8042
enabled d = set_config (λ c. clear8 c config_kbd_disable) d

-- The writes that reset the machine: the pulse command, or the output port with its bit 0 low.
abbrev pub resets : I8042 → ℕ → ℕ → Bool
resets d port x =
    (port == i8042_command && x == 0xfe)
    || (port == i8042_data && (elim d.controller_param [
      | some cmd ↦ cmd == 0xd1 && (bit_and x 1 == 0)
      | none ↦ false
    ]))

controller_command_stops :
    (cmd : ℕ) (d : I8042) (h : Host)
    → (controller_command cmd d h).1.control.should_stop ≡ (cmd == 0xfe) || h.control.should_stop
unfolding controller_command pulse_reset stop_vm Control.stop
controller_command_stops cmd d h = ground arith

write_data_stops :
    (byte : ℕ) (d : I8042) (h : Host)
    → (write_data byte d h).1.control.should_stop
      ≡ resets d i8042_data byte || h.control.should_stop
unfolding write_data run_controller_param
write_data_stops byte d h = elim (Option-cases d.controller_param) [
  | inl e ↦ ground arith
  | inr (cmd, e) ↦
      ground (arith, controller_command_stops 0xfe (record d { controller_param = none }) h)
]

dispatch_stops :
    (kvm : Kvm) (port x : ℕ) (xs : List ℕ) (d : I8042) (h : Host)
    → (dispatch kvm io_out port (x ∷ xs) d h).1.control.should_stop
      ≡ resets d port x || h.control.should_stop
unfolding dispatch
dispatch_stops kvm port x xs d h = ground (
  arith,
  write_data_stops x (record d { status_cmd = false }) h,
  controller_command_stops x (record d { status_cmd = true; controller_param = none }) h,
)

-- A write stops the VM exactly when it is the pulse command or writes the output port with its bit
-- 0 low, or the VM was stopping before.
pub handle_stops :
    (kvm : Kvm) (port n x : ℕ) (xs : List ℕ) (d : I8042) (h : Host)
    → (handle kvm (write_at port n x xs) d h).1.control.should_stop
      ≡ resets d port x || h.control.should_stop
unfolding handle
handle_stops kvm port n x xs d h =
    let done = dispatch kvm io_out port (x ∷ take n xs) d h in
    ground (arith, dispatch_stops kvm port x (take n xs) d h, update_irq-host kvm done.0 done.1)
