-- ===== src/Vm/Devices.antt =====
-- The devices of a VM in src/main.rs and how an exit finds its device: add_mmio_device, handle_mmio,
-- poll_mmio_devices, and arch_handle_io of src/arch/x86_64/io.rs.
pub mod Map
mod Tests
use kvm_rust.Vm.Host.{Method, pure, ◌>>=◌, ◌>>◌, Io, Mmio}
use kvm_rust.Base.{
  List, Option, [], if◌then◌else◌, none, some, within, ℕ, ◌-◌, ◌==◌, ◌>>>◌, ◌^◌, ◌||◌, ◌∷◌,
}

-- `dyn MMIODevice` and `dyn IODevice`, as methods on a store that has the devices' states and the
-- guest memory. They return the exit's bytes as they leave them.
pub record MmioDevice (S : Type 0) : Type 0 where
  pub handle : Mmio → Method S (List ℕ)
  pub poll : Method S (Unit {0})

pub record IoDevice (S : Type 0) : Type 0 where
  pub handle : Io → Method S (List ℕ)

-- A HashMap, in the order in which it iterates.
module _ {A : Type 0} where
  abbrev pub get : List (ℕ × A) → ℕ → Option A
  get [] k = none
  get ((j, a) ∷ m) k = if j == k then some a else get m k

  -- insert replaces the value of a key that is there.
  abbrev pub insert : ℕ → A → List (ℕ × A) → List (ℕ × A)
  insert k a [] = (k, a) ∷ []
  insert k a ((j, b) ∷ m) = if j == k then (j, a) ∷ m else (j, b) ∷ insert k a m

-- DeviceId, and its numbers.
pub data DeviceId : Type 0 where
  uart i8042 vga unknown : DeviceId

abbrev pub device_number : DeviceId → ℕ
device_number uart = 0
device_number i8042 = 1
device_number vga = 2
device_number unknown = 2 ^ 64 - 1

-- The match of arch_handle_io.
unfoldable pub device_of_port : ℕ → DeviceId
device_of_port port =
    if within 0x3f8 0x3ff port
    then uart
    else if port == 0x60 || port == 0x64
    then i8042
    else if within 0x3c0 0x3df port
    then vga
    else unknown

abbrev pub MmioDevices : Type 0 → Type 0
MmioDevices S = List (ℕ × MmioDevice S)

abbrev pub IoDevices : Type 0 → Type 0
IoDevices S = List (ℕ × IoDevice S)

module _ {S : Type 0} where
  unfoldable pub add_mmio_device : ℕ → MmioDevice S → MmioDevices S → MmioDevices S
  add_mmio_device addr device devices = insert (addr >>> 12) device devices

  -- Without a device the bytes stay.
  abbrev pub mmio_with : Option (MmioDevice S) → Mmio → Method S (List ℕ)
  mmio_with none x = pure x.bytes
  mmio_with (some device) x = device.handle x

  unfoldable pub handle_mmio : MmioDevices S → Mmio → Method S (List ℕ)
  handle_mmio devices x = mmio_with (get devices (x.phys_addr >>> 12)) x

  unfoldable pub poll_mmio_devices : MmioDevices S → Method S (Unit {0})
  poll_mmio_devices [] = pure tt
  poll_mmio_devices ((page, device) ∷ devices) = device.poll >> poll_mmio_devices devices

  abbrev pub io_with : Option (IoDevice S) → Io → Method S (List ℕ)
  io_with none x = pure x.bytes
  io_with (some device) x = device.handle x

  unfoldable pub arch_handle_io : IoDevices S → Io → Method S (List ℕ)
  unfolding device_of_port
  arch_handle_io devices x = io_with (get devices (device_number (device_of_port x.port))) x
