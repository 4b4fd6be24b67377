-- ===== src/Lib.antt =====
-- A model of the virtual machine monitor of this repository, and what is proved of it. Paths are
-- from the repository's root.
--
-- The monitor runs a guest on KVM. A vcpu thread waits for an exit, finds the device of the port or
-- address (src/main.rs) and calls its handler; devices raise interrupts through KVM, and the virtio
-- devices read requests from guest memory and answer there. Frontends pass keys in and frames out.
--
-- Files and what they model:
--   Base, with Tests, Lists, Words, Results and Bits: shared types, Boolean tests, lists measured by
--     native numbers, machine words, `io::Result` with panics, and bitwise operations.
--   Util/Binary: src/util/binary.rs. read_le32, write_le32 and the other byte helpers. Util/Elf:
--     src/util/elf.rs.
--   Vm/Control: VmControl of src/main.rs. Vm/Host: what devices reach of the host (interrupt lines,
--     VmControl, standard output), arch_update_irq, and the exits Io and Mmio.
--   Vm/Slots: add_mem_region, set_user_memory_region and log_dirty_pages of src/main.rs on the slots
--     that KVM holds. Table, Lookup and Split say what the slots map; PartSlots, Parts, Adding,
--     DirtyPages and Success have the proofs. Vm/MemSize: the sizes that the command line takes.
--   Vm/Ring: CoalescedRing of src/main.rs, Drain against a queue. Vm/Devices: the lists of
--     devices in src/main.rs. Vm/Run: vcpu_run, the vcpu threads, run and kick, on exits in order.
--   Vm/Wakeup: a vcpu thread of src/main.rs beside the thread that stops or kicks it, as steps in
--     any order. Flow has the invariant, Stops what follows of it.
--   Memory: GuestMemory of src/main.rs, gpa_to_host, read_guest_ptr, write_guest_ptr and
--     load_data_to_memory. Access has the laws of reading and writing, Lookup of translation, Load of
--     load_data_to_memory.
--   Virtio/Bindings: vring structures of the generated bindings, as parameters.
--   Virtio/Queue: src/virtio/queue.rs. pop_avail in the steps next_chain, chain_at, walk and
--     add_desc; push_used. Chain, Avail, Bounds and Used have the proofs.
--   Virtio/Device: the VirtioDevice trait as a record, and the transport's registers. Virtio/Mmio:
--     src/virtio/mmio.rs. handle in read_register and write_register, queue_notify, poll.
--   Virtio/Buffers: a chain's write buffers. Virtio/Blk: src/virtio/blk.rs. Virtio/Net:
--     src/virtio/net.rs; each fills the VirtioDevice record.
--   Arch/I8042: src/arch/x86_64/i8042.rs. Arch/I8042/Keymap has keysym_to_set1. Arch/Uart: UART of
--     src/arch/x86_64/io.rs. Arch/Vga: src/arch/x86_64/vga.rs, with the accesses and frames in
--     Arch/Vga/Display. Arch/Pl011: UART of src/arch/aarch64/mmio.rs.
--   Arch/Pc: src/arch/x86_64/io.rs, which port is whose and how the guest resets. Arch/Boot:
--     src/arch/x86_64/init.rs, in Tables the layout in memory and in Ram the map of it. Arch/Vcpu:
--     src/arch/x86_64/vcpu.rs. Arch/Arm: src/arch/aarch64/init.rs and vcpu.rs.
--   Frontend/Rfb: pixel formats of src/frontend/rfb.rs, Session its handshake and messages, Updates
--     the loop that sends frames, with Picture and Mirror for what the client shows.
--     Frontend/Serial: the escape character of src/frontend/serial.rs.
-- Modules named Tests hold runs at concrete inputs.
--
-- How code is modelled. A device is a record of its fields, a method takes the device and the host
-- and returns both with its result, an error or a panic. Sums panic on overflow where they can, as in
-- a build that checks it; words that wrap do so by `%`. KVM, the generated bindings, the file system
-- and the network are parameters, with what is relied on as named hypotheses. Guest memory changes
-- only by the device's own writes during one call; locks and fences are therefore left out.
--
-- Bounds. The walk over a chain takes at most `num` rounds, as the source's loop does, and draining
-- a ring fewer rounds than it has entries. The loops of queue_notify and read_messages can go on as
-- long as the guest or client likes, so they count rounds and have a result for too few: theorems
-- below say how many are enough. The vcpu loop and the loop that sends frames run until
-- they are told to stop: they take a list of what each round meets, and go on no further than it.
--
-- Not modelled: the derived parser of Args and main; the ioctls that create the VM, its vcpus, the
-- interrupt chip and CPUID tables; the reader of ELF files, of which a loaded segment list is a
-- parameter; the start of threads, sockets and the terminal's mode; diagnostics that are printed;
-- the build script, which runs bindgen.
pub mod Base
pub mod Util
pub mod Vm
pub mod Arch
pub mod Memory
pub mod Virtio
pub mod Frontend
