-- ===== src/Arch/Vga.antt =====
-- src/arch/x86_64/vga.rs: the registers of the VGA adapter, its palette, and which pages of the
-- framebuffer a frontend has not seen.
pub mod Palette
pub mod Display
mod Tests
use kvm_rust.Base.{
  Bool, List, [], bit_and, bit_or, bit_xor, false, get_or, has, if◌then◌else◌, leb, ltb, not,
  replicate, set, suc, true, u8, zero, ℕ, ◌%◌, ◌&&◌, ◌*◌, ◌+◌, ◌/◌, ◌==◌, ◌||◌, ◌∷◌,
}
use kvm_rust.Vm.Host.{Io, Direction, io_in, io_out, neither}

-- FRAMEBUFFER_PAGES, the 64000 bytes in pages of 4096.
abbrev pub framebuffer_pages : ℕ
framebuffer_pages = 16

abbrev pub ac_pas : ℕ
ac_pas = 0x20

abbrev pub instat_dd : ℕ
instat_dd = 0x01

abbrev pub instat_vr : ℕ
instat_vr = 0x08

abbrev pub dac_state_read : ℕ
dac_state_read = 0x03

-- A palette entry.
pub record Rgb : Type 0 where
  pub r : ℕ
  pub g : ℕ
  pub b : ℕ

-- An index into the palette, and the component that is next.
pub record Dac : Type 0 where
  pub index : ℕ
  pub component : ℕ

-- The registers and the state of the frames. `has_framebuffer` is `framebuffer.is_some()`.
pub record Vga : Type 0 where
  pub misc : ℕ
  pub seq_index : ℕ
  pub seq : List ℕ
  pub gc_index : ℕ
  pub gc : List ℕ
  pub crtc_index : ℕ
  pub crtc : List ℕ
  pub ac_index : ℕ
  pub ac_data_next : Bool
  pub ac : List ℕ
  pub palette : List Rgb
  pub dac_write : Dac
  pub dac_read : Dac
  pub dac_reading : Bool
  pub has_framebuffer : Bool
  pub frame : ℕ
  pub page_written : List ℕ
  pub repaint : Bool

abbrev pub new : Bool → Vga
new has_framebuffer = record {
  misc = 0;
  seq_index = 0;
  seq = replicate 8 0;
  gc_index = 0;
  gc = replicate 16 0;
  crtc_index = 0;
  crtc = replicate 32 0;
  ac_index = 0;
  ac_data_next = false;
  ac = replicate 32 0;
  palette = replicate 256 (record { r = 0; g = 0; b = 0 });
  dac_write = record { index = 0; component = 0 };
  dac_read = record { index = 0; component = 0 };
  dac_reading = false;
  has_framebuffer = has_framebuffer;
  frame = 0;
  page_written = replicate framebuffer_pages 0;
  repaint = false;
}

abbrev pub set_component : ℕ → ℕ → Rgb → Rgb
set_component zero v c = record c { r = v }
set_component (suc zero) v c = record c { g = v }
set_component (suc (suc _)) v c = record c { b = v }

abbrev pub get_component : ℕ → Rgb → ℕ
get_component zero c = c.r
get_component (suc zero) c = c.g
get_component (suc (suc _)) c = c.b

abbrev pub black : Rgb
black = record { r = 0; g = 0; b = 0 }

-- The position behind one component.
unfoldable pub next_component : Dac → Dac
next_component a =
    if a.component == 2
    then record { index = u8 (a.index + 1); component = 0 }
    else record { index = a.index; component = a.component + 1 }

unfoldable pub write_ac : ℕ → Vga → Vga
write_ac byte d =
    let d1 =
      if d.ac_data_next
      then record d { ac = set d.ac (bit_and d.ac_index 0x1f) byte }
      else record d {
        repaint = d.repaint || has (bit_xor d.ac_index byte) ac_pas;
        ac_index = bit_and byte 0x3f;
      } in
    record d1 { ac_data_next = not d.ac_data_next }

unfoldable pub write_dac : ℕ → Vga → Vga
write_dac byte d =
    let entry = get_or d.palette d.dac_write.index black in
    record d {
      palette =
          set d.palette d.dac_write.index
            (set_component d.dac_write.component (bit_and byte 0x3f) entry);
      repaint = true;
      dac_write = next_component d.dac_write;
    }

unfoldable pub write : ℕ → ℕ → Vga → Vga
write port byte d =
    if port == 0x3c0
    then write_ac byte d
    else if port == 0x3c2
    then record d { misc = byte }
    else if port == 0x3c4
    then record d { seq_index = bit_and byte 0x07 }
    else if port == 0x3c5
    then record d { seq = set d.seq d.seq_index byte }
    else if port == 0x3c7
    then record d { dac_read = record { index = byte; component = 0 }; dac_reading = true }
    else if port == 0x3c8
    then record d { dac_write = record { index = byte; component = 0 }; dac_reading = false }
    else if port == 0x3c9
    then write_dac byte d
    else if port == 0x3ce
    then record d { gc_index = bit_and byte 0x0f }
    else if port == 0x3cf
    then record d { gc = set d.gc d.gc_index byte }
    else if port == 0x3d4
    then record d { crtc_index = bit_and byte 0x1f }
    else if port == 0x3d5
    then record d { crtc = set d.crtc d.crtc_index byte }
    else d

-- The writes that KVM has queued in the ring, in order, each of its bytes to the next port.
abbrev pub write_bytes : ℕ → List ℕ → Vga → Vga
write_bytes port [] d = d
write_bytes port (byte ∷ bytes) d = write_bytes (port + 1) bytes (write port byte d)

unfoldable pub apply_queued_writes : List (ℕ × List ℕ) → Vga → Vga
apply_queued_writes [] d = d
apply_queued_writes ((port, bytes) ∷ ring) d = apply_queued_writes ring (write_bytes port bytes d)

-- `nanos` is the time since the epoch.
unfoldable pub input_status : ℕ → ℕ
input_status nanos =
    let dot = nanos * 25175 / 1000000 % (800 * 449) in
    let line = dot / 800 in
    let column = dot % 800 in
    let s1 = if leb 400 line || leb 640 column then instat_dd else 0 in
    if leb 412 line && ltb line 414 then bit_or s1 instat_vr else s1

unfoldable pub read_dac : Vga → Vga × ℕ
read_dac d = (
  record d { dac_read = next_component d.dac_read },
  get_component d.dac_read.component (get_or d.palette d.dac_read.index black),
)

unfoldable pub read : ℕ → ℕ → Vga → Vga × ℕ
read nanos port d =
    if port == 0x3c0
    then (d, d.ac_index)
    else if port == 0x3c1
    then (d, get_or d.ac (bit_and d.ac_index 0x1f) 0)
    else if port == 0x3c4
    then (d, d.seq_index)
    else if port == 0x3c5
    then (d, get_or d.seq d.seq_index 0)
    else if port == 0x3c7
    then (d, if d.dac_reading then dac_state_read else 0)
    else if port == 0x3c8
    then (d, d.dac_write.index)
    else if port == 0x3c9
    then read_dac d
    else if port == 0x3cc
    then (d, d.misc)
    else if port == 0x3ce
    then (d, d.gc_index)
    else if port == 0x3cf
    then (d, get_or d.gc d.gc_index 0)
    else if port == 0x3d4
    then (d, d.crtc_index)
    else if port == 0x3d5
    then (d, get_or d.crtc d.crtc_index 0)
    else if port == 0x3da
    then (record d { ac_data_next = false }, input_status nanos)
    else (d, 0xff)
