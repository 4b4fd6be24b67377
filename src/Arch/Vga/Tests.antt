-- ===== src/Arch/Vga/Tests.antt =====
-- The adapter at concrete accesses, after the tests in the source.
use kvm_rust.Base.{[], arith, false, get_or, none, refl, some, true, ℕ, ◌∷◌, ◌≡◌, ◌≢◌}
use kvm_rust.Arch.Vga.{
  black, new, write, write_ac, write_dac, next_component, read, read_dac, input_status,
  apply_queued_writes,
}
use kvm_rust.Arch.Vga.Palette.{load_entry, read_entry, load_entry_lem}
use kvm_rust.Arch.Vga.Display.{
  page_bitmap, mark, first_changed, last_changed, written_pages, pixel, draw, render,
}

device : Unit {0}
unfolding write write_ac write_dac next_component read read_dac input_status apply_queued_writes
    page_bitmap mark first_changed last_changed written_pages pixel draw render
device = tt

-- A word write sets the index, and its second byte goes to the data port.
queued_dac_writes :
    get_or
      (apply_queued_writes
        ((0x3c8, 7 ∷ []) ∷ (0x3c9, 0x3f ∷ []) ∷ (0x3c8, 9 ∷ 0x11 ∷ []) ∷ [])
        (new true)).palette
      9
      black
    ≡ record { r = 0x11; g = 0; b = 0 }
unfolding device
queued_dac_writes = refl

-- Without a framebuffer only a repaint changes anything.
first_frame : (written_pages none 0 (new false)).1 ≡ some (0, 16)
unfolding device
first_frame = refl

second_frame : (written_pages none 1 (written_pages none 0 (new false)).0).1 ≡ none
unfolding device
second_frame = refl

load_entry_lem_example :
    let d' = load_entry 1 0x3f 0x40 0x21 (new true) in
    (read_entry 0 1 d' ≡ (0x3f, 0, 0x21))
    × ((j : ℕ) → 1 ≢ j → get_or d'.palette j black ≡ get_or (new true).palette j black)
    × (d'.dac_write ≡ record { index = 2; component = 0 })
load_entry_lem_example = load_entry_lem (new true) 1 0 0x3f 0x40 0x21 (omega arith)
