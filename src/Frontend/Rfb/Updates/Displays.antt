-- ===== src/Frontend/Rfb/Updates/Displays.antt =====
-- The displays of src/frontend/rfb.rs and src/arch/x86_64/vga.rs, against the contract of
-- Display::render.
use kvm_rust.Arch.Vga.{Vga}
use kvm_rust.Arch.Vga.Display.{draw, render}
use kvm_rust.Frontend.Rfb.Updates.{Render, Drawn, no_display}
use kvm_rust.Frontend.Rfb.Updates.Picture.{IsRender}
use kvm_rust.Base.{List, Option, arith, ℕ}

-- NoDisplay keeps the contract of Display::render for its 320 by 200 pixels.
pub no_display-IsRender : IsRender 320 200 no_display
unfolding no_display
no_display-IsRender = record {
  idle = λ out seen i e. ground arith;
  drawn = λ out seen first last e. ground arith;
  kept = λ out seen first last i e far lt. ground arith;
}

-- One call on the VGA adapter, at what the ring, the dirty log and the framebuffer then are.
abbrev pub vga_render : List (ℕ × List ℕ) → Option (Option ℕ) → (ℕ → ℕ) → Vga → Render
unfolding render
vga_render queued log framebuffer d out seen =
    let (d', picture, frame, rows) = render queued log framebuffer out seen d in
    record { out = picture; seen = frame; rows = rows }

-- The same, from the range of pages.
abbrev vga_drawn : Vga → (ℕ → ℕ) → (ℕ → ℕ) → Option (ℕ × ℕ) → Drawn
unfolding draw
vga_drawn d framebuffer out pages =
    let (d', picture, frame, rows) = draw framebuffer out d pages in
    record { out = picture; seen = frame; rows = rows }
