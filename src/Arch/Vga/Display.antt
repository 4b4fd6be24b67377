-- ===== src/Arch/Vga/Display.antt =====
-- src/arch/x86_64/vga.rs: port accesses as KVM reports them, and the frames for the frontends.
pub mod Pages
pub mod Range
use kvm_rust.Base.{
  Bool, List, Option, Outcome, [], bit_or, drop, false, get_or, has, if◌then◌else◌, leb, ltb, min,
  none, ok, panic, some, suc, take, u8, zero, ℕ, ◌%◌, ◌&&◌, ◌*◌, ◌++◌, ◌+◌, ◌/◌, ◌<<<◌, ◌==◌, ◌>>>◌,
  ◌^◌, ◌||◌, ◌∷◌,
}
use kvm_rust.Vm.Host.{Io, Direction, io_in, io_out, neither}
use kvm_rust.Arch.Vga.{Vga, Rgb, black, write, read, apply_queued_writes, framebuffer_pages, ac_pas}

-- One access: each of its bytes at the next port.
unfoldable pub access : Direction → ℕ → ℕ → List ℕ → Vga → Vga × List ℕ
access dir nanos port [] d = (d, [])
access io_out nanos port (byte ∷ bytes) d =
    let (d', rest) = access io_out nanos (port + 1) bytes (write port byte d) in (d', byte ∷ rest)
access io_in nanos port (byte ∷ bytes) d =
    let (d1, v) = read nanos port d in
    let (d', rest) = access io_in nanos (port + 1) bytes d1 in (d', v ∷ rest)
access neither nanos port (byte ∷ bytes) d =
    let (d', rest) = access neither nanos (port + 1) bytes d in (d', byte ∷ rest)

-- The accesses of a rep string instruction, all at the same port.
unfoldable pub accesses : Direction → ℕ → ℕ → ℕ → ℕ → List ℕ → Vga → Vga × List ℕ
accesses dir nanos port size zero bytes d = (d, bytes)
accesses dir nanos port size (suc count) bytes d =
    let (d1, done) = access dir nanos port (take size bytes) d in
    let (d', rest) = accesses dir nanos port size count (drop size bytes) d1 in (d', done ++ rest)

-- `queued` is what the ring holds, and `nanos` the time, which does not move within one exit. A size
-- of zero makes `chunks_mut` panic.
unfoldable pub handle : List (ℕ × List ℕ) → ℕ → Io → Vga → Vga × Outcome (List ℕ)
handle queued nanos io d =
    let d1 = apply_queued_writes queued d in
    let (d', bytes) = accesses io.direction nanos io.port io.size io.count io.bytes d1 in
    if io.size == 0 then (d1, panic) else (d', ok bytes)

-- The word of the dirty log for the framebuffer's pages. `log` is none if there is no log, and some
-- none if fetching it fails: then every page counts as written.
unfoldable pub page_bitmap : Vga → Option (Option ℕ) → ℕ
page_bitmap d log =
    if d.has_framebuffer
    then elim log [
      | some (some bitmap) ↦ bitmap
      | some none ↦ 0xffff_ffff_ffff_ffff
      | none ↦ 0xffff_ffff_ffff_ffff
    ]
    else 0

abbrev pub is_dirty : ℕ → ℕ → Bool
is_dirty bitmap page = bitmap / 2 ^ page % 2 == 1

-- The loop over the pages, from number `page` on.
unfoldable pub mark : Bool → ℕ → ℕ → ℕ → List ℕ → List ℕ
mark repaint bitmap frame page [] = []
mark repaint bitmap frame page (w ∷ ws) =
    (if repaint || is_dirty bitmap page then frame else w) ∷ mark repaint bitmap frame (suc page) ws

abbrev pub changed : ℕ → ℕ → Bool
changed seen w = seen == 0 || ltb seen w

-- `position` and `rposition`, counted from `i`.
unfoldable pub first_changed : ℕ → ℕ → List ℕ → Option ℕ
first_changed seen i [] = none
first_changed seen i (w ∷ ws) =
    let rest = first_changed seen (suc i) ws in if changed seen w then some i else rest

unfoldable pub last_changed : ℕ → ℕ → List ℕ → Option ℕ
last_changed seen i [] = none
last_changed seen i (w ∷ ws) = elim (last_changed seen (suc i) ws) [
  | some j ↦ some j
  | none ↦ if changed seen w then some i else none
]

-- The pages from the first to behind the last that was written after frame `seen`.
unfoldable pub written_pages : Option (Option ℕ) → ℕ → Vga → Vga × Option (ℕ × ℕ)
written_pages log seen d =
    let frame = d.frame + 1 in
    let pages = mark d.repaint (page_bitmap d log) frame 0 d.page_written in
    (
      record d { frame = frame; page_written = pages; repaint = false },
      elim (first_changed seen 0 pages) [
        | none ↦ none
        | some first ↦ elim (last_changed seen 0 pages) [
          | none ↦ none
          | some final ↦ some (first, final + 1)
        ]
      ],
    )

-- A 6-bit component as 8 bits, and a palette entry as 0x00RRGGBB.
abbrev pub widen : ℕ → ℕ
widen c = bit_or (u8 (c <<< 2)) (c >>> 4)

abbrev pub entry_rgb : Rgb → ℕ
entry_rgb c = bit_or (bit_or (widen c.r <<< 16) (widen c.g <<< 8)) (widen c.b)

-- The rows of 320 pixels that the pages hold, of the 64000 in all.
abbrev pub rows_of : ℕ × ℕ → ℕ × ℕ
rows_of (start, stop) = (start * 4096 / 320, (min (stop * 4096) 64000 + 319) / 320)

-- The colour of a pixel, given the framebuffer's bytes: black while the display is off.
unfoldable pub pixel : Vga → (ℕ → ℕ) → ℕ → ℕ
pixel d framebuffer i =
    if d.has_framebuffer && has d.ac_index ac_pas
    then entry_rgb (get_or d.palette (framebuffer i) black)
    else 0

-- The device, the new picture, the frame now seen, and the rows that were drawn.
unfoldable pub draw : (ℕ → ℕ) → (ℕ → ℕ) → Vga → Option (ℕ × ℕ) → Vga × (ℕ → ℕ) × ℕ × Option (ℕ × ℕ)
draw framebuffer out d none = (d, out, d.frame, none)
draw framebuffer out d (some range) =
    let (top, bottom) = rows_of range in
    (
      d,
      λ i. if leb (top * 320) i && ltb i (bottom * 320) then pixel d framebuffer i else out i,
      d.frame,
      some (top, bottom),
    )

unfoldable pub render :
    List (ℕ × List ℕ)
    → Option (Option ℕ)
    → (ℕ → ℕ)
    → (ℕ → ℕ)
    → ℕ
    → Vga
    → Vga × (ℕ → ℕ) × ℕ × Option (ℕ × ℕ)
unfolding draw
render queued log framebuffer out seen d =
    let (d', pages) = written_pages log seen (apply_queued_writes queued d) in
    draw framebuffer out d' pages
