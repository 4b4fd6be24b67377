-- ===== src/Arch/Vga/Palette.antt =====
-- src/arch/x86_64/vga.rs: palette entries through the DAC ports.
use kvm_rust.Base.{
  ap, bit_and, get_or, get_or-set_ne, get_or-set_self, length, refl, set, set-set, ℕ, ◌%◌, ◌+◌, ◌<◌,
  ◌^◌, ◌∙◌, ◌≡◌, ◌≢◌,
}
use kvm_rust.Arch.Vga.{
  Vga, Rgb, black, set_component, next_component, write_dac, write, read_dac, read,
}

-- An index and the three components of its entry, as a driver writes them.
abbrev pub load_entry : ℕ → ℕ → ℕ → ℕ → Vga → Vga
load_entry i r g b d = write 0x3c9 b (write 0x3c9 g (write 0x3c9 r (write 0x3c8 i d)))

-- The three components that a driver reads back at an index.
abbrev pub read_entry : ℕ → ℕ → Vga → ℕ × ℕ × ℕ
read_entry nanos i d =
    let (d1, r) = read nanos 0x3c9 (write 0x3c7 i d) in
    let (d2, g) = read nanos 0x3c9 d1 in let (d3, b) = read nanos 0x3c9 d2 in (r, g, b)

abbrev pub six_bits : ℕ → ℕ → ℕ → Rgb
six_bits r g b = record { r = bit_and r 0x3f; g = bit_and g 0x3f; b = bit_and b 0x3f }

read_entry_lem :
    (i nanos : ℕ) (d : Vga)
    → read_entry nanos i d
      ≡ ((get_or d.palette i black).r, (get_or d.palette i black).g, (get_or d.palette i black).b)
unfolding read read_dac write next_component
read_entry_lem i nanos d = refl

module _ (d : Vga) (i : ℕ) (below : i < length d.palette) where
  abbrev old : Rgb
  old = get_or d.palette i black

  -- A component written to the entry, when the palette holds `c` there already.
  one_more :
      (c : Rgb) (k v : ℕ)
      → set (set d.palette i c) i (set_component k v (get_or (set d.palette i c) i black))
        ≡ set d.palette i (set_component k v c)
  one_more c k v =
      set-set d.palette i c _
      ∙ ap (λ x. set d.palette i (set_component k v x)) (get_or-set_self d.palette i c black below)

  load_entry-palette :
      (r g b : ℕ) → (load_entry i r g b d).palette ≡ set d.palette i (six_bits r g b)
  unfolding write write_dac next_component
  load_entry-palette r g b =
      let c1 = set_component 0 (bit_and r 0x3f) old in
      let c2 = set_component 1 (bit_and g 0x3f) c1 in
      ap (λ p. set p i (set_component 2 (bit_and b 0x3f) (get_or p i black)))
        (one_more c1 1 (bit_and g 0x3f))
      ∙ one_more c2 2 (bit_and b 0x3f)

  loaded : (r g b : ℕ) → get_or (load_entry i r g b d).palette i black ≡ six_bits r g b
  loaded r g b =
      ap (λ p. get_or p i black) (load_entry-palette r g b)
      ∙ get_or-set_self d.palette i (six_bits r g b) black below

-- An entry loaded through the DAC ports is read back as the low six bits of its components, at every
-- index of the palette; no other entry changes, and the write index moves on to the next entry,
-- modulo 256, so that entries can be loaded in a row.
pub load_entry_lem :
    (d : Vga) (i nanos r g b : ℕ)
    → i < length d.palette
    → let d' = load_entry i r g b d in
      (read_entry nanos i d' ≡ (bit_and r 0x3f, bit_and g 0x3f, bit_and b 0x3f))
      × ((j : ℕ) → i ≢ j → get_or d'.palette j black ≡ get_or d.palette j black)
      × (d'.dac_write ≡ record { index = (i + 1) % 2 ^ 8; component = 0 })
load_entry_lem d i nanos r g b below = (
  read_entry_lem i nanos (load_entry i r g b d)
      ∙ ap (λ (c : Rgb). (c.r, c.g, c.b)) (loaded d i below r g b),
  λ j ne.
      ap (λ p. get_or p j black) (load_entry-palette d i below r g b)
      ∙ get_or-set_ne d.palette i j (six_bits r g b) black ne,
  unfold load_entry-palette in refl,
)
