-- ===== src/Frontend/Rfb/Updates/Picture.antt =====
-- The contract of Display::render in src/frontend/rfb.rs, and the picture that a client has.
use native.Mathlib.Nat.{mul_comm}
use kvm_rust.Memory.{bytes_from}
use kvm_rust.Frontend.Rfb.{PixelFormat}
use kvm_rust.Frontend.Rfb.Updates.{header, Render, Sender, Sent, encode_all, message, message_of}
use kvm_rust.Base.{
  >>=-eq-ok, Bool-cases, List, Option, [], ap, arith, get_or, if◌then◌else◌, inl, inr, leb, ltb,
  none, ok, ok-injective, panic, some, suc, sym, zero, ℕ, ◌&&◌, ◌*◌, ◌++◌, ◌+◌, ◌-◌, ◌<◌, ◌||◌, ◌∙◌,
  ◌∷◌, ◌≡◌, ◌≢◌, ◌≤◌, ◌⊎◌,
}

-- The contract of Display::render for a picture of `w` by `h` pixels: it draws rows of the picture
-- and no other pixel, and from frame 0 on all of them.
pub record IsRender (w h : ℕ) (render : Render) : Type 0 where
  pub idle :
      (out : ℕ → ℕ) (seen i : ℕ)
      → (render out seen).rows ≡ none
      → ((render out seen).out i ≡ out i) × (seen ≢ 0)
  pub drawn :
      (out : ℕ → ℕ) (seen first last : ℕ)
      → (render out seen).rows ≡ some (first, last)
      → (first ≤ last) × (last ≤ h) × (seen ≡ 0 → (first ≡ 0) × (last ≡ h))
  pub kept :
      (out : ℕ → ℕ) (seen first last i : ℕ)
      → (render out seen).rows ≡ some (first, last)
      → (i < first * w) ⊎ (last * w ≤ i)
      → i < w * h
      → (render out seen).out i ≡ out i

-- The client's picture once it has the update.
abbrev pub shown : ℕ → Option Sent → (ℕ → ℕ) → ℕ → ℕ
shown w none picture i = picture i
shown w (some x) picture i =
    if leb (x.first * w) i && ltb i (x.last * w)
    then get_or x.pixels (i - x.first * w) 0
    else picture i

-- The client's picture after updates, oldest first.
abbrev pub show_all : ℕ → List Sent → (ℕ → ℕ) → ℕ → ℕ
show_all w [] picture = picture
show_all w (x ∷ xs) picture = show_all w xs (shown w (some x) picture)

-- Unless everything is to be sent again, the client has the frame.
abbrev pub Shows : ℕ → ℕ → Sender → (ℕ → ℕ) → Type 0
Shows w h s picture = s.seen ≢ 0 → (i : ℕ) → i < w * h → picture i ≡ s.frame i

get_or-bytes_from : (f : ℕ → ℕ) (o n k : ℕ) → k < n → get_or (bytes_from f o n) k 0 ≡ f (o + k)
get_or-bytes_from f o zero k lt = absurd (omega arith)
get_or-bytes_from f o (suc n) zero lt = ap f (omega arith)
get_or-bytes_from f o (suc n) (suc k) lt =
    get_or-bytes_from f (suc o) n k (omega arith) ∙ ap f (omega arith)

-- The pixels of a message are the frame's.
pub message-pixels :
    (w h : ℕ) (f : PixelFormat) (frame : ℕ → ℕ) (first last : ℕ) (x : Sent)
    → message_of w h f frame (first, last) ≡ ok x
    → (x.first ≡ first)
      × (x.last ≡ last)
      × (x.pixels ≡ bytes_from frame (first * w) (last * w - first * w))
unfolding message_of message
message-pixels w h f frame first last x e =
    elim (Bool-cases (ltb last first || ltb (w * h) (last * w))) [
      | inl outside ↦ absurd (let stopped : panic ≡ ok x = rw outside at e in cc)
      | inr inside ↦
          let (bytes, encoded, built) =
            >>=-eq-ok (encode_all f (bytes_from frame (first * w) (last * w - first * w)))
              (λ bytes. ok record {
                first = first;
                last = last;
                pixels = bytes_from frame (first * w) (last * w - first * w);
                bytes = header w first last ++ bytes;
              })
              (rw inside at e) in
          (
            sym (ap (λ y. y.first) (ok-injective built)),
            sym (ap (λ y. y.last) (ok-injective built)),
            sym (ap (λ y. y.pixels) (ok-injective built)),
          )
    ]

pub drawn_pixel :
    (w h first last i : ℕ) (frame before picture : ℕ → ℕ) (seen : ℕ) (x : Sent)
    → first ≤ last
    → (seen ≡ 0 → (first ≡ 0) × (last ≡ h))
    → ((i < first * w) ⊎ (last * w ≤ i) → frame i ≡ before i)
    → (seen ≢ 0 → picture i ≡ before i)
    → (x.first ≡ first)
      × (x.last ≡ last)
      × (x.pixels ≡ bytes_from frame (first * w) (last * w - first * w))
    → i < w * h
    → shown w (some x) picture i ≡ frame i
drawn_pixel w h first last i frame before picture seen x ordered full kept same sent lt =
    rw (sent.0, sent.1, sent.2)
      (elim (Bool-cases (leb (first * w) i && ltb i (last * w))) [
        | inl inside ↦ rw inside (
            get_or-bytes_from frame (first * w) (last * w - first * w) (i - first * w)
              (ground (arith, inside))
            ∙ ap frame (ground (arith, inside)))
        | inr outside ↦
            let nonzero : seen ≢ 0 = λ z.
              let whole : last * w ≡ h * w = ap (λ l. l * w) (full z).1 in
              let top : first * w ≡ 0 = ap (λ l. l * w) (full z).0 ∙ omega arith in
              ground (arith, outside, whole, top, mul_comm w h) in
            rw outside (same nonzero ∙ sym (kept (ground (arith, outside))))
      ])
