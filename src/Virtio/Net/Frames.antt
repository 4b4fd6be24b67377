-- ===== src/Virtio/Net/Frames.antt =====
-- src/virtio/net.rs: the queue of frames from the tap.
use mathlib.Core.List.{append-nil, append_assoc}
use native.Mathlib.Decide.{dec_lt}
use kvm_rust.Base.{
  List, [], ap, arith, as_num, false, length, length-append, refl, suc, sym, take, zero, ℕ, ◌++◌,
  ◌+◌, ◌-◌, ◌<◌, ◌==◌, ◌∙◌, ◌∷◌, ◌≡◌, ◌≤◌,
}
use kvm_rust.Virtio.Net.{VirtioNet, receive}

-- The receiving thread over a run of frames, and the number of its kicks.
abbrev pub receive_all : List (List ℕ) → VirtioNet → VirtioNet × ℕ
receive_all [] d = (d, 0)
receive_all (frame ∷ frames) d =
    let (d', kicked) = receive frame d in
    let (d'', kicks) = receive_all frames d' in (d'', as_num kicked + kicks)

take_nil {ℓ} : {A : Type ℓ} (n : ℕ) → take {A = A} n [] ≡ []
take_nil zero = refl
take_nil (suc n) = refl

take_short {ℓ} :
    {A : Type ℓ} (n : ℕ) (xs bs : List A)
    → length xs ≤ n
    → take n (xs ++ bs) ≡ xs ++ take (n - length xs) bs
take_short n [] bs h = ap (λ k. take k bs) (omega arith)
take_short zero (a ∷ xs) bs h = absurd (omega arith)
take_short (suc n) (a ∷ xs) bs h =
    ap (λ t. a ∷ t) (take_short n xs bs (omega arith) ∙ ap (λ k. xs ++ take k bs) (omega arith))

receive-full :
    (frame : List ℕ) (d : VirtioNet) → 256 ≤ length d.rx_pending → receive frame d ≡ (d, false)
unfolding receive
receive-full frame d h = ground arith

receive_room :
    (frame : List ℕ) (d : VirtioNet)
    → length d.rx_pending < 256
    → receive frame d
      ≡ (record d { rx_pending = d.rx_pending ++ frame ∷ [] }, length d.rx_pending == 0)
unfolding receive
receive_room frame d h = ground (arith, length-append d.rx_pending (frame ∷ []))

-- The number of kicks: one where the queue was empty and a frame has come.
abbrev pub expected_kicks : List (List ℕ) → List (List ℕ) → ℕ
expected_kicks [] (_ ∷ _) = 1
expected_kicks _ _ = 0

kicks-nil : (pending : List (List ℕ)) → expected_kicks pending [] ≡ 0
kicks-nil [] = refl
kicks-nil (p ∷ ps) = refl

kicks_first :
    (pending frames : List (List ℕ)) (frame : List ℕ)
    → as_num (length pending == 0) ≡ expected_kicks pending (frame ∷ frames)
kicks_first [] frames frame = refl
kicks_first (p ∷ ps) frames frame = ground arith

kicks_none :
    (pending frames : List (List ℕ)) → 0 < length pending → expected_kicks pending frames ≡ 0
kicks_none [] frames h = absurd (omega arith)
kicks_none (p ∷ ps) frames h = refl

-- However many frames come, the oldest 256 of the pending and the new ones are kept, in order, and
-- the vcpu is kicked once if the queue was empty and a frame came, and not at all otherwise.
pub receive_all_lem :
    (frames : List (List ℕ)) (d : VirtioNet)
    → length d.rx_pending ≤ 256
    → let (d', kicks) = receive_all frames d in
      (d'.rx_pending ≡ take 256 (d.rx_pending ++ frames))
      × (kicks ≡ expected_kicks d.rx_pending frames)
receive_all_lem [] d h = (
  sym (
      take_short 256 d.rx_pending [] h
      ∙ ap (λ xs. d.rx_pending ++ xs) (take_nil (256 - length d.rx_pending))
      ∙ append-nil d.rx_pending),
  sym (kicks-nil d.rx_pending),
)
receive_all_lem (frame ∷ frames) d h = elim (dec_lt (length d.rx_pending) 256) [
  | yes room ↦
      let d1 = record d { rx_pending = d.rx_pending ++ frame ∷ [] } in
      let size = length-append d.rx_pending (frame ∷ []) in
      let (kept, kicks) = receive_all_lem frames d1 (omega (arith, size)) in
      rw (receive_room frame d room) (
        kept ∙ ap (take 256) (append_assoc d.rx_pending (frame ∷ []) frames),
        omega (
          arith,
          kicks,
          kicks_none d1.rx_pending frames (omega (arith, size)),
          kicks_first d.rx_pending frames frame,
        ),
      )
  | no full ↦
      let (kept, kicks) = receive_all_lem frames d h in
      let none_left : 256 - length d.rx_pending ≡ 0 = omega arith in
      let same_rest : d.rx_pending ++ take (256 - length d.rx_pending) frames
          ≡ d.rx_pending ++ take (256 - length d.rx_pending) (frame ∷ frames) =
        rw none_left refl in
      rw (receive-full frame d (omega arith)) (
        kept
            ∙ take_short 256 d.rx_pending frames h
            ∙ same_rest
            ∙ sym (take_short 256 d.rx_pending (frame ∷ frames) h),
        omega (
          arith,
          kicks,
          kicks_none d.rx_pending frames (omega arith),
          kicks_none d.rx_pending (frame ∷ frames) (omega arith),
        ),
      )
]
