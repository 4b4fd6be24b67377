-- ===== src/Arch/I8042/Fifo.antt =====
-- src/arch/x86_64/i8042.rs: the bytes pending for the guest, as a queue.
use mathlib.Core.List.{append_assoc}
use kvm_rust.Base.{List, Option, [], arith, none, some, ℕ, ◌++◌, ◌∷◌, ◌≡◌}
use kvm_rust.Arch.I8042.{I8042, push, load_output}

abbrev pub to_list : Option ℕ → List ℕ
to_list none = []
to_list (some b) = b ∷ []

-- The bytes that the guest has still to read, the next one first.
abbrev pub pending : I8042 → List ℕ
pending d = to_list d.output ++ d.queue

-- The output buffer is empty only when nothing is queued.
abbrev pub IsLoaded : I8042 → Type 0
IsLoaded d = d.output ≡ none → d.queue ≡ []

pub push-pending :
    (b : ℕ) (d : I8042)
    → IsLoaded d
    → (pending (push b d) ≡ pending d ++ b ∷ []) × IsLoaded (push b d)
unfolding push load_output
push-pending b d h = ground arith

-- `push` touches the two fields of the queue alone.
pub push-frame :
    (b : ℕ) (d : I8042)
    → push b d ≡ record d { output = (push b d).output; queue = (push b d).queue }
unfolding push load_output
push-frame b d = ground arith

-- Two and three bytes in a row.
pub push_two :
    (a b : ℕ) (d : I8042)
    → IsLoaded d
    → (pending (push b (push a d)) ≡ pending d ++ a ∷ b ∷ []) × IsLoaded (push b (push a d))
push_two a b d l =
    let (e, l1) = push-pending a d l in
    let (e', l2) = push-pending b (push a d) l1 in
    (rw (e', e) (append_assoc (pending d) (a ∷ []) (b ∷ [])), l2)

pub push_three :
    (a b c : ℕ) (d : I8042)
    → IsLoaded d
    → pending (push c (push b (push a d))) ≡ pending d ++ a ∷ b ∷ c ∷ []
push_three a b c d l =
    let (e, l1) = push_two a b d l in
    let (e', _) = push-pending c (push b (push a d)) l1 in
    rw (e', e) (append_assoc (pending d) (a ∷ b ∷ []) (c ∷ []))
