-- ===== src/Frontend/Rfb/Updates/Mirror.antt =====
-- What the client shows of the updates of src/frontend/rfb.rs.
use kvm_rust.Frontend.Rfb.Updates.{send_updates, Sender, Sent, Turned, done, going, Round}
use kvm_rust.Frontend.Rfb.Updates.Picture.{shown, show_all, Shows}
use kvm_rust.Base.{List, Outcome, err, ok, panic, ℕ, ◌≡◌}

-- The same of a round's result, where it goes on.
abbrev ShowsAfter : ℕ → ℕ → (ℕ → ℕ) → Sender × Outcome Turned → Type 0
ShowsAfter w h picture (s, ok (going sent)) = Shows w h s (shown w sent picture)
ShowsAfter w h picture (s, ok done) = Shows w h s picture
ShowsAfter w h picture (s, err e) = Unit {0}
ShowsAfter w h picture (s, panic) = Unit {0}

-- That a loop of these rounds keeps the picture.
abbrev Mirrors : ℕ → ℕ → List Round → Type 0
unfolding send_updates
Mirrors w h rs =
    (s s' : Sender) (sents : List Sent) (picture : ℕ → ℕ)
    → Shows w h s picture
    → send_updates w h rs s ≡ ok (s', sents)
    → Shows w h s' (show_all w sents picture)
