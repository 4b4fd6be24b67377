-- ===== src/Frontend/Rfb/Updates/Tests.antt =====
-- Runs of send_updates of src/frontend/rfb.rs.
use kvm_rust.Frontend.Rfb.{default_format}
use kvm_rust.Frontend.Rfb.Session.{update}
use kvm_rust.Frontend.Rfb.Updates.{Render, Sender, Sent, Round, got, timeout, disconnected}
use kvm_rust.Arch.Vga
use kvm_rust.Base.{Bool, List, [], false, if◌then◌else◌, some, true, ℕ, ◌==◌, ◌∷◌}

-- A display of two rows of one pixel; it draws the second row after the first frame.
abbrev two_rows : Render
two_rows out seen =
    if seen == 0
    then record { out = λ i. 5; seen = 1; rows = some (0, 2) }
    else record { out = λ i. if i == 1 then 6 else out i; seen = 2; rows = some (1, 2) }

abbrev asks : Bool → ℕ → Round
asks incremental now = record {
  event = got (update incremental);
  now = now;
  render = two_rows;
  writes = true;
}

-- A full update, one row, and a pause; a request within 16 milliseconds waits.
abbrev rounds : List Round
rounds =
    asks false 0
    ∷ asks true 5
    ∷ record (asks true 20) { event = timeout }
    ∷ record (asks true 40) { event = disconnected }
    ∷ []

abbrev row_message : ℕ → ℕ → List ℕ → List ℕ
row_message first count pixels =
    0 ∷ 0 ∷ 0 ∷ 1 ∷ 0 ∷ 0 ∷ 0 ∷ first ∷ 0 ∷ 1 ∷ 0 ∷ count ∷ 0 ∷ 0 ∷ 0 ∷ 0 ∷ pixels

abbrev sents : List Sent
sents =
    record {
      first = 0;
      last = 2;
      pixels = 5 ∷ 5 ∷ [];
      bytes = row_message 0 2 (5 ∷ 0 ∷ 0 ∷ 0 ∷ 5 ∷ 0 ∷ 0 ∷ 0 ∷ []);
    }
    ∷ record { first = 1; last = 2; pixels = 6 ∷ []; bytes = row_message 1 1 (6 ∷ 0 ∷ 0 ∷ 0 ∷ []) }
    ∷ []

abbrev last_sender : Sender
last_sender = record {
  format = default_format;
  frame = λ i. if i == 1 then 6 else 5;
  seen = 2;
  pending = false;
  next_render = 36;
}
