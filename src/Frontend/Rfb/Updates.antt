-- ===== src/Frontend/Rfb/Updates.antt =====
-- send_updates of src/frontend/rfb.rs, the Display trait as it sees it, and NoDisplay.
pub mod Picture
pub mod Mirror
pub mod Displays
mod Tests
use kvm_rust.Memory.{bytes_from}
use kvm_rust.Frontend.Rfb.{PixelFormat, default_format, encode, be16_bytes, be32_bytes}
use kvm_rust.Frontend.Rfb.Session.{Request, pixel_format, update}
use kvm_rust.Base.{
  Bool, List, Option, Outcome, [], err, false, if◌then◌else◌, ltb, none, not, ok, os, panic, some,
  true, u16, ℕ, ◌*◌, ◌++◌, ◌+◌, ◌-◌, ◌/=◌, ◌/◌, ◌>>=◌, ◌||◌, ◌∷◌,
}

-- What one call of Display::render gives: the picture, the frame that it is of, and the rows that
-- were drawn, from the first to behind the last.
pub record Drawn : Type 0 where
  pub out : ℕ → ℕ
  pub seen : ℕ
  pub rows : Option (ℕ × ℕ)

-- One call, on the picture and the frame so far; the display may change from call to call.
abbrev pub Render : Type 0
Render = (ℕ → ℕ) → ℕ → Drawn

-- NoDisplay: black, once.
unfoldable pub no_display : Render
no_display out seen =
    if seen /= 0
    then record { out = out; seen = seen; rows = none }
    else record { out = λ i. 0; seen = 1; rows = some (0, 200) }

-- What recv_timeout gives.
pub data Event : Type 0 where
  got : Request → Event
  timeout disconnected : Event

-- The variables of the loop.
pub record Sender : Type 0 where
  pub format : PixelFormat
  pub frame : ℕ → ℕ
  pub seen : ℕ
  pub pending : Bool
  pub next_render : ℕ

abbrev pub start : ℕ → Sender
start now = record {
  format = default_format;
  frame = λ i. 0;
  seen = 0;
  pending = false;
  next_render = now;
}

-- An update as it is sent: its rows, their pixels, and the message.
pub record Sent : Type 0 where
  pub first : ℕ
  pub last : ℕ
  pub pixels : List ℕ
  pub bytes : List ℕ

-- What a round of the loop does: end it, or go on, with an update sent or without.
pub data Turned : Type 0 where
  done : Turned
  going : Option Sent → Turned

-- The first match: the variables, and whether the loop starts over at once.
abbrev pub receive : Event → Sender → Option (Sender × Bool)
receive (got (pixel_format f)) s = some (record s { format = f; seen = 0 }, true)
receive (got (update incremental)) s =
    some (record s { pending = true; seen = if incremental then s.seen else 0 }, false)
receive timeout s = some (s, false)
receive disconnected s = none

unfoldable pub encode_all : PixelFormat → List ℕ → Outcome (List ℕ)
encode_all f [] = ok []
encode_all f (p ∷ ps) = encode f p >>= λ bytes. encode_all f ps >>= λ rest. ok (bytes ++ rest)

-- The message's type, one rectangle, its place and size, and the raw encoding.
abbrev pub header : ℕ → ℕ → ℕ → List ℕ
header width first last =
    0 ∷ 0 ∷ be16_bytes 1
    ++ be16_bytes 0
    ++ be16_bytes (u16 first)
    ++ be16_bytes width
    ++ be16_bytes (u16 (last - first))
    ++ be32_bytes 0

-- The rows as they are sent; rows outside the picture, or in the wrong order, panic.
abbrev pub message : ℕ → ℕ → PixelFormat → (ℕ → ℕ) → ℕ × ℕ → Outcome Sent
unfolding encode_all
message w h f frame (first, last) =
    if ltb last first || ltb (w * h) (last * w)
    then panic
    else (encode_all f (bytes_from frame (first * w) (last * w - first * w)) >>= λ bytes.
        ok record {
          first = first;
          last = last;
          pixels = bytes_from frame (first * w) (last * w - first * w);
          bytes = header w first last ++ bytes;
        })

-- What follows the message: `write_all` may fail.
abbrev pub send : Bool → Sender → Outcome Sent → Sender × Outcome Turned
send true s (ok x) = (record s { pending = false }, ok (going (some x)))
send false s (ok x) = (s, err os)
send writes s (err e) = (s, err e)
send writes s panic = (s, panic)

unfoldable pub message_of : ℕ → ℕ → PixelFormat → (ℕ → ℕ) → ℕ × ℕ → Outcome Sent
unfolding message
message_of w h f frame rows = message w h f frame rows

abbrev pub send_rows : ℕ → ℕ → Bool → Sender → Option (ℕ × ℕ) → Sender × Outcome Turned
unfolding message_of
send_rows w h writes s none = (s, ok (going none))
send_rows w h writes s (some rows) = send writes s (message_of w h s.format s.frame rows)

-- A round: what it receives, the time, the call of render, and whether the client takes the bytes.
pub record Round : Type 0 where
  pub event : Event
  pub now : ℕ
  pub render : Render
  pub writes : Bool

-- UPDATE_INTERVAL in milliseconds.
abbrev pub update_interval : ℕ
update_interval = 1000 / 60

abbrev pub drawn_by : Render → ℕ → Sender → Sender
drawn_by render now s =
    let d = render s.frame s.seen in
    record s { frame = d.out; seen = d.seen; next_render = now + update_interval }

-- The body of the loop once something was received.
unfoldable pub serve : ℕ → ℕ → Round → Option (Sender × Bool) → Sender → Sender × Outcome Turned
unfolding send_rows
serve w h r none s = (s, ok done)
serve w h r (some (s1, true)) s = (s1, ok (going none))
serve w h r (some (s1, false)) s =
    if not s1.pending || ltb r.now s1.next_render
    then (s1, ok (going none))
    else send_rows w h r.writes (drawn_by r.render r.now s1) (r.render s1.frame s1.seen).rows

unfoldable pub round : ℕ → ℕ → Round → Sender → Sender × Outcome Turned
unfolding serve
round w h r s = serve w h r (receive r.event s) s

abbrev pub with_sent : Option Sent → Sender × List Sent → Sender × List Sent
with_sent none (s, sents) = (s, sents)
with_sent (some x) (s, sents) = (s, x ∷ sents)

-- What follows a round: the end of the loop, or `rest`.
abbrev pub after_round :
    (Sender → Outcome (Sender × List Sent)) → Sender × Outcome Turned → Outcome (Sender × List Sent)
after_round rest (s, ok done) = ok (s, [])
after_round rest (s, ok (going sent)) = rest s >>= λ x. ok (with_sent sent x)
after_round rest (s, err e) = err e
after_round rest (s, panic) = panic

-- The loop over so many rounds, and the updates that it sends.
unfoldable pub send_updates : ℕ → ℕ → List Round → Sender → Outcome (Sender × List Sent)
unfolding round
send_updates w h [] s = ok (s, [])
send_updates w h (r ∷ rs) s = after_round (send_updates w h rs) (round w h r s)
