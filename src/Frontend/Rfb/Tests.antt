-- ===== src/Frontend/Rfb/Tests.antt =====
-- The VNC server at concrete inputs.
use kvm_rust.Base.{List, [], arith, length, none, ok, refl, some, true, ℕ, ◌++◌, ◌∷◌, ◌≡◌, ◌≢◌}
use kvm_rust.Frontend.Rfb.{default_format, from_bytes, to_bytes, supported, placed, encode}
use kvm_rust.Frontend.Rfb.Format.{from_bytes-to_bytes, encode_lem}
use kvm_rust.Frontend.Rfb.Session.{
  Ends, Session, read_exact, write_all, minor_of, security, handshake, version_of, read_messages,
  read_message, read_body, update_request, update, hand_on, send,
}
use kvm_rust.Frontend.Rfb.Session.Messages.{read_messages_end}

server : Unit {0}
unfolding placed encode supported read_exact write_all minor_of security handshake read_messages
    read_message read_body update_request hand_on send
server = tt

encodes_red : encode default_format 0xff0102 ≡ ok (2 ∷ 1 ∷ 0xff ∷ 0 ∷ [])
unfolding server
encodes_red = refl

from_bytes-to_bytes_example :
    (length (to_bytes default_format) ≡ 16)
    × (from_bytes (to_bytes default_format) ≡ default_format)
from_bytes-to_bytes_example =
    from_bytes-to_bytes default_format
      (record { max_red = omega arith; max_green = omega arith; max_blue = omega arith })

encode_lem_example :
    (bytes : List ℕ) × (encode default_format 0xff0102 ≡ ok bytes) × (length bytes ≡ 4)
encode_lem_example =
    encode_lem default_format 0xff0102 (unfold server in refl) (omega arith) (omega arith)
      (omega arith)

abbrev both_open : Ends
both_open = record { accepts = λ out. true; keyboard = none; receives = λ rs. true }

-- A client of version 3.8 that chooses no security, then asks for an update.
abbrev client : Session
client = record { input = version_of 56 ++ 1 ∷ []; output = []; keys = []; requests = [] }

agrees : (handshake both_open client).1 ≡ ok tt
unfolding server
agrees = refl

abbrev asking : Session
asking = record client { input = 3 ∷ 1 ∷ 0 ∷ 0 ∷ 0 ∷ 0 ∷ 0 ∷ 0 ∷ 0 ∷ 0 ∷ [] }

asks : (read_message both_open asking).1 ≡ ok (some (update true))
unfolding server
asks = refl

read_messages_end_example : (read_messages both_open 11 asking).1 ≢ ok none
read_messages_end_example = read_messages_end both_open 11 asking (omega arith)
