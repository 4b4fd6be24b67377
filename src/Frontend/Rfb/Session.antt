-- ===== src/Frontend/Rfb/Session.antt =====
-- src/frontend/rfb.rs: the handshake and the loop over the client's messages.
pub mod Messages
use kvm_rust.Base.{
  Bool, List, Option, Outcome, [], drop, err, false, if◌then◌else◌, invalid_data, leb, length, none,
  ok, os, panic, some, suc, take, true, unexpected_eof, zero, ℕ, ◌&&◌, ◌*◌, ◌++◌, ◌/=◌, ◌==◌, ◌∷◌,
}
use kvm_rust.Frontend.Rfb.{
  PixelFormat, Triple, from_bytes, to_bytes, supported, default_format, byte_at, be16, be32,
  be16_bytes, be32_bytes,
}

-- What the update thread is told.
pub data Request : Type 0 where
  pixel_format : PixelFormat → Request
  update : Bool → Request

-- A key: whether it went down, and its keysym.
pub record Key : Type 0 where
  pub down : Bool
  pub keysym : ℕ

-- The other ends of a session, given what they have got so far: whether the connection takes bytes,
-- the keyboard, if there is one, and whether the update thread still receives.
pub record Ends : Type 0 where
  pub accepts : List ℕ → Bool
  pub keyboard : Option (List Key → Key → Outcome (Unit {0}))
  pub receives : List Request → Bool

-- A session: the bytes that the client has yet to be read, those written to it, its keys, and the
-- requests handed on.
pub record Session : Type 0 where
  pub input : List ℕ
  pub output : List ℕ
  pub keys : List Key
  pub requests : List Request

abbrev pub Talk : Type 0 → Type 0
Talk A = Session → Session × Outcome A

infixl 5 ◌>>=◌ ◌>>◌
abbrev pub ◌>>=◌ : {A B : Type 0} → Talk A → (A → Talk B) → Talk B
◌>>=◌ m f s =
    let (s', r) = m s in elim r [ ok a ↦ f a s' | err e ↦ (s', err e) | panic ↦ (s', panic) ]

abbrev pub ◌>>◌ : {B : Type 0} → Talk (Unit {0}) → Talk B → Talk B
m >> k = m >>= λ _. k

abbrev pub pure : {A : Type 0} → A → Talk A
pure a s = (s, ok a)

-- The client's side ends with its last byte.
unfoldable pub read_exact : ℕ → Talk (List ℕ)
read_exact n s =
    if leb n (length s.input)
    then (record s { input = drop n s.input }, ok (take n s.input))
    else (record s { input = [] }, err unexpected_eof)

unfoldable pub write_all : Ends → List ℕ → Talk (Unit {0})
write_all ends bytes s =
    if ends.accepts s.output then (record s { output = s.output ++ bytes }, ok tt) else (s, err os)

-- "RFB 003.00", the start of the versions, and the server's own.
abbrev pub rfb_003_00 : List ℕ
rfb_003_00 = 82 ∷ 70 ∷ 66 ∷ 32 ∷ 48 ∷ 48 ∷ 51 ∷ 46 ∷ 48 ∷ 48 ∷ []

abbrev pub version_of : ℕ → List ℕ
version_of digit = rfb_003_00 ++ digit ∷ 10 ∷ []

abbrev pub list_eq : List ℕ → List ℕ → Bool
list_eq [] [] = true
list_eq (a ∷ xs) (b ∷ bs) = a == b && list_eq xs bs
list_eq [] (_ ∷ _) = false
list_eq (_ ∷ _) [] = false

-- The minor version that the client's version is answered as.
unfoldable pub minor_of : List ℕ → Outcome ℕ
minor_of version =
    if list_eq version (version_of 51)
    then ok 3
    else if list_eq version (version_of 55)
    then ok 7
    else if list_eq (take 8 version) (take 8 rfb_003_00)
    then ok 8
    else err invalid_data

abbrev pub lift : {A : Type 0} → Outcome A → Talk A
lift r s = (s, r)

-- What follows the offer of the one security type.
unfoldable pub security : Ends → ℕ → Talk (Unit {0})
security ends minor = do
  write_all ends (1 ∷ 1 ∷ [])
  chosen ← read_exact 1
  lift (if byte_at chosen 0 == 1 then ok tt else err invalid_data)
  if minor == 8 then write_all ends (be32_bytes 0) else pure tt

unfoldable pub handshake : Ends → Talk (Unit {0})
handshake ends = do
  write_all ends (version_of 56)
  version ← read_exact 12
  minor ← lift (minor_of version)
  if minor == 3 then write_all ends (be32_bytes 1) else security ends minor

-- The desktop's name, "Hearth".
abbrev pub desktop_name : List ℕ
desktop_name = 72 ∷ 101 ∷ 97 ∷ 114 ∷ 116 ∷ 104 ∷ []

-- What serve sends before the messages.
unfoldable pub greet : Ends → ℕ → ℕ → Talk (Unit {0})
greet ends width height = do
  handshake ends
  shared ← read_exact 1
  write_all ends (
      be16_bytes width
      ++ be16_bytes height
      ++ to_bytes default_format
      ++ be32_bytes (length desktop_name)
      ++ desktop_name)

-- A key for the keyboard, if there is one; it is kept where the keyboard takes it.
unfoldable pub key_event : Ends → Key → Talk (Unit {0})
key_event ends key s = elim ends.keyboard [
  | none ↦ (s, ok tt)
  | some press ↦ elim (press s.keys key) [
    | ok _ ↦ (record s { keys = s.keys ++ key ∷ [] }, ok tt)
    | err e ↦ (s, err e)
    | panic ↦ (s, panic)
  ]
]

-- `io::copy` of at most `n` bytes to nowhere: it ends early with the input.
unfoldable pub skip : ℕ → Talk (Unit {0})
skip n s = (record s { input = drop n s.input }, ok tt)

unfoldable pub set_pixel_format : Talk (Option Request)
set_pixel_format = do
  b ← read_exact 19
  let format = from_bytes (drop 3 b)
  lift (if supported format then ok (some (pixel_format format)) else err invalid_data)

unfoldable pub set_encodings : Talk (Option Request)
set_encodings = do
  b ← read_exact 3
  encodings ← read_exact (4 * be16 (byte_at b 1) (byte_at b 2))
  pure none

unfoldable pub update_request : Talk (Option Request)
update_request = do b ← read_exact 9; pure (some (update (byte_at b 0 /= 0)))

abbrev pub number_at_3 : List ℕ → ℕ
number_at_3 b = be32 (byte_at b 3) (byte_at b 4) (byte_at b 5) (byte_at b 6)

unfoldable pub key_message : Ends → Talk (Option Request)
key_message ends = do
  b ← read_exact 7
  key_event ends (record { down = byte_at b 0 /= 0; keysym = number_at_3 b })
  pure none

unfoldable pub pointer_message : Talk (Option Request)
pointer_message = do b ← read_exact 5; pure none

unfoldable pub cut_text : Talk (Option Request)
cut_text = do b ← read_exact 7; skip (number_at_3 b); pure none

-- The match on the message type.
unfoldable pub read_body : Ends → ℕ → Talk (Option Request)
read_body ends kind =
    if kind == 0
    then set_pixel_format
    else if kind == 2
    then set_encodings
    else if kind == 3
    then update_request
    else if kind == 4
    then key_message ends
    else if kind == 5
    then pointer_message
    else if kind == 6
    then cut_text
    else lift (err invalid_data)

unfoldable pub read_message : Ends → Talk (Option Request)
read_message ends = do kind ← read_exact 1; read_body ends (byte_at kind 0)

-- Handing a request on, and whether the update thread was there to receive it.
unfoldable pub send : Ends → Request → Talk Bool
send ends request s =
    if ends.receives s.requests
    then (record s { requests = s.requests ++ request ∷ [] }, ok true)
    else (s, ok false)

-- What follows a message: whether the loop goes on.
unfoldable pub hand_on : Ends → Option Request → Talk Bool
hand_on ends none = pure true
hand_on ends (some request) = send ends request

-- The loop, for at most `n` messages; none if they do not suffice.
unfoldable pub read_messages : Ends → ℕ → Talk (Option (Unit {0}))
read_messages ends zero s = (s, ok none)
read_messages ends (suc n) s =
    let rest = read_messages ends n in
    (read_message ends >>= λ request.
    hand_on ends request >>= λ more. (if more then rest else pure (some tt)))
      s

-- How serve ends: a client that is gone is no error.
abbrev pub served : Outcome (Option (Unit {0})) → Outcome (Option (Unit {0}))
served (err unexpected_eof) = ok (some tt)
served r = r
