-- ===== src/Frontend/Rfb/Session/Messages.antt =====
-- src/frontend/rfb.rs: the length of the input over read_messages.
use kvm_rust.Base.{
  Bool, List, Option, Outcome, arith, err, false, if◌then◌else◌, length, length-drop, none, ok,
  panic, refl, some, suc, true, zero, ℕ, ◌<◌, ◌==◌, ◌≡◌, ◌≢◌, ◌≤◌,
}
use kvm_rust.Frontend.Rfb.{byte_at}
use kvm_rust.Frontend.Rfb.Session.{
  Ends, Session, Talk, Request, Key, ◌>>=◌, pure, lift, read_exact, key_event, skip,
  set_pixel_format, set_encodings, update_request, key_message, pointer_message, cut_text,
  read_body, read_message, send, hand_on, read_messages, number_at_3,
}

-- A step that puts nothing back into the input.
unfoldable pub Shrinks : {A : Type 0} → Talk A → Type 0
Shrinks m = (s : Session) → length (m s).0.input ≤ length s.input

after-Shrinks :
    {A B : Type 0} (f : A → Talk B) (s : Session) (r : Outcome A)
    → ((a : A) → Shrinks (f a))
    → length ((lift r >>= f) s).0.input ≤ length s.input
unfolding Shrinks
after-Shrinks f s (ok a) h = h a s
after-Shrinks f s (err e) h = omega arith
after-Shrinks f s panic h = omega arith

>>=-Shrinks :
    {A B : Type 0} (m : Talk A) (f : A → Talk B)
    → Shrinks m
    → ((a : A) → Shrinks (f a))
    → Shrinks (m >>= f)
unfolding Shrinks
>>=-Shrinks m f hm hf s = omega (arith, after-Shrinks f (m s).0 (m s).1 hf, hm s)

pure-Shrinks : {A : Type 0} (a : A) → Shrinks (pure a)
unfolding Shrinks
pure-Shrinks a s = omega arith

lift-Shrinks : {A : Type 0} (r : Outcome A) → Shrinks (lift r)
unfolding Shrinks
lift-Shrinks r s = omega arith

read_exact-Shrinks : (n : ℕ) → Shrinks (read_exact n)
unfolding Shrinks read_exact
read_exact-Shrinks n s = ground (arith, length-drop n s.input)

skip-Shrinks : (n : ℕ) → Shrinks (skip n)
unfolding Shrinks skip
skip-Shrinks n s = omega (arith, length-drop n s.input)

key_event-Shrinks : (ends : Ends) (key : Key) → Shrinks (key_event ends key)
unfolding Shrinks key_event
key_event-Shrinks ends key s = ground arith

choice-Shrinks :
    {A : Type 0} (test : Bool) (m k : Talk A)
    → Shrinks m
    → Shrinks k
    → Shrinks (if test then m else k)
choice-Shrinks true m k hm hk = hm
choice-Shrinks false m k hm hk = hk

set_pixel_format-Shrinks : Shrinks set_pixel_format
unfolding set_pixel_format
set_pixel_format-Shrinks =
    >>=-Shrinks (read_exact 19) _ (read_exact-Shrinks 19) (λ b. lift-Shrinks _)

set_encodings-Shrinks : Shrinks set_encodings
unfolding set_encodings
set_encodings-Shrinks =
    >>=-Shrinks (read_exact 3) _ (read_exact-Shrinks 3)
      (λ b. >>=-Shrinks (read_exact _) _ (read_exact-Shrinks _) (λ encodings. pure-Shrinks none))

update_request-Shrinks : Shrinks update_request
unfolding update_request
update_request-Shrinks = >>=-Shrinks (read_exact 9) _ (read_exact-Shrinks 9) (λ b. pure-Shrinks _)

key_message-Shrinks : (ends : Ends) → Shrinks (key_message ends)
unfolding key_message
key_message-Shrinks ends =
    >>=-Shrinks (read_exact 7) _ (read_exact-Shrinks 7)
      (λ b. >>=-Shrinks (key_event ends _) _ (key_event-Shrinks ends _) (λ _. pure-Shrinks none))

pointer_message-Shrinks : Shrinks pointer_message
unfolding pointer_message
pointer_message-Shrinks =
    >>=-Shrinks (read_exact 5) _ (read_exact-Shrinks 5) (λ b. pure-Shrinks none)

cut_text-Shrinks : Shrinks cut_text
unfolding cut_text
cut_text-Shrinks = >>=-Shrinks (read_exact 7) _ (read_exact-Shrinks 7) (λ b.
    >>=-Shrinks (skip (number_at_3 b)) _ (skip-Shrinks (number_at_3 b)) (λ _. pure-Shrinks none))

read_body-Shrinks : (ends : Ends) (kind : ℕ) → Shrinks (read_body ends kind)
unfolding read_body
read_body-Shrinks ends kind = choice-Shrinks (kind == 0) _ _ set_pixel_format-Shrinks (
    choice-Shrinks (kind == 2) _ _ set_encodings-Shrinks (
      choice-Shrinks (kind == 3) _ _ update_request-Shrinks (
        choice-Shrinks (kind == 4) _ _ (key_message-Shrinks ends) (
          choice-Shrinks (kind == 5) _ _ pointer_message-Shrinks
            (choice-Shrinks (kind == 6) _ _ cut_text-Shrinks (lift-Shrinks _))))))

send-Shrinks : (ends : Ends) (request : Request) → Shrinks (send ends request)
unfolding Shrinks send
send-Shrinks ends request s = ground arith

hand_on-Shrinks : (ends : Ends) (request : Option Request) → Shrinks (hand_on ends request)
unfolding hand_on
hand_on-Shrinks ends none = pure-Shrinks true
hand_on-Shrinks ends (some request) = send-Shrinks ends request

read_exact-less :
    (s : Session) (kind : List ℕ)
    → (read_exact 1 s).1 ≡ ok kind
    → length (read_exact 1 s).0.input < length s.input
unfolding read_exact
read_exact-less s kind e = ground (arith, length-drop 1 s.input)

after-less :
    {A B : Type 0} (f : A → Talk B) (bound : ℕ) (s : Session) (r : Outcome A) (b : B)
    → ((a : A) → r ≡ ok a → length s.input < bound)
    → ((a : A) → Shrinks (f a))
    → ((lift r >>= f) s).1 ≡ ok b
    → length ((lift r >>= f) s).0.input < bound
unfolding Shrinks
after-less f bound s (ok a) b less shrinks e = omega (arith, less a refl, shrinks a s)
after-less f bound s (err w) b less shrinks e = absurd (ground arith)
after-less f bound s panic b less shrinks e = absurd (ground arith)

-- A message that is read takes at least its first byte.
read_message-progress :
    (ends : Ends) (s : Session) (request : Option Request)
    → (read_message ends s).1 ≡ ok request
    → length (read_message ends s).0.input < length s.input
unfolding read_message
read_message-progress ends s request e =
    after-less (λ kind. read_body ends (byte_at kind 0)) (length s.input) (read_exact 1 s).0
      (read_exact 1 s).1 request (read_exact-less s)
      (λ kind. read_body-Shrinks ends (byte_at kind 0)) e

after-ends :
    {A : Type 0} (f : A → Talk (Option (Unit {0}))) (s : Session) (r : Outcome A)
    → ((a : A) → r ≡ ok a → (f a s).1 ≢ ok none)
    → ((lift r >>= f) s).1 ≢ ok none
after-ends f s (ok a) k = k a refl
after-ends f s (err w) k = λ e. ground arith
after-ends f s panic k = λ e. ground arith

-- The loop takes at most one round for each byte that the client sends: with more rounds than bytes
-- it always ends, by an error, by a panic of the keyboard, or since the update thread is gone.
pub read_messages_end :
    (ends : Ends) (n : ℕ) (s : Session) → length s.input < n → (read_messages ends n s).1 ≢ ok none
unfolding Shrinks read_messages
read_messages_end ends zero s h = absurd (omega arith)
read_messages_end ends (suc n) s h =
    let rest = read_messages ends n in
    let next : Bool → Talk (Option (Unit {0})) = λ more. if more then rest else pure (some tt) in
    let (s1, r1) = read_message ends s in
    after-ends (λ request. hand_on ends request >>= next) s1 r1
      (λ request e.
        let (s2, r2) = hand_on ends request s1 in
        let less = read_message-progress ends s request e in
        let same = hand_on-Shrinks ends request s1 in
        after-ends next s2 r2
          (λ more e'. goes_on more s2 (read_messages_end ends n s2 (omega (arith, less, same)))))
  where
    goes_on :
        (more : Bool) (s2 : Session)
        → (read_messages ends n s2).1 ≢ ok none
        → ((if more then read_messages ends n else pure (some tt)) s2).1 ≢ ok none
    goes_on true s2 k = k
    goes_on false s2 k = λ e. ground arith
