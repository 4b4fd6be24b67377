-- ===== src/Frontend/Serial/Escape.antt =====
-- src/frontend/serial.rs: texts as keys, with the escape character.
use kvm_rust.Base.{Bool, List, [], if◌then◌else◌, ℕ, ◌++◌, ◌==◌, ◌∷◌}
use kvm_rust.Frontend.Serial.{escape}

abbrev keys_for : Bool → ℕ → List ℕ
keys_for is_one b = if is_one then escape ∷ escape ∷ [] else b ∷ []

-- The keys for a text: an escape character is typed twice.
abbrev pub typed : List ℕ → List ℕ
typed [] = []
typed (b ∷ bs) = keys_for (b == escape) b ++ typed bs
