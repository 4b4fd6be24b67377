-- ===== src/Arch/Pl011/Interrupt.antt =====
-- src/arch/aarch64/mmio.rs: the PL011's interrupt line.
use kvm_rust.Base.{
  Bool, Option, Outcome, ap, arith, as_num, err, false, first_byte, if◌then◌else◌, is_ok, none, ok,
  panic, refl, some, sym, true, ℕ, ◌%◌, ◌==◌, ◌∙◌, ◌≡◌,
}
use kvm_rust.Util.Binary.{read_le32}
use kvm_rust.Vm.Host.{
  Host, Kvm, Mmio, Method, arch_update_irq, wire, ◌>>=◌, ◌>>◌, pure, modify, lift,
}
use kvm_rust.Arch.Pl011.{
  Pl011, wanted_level, update_irq, take_char, read_char, read_value, respond, pl011_response, print,
  write_register, handle, lookup, id_map,
}

-- KVM was last told the level that the registers ask for.
abbrev pub IsWired : Pl011 → Host → Type 0
IsWired d h = wire 1 h.lines ≡ as_num (wanted_level d)

-- Where a method returns normally, the line is as the registers ask.
unfoldable pub Keeps : {A : Type 0} → Method Pl011 A → Type 0
Keeps m =
    (d : Pl011) (h : Host) → IsWired d h → let (d', h', r) = m d h in is_ok r ≡ true → IsWired d' h'

-- Telling KVM sets the line right whatever it was before.
update_irq_lem :
    (kvm : Kvm) (d : Pl011) (h : Host)
    → let (d', h', r) = update_irq kvm d h in is_ok r ≡ true → IsWired d' h'
unfolding update_irq arch_update_irq
update_irq_lem kvm d h e = ground arith

after-Keeps :
    {A B : Type 0} (f : A → Method Pl011 B) (d : Pl011) (h : Host) (r : Outcome A)
    → (is_ok r ≡ true → IsWired d h)
    → ((a : A) → Keeps (f a))
    → let (d', h', r') = (lift r >>= f) d h in is_ok r' ≡ true → IsWired d' h'
unfolding Keeps
after-Keeps f d h (ok a) v k e = k a d h (v refl) e
after-Keeps f d h (err w) v k e = v e
after-Keeps f d h panic v k e = v e

>>=-Keeps :
    {A B : Type 0} (m : Method Pl011 A) (f : A → Method Pl011 B)
    → Keeps m
    → ((a : A) → Keeps (f a))
    → Keeps (m >>= f)
unfolding Keeps
>>=-Keeps m f km kf d h v e = after-Keeps f (m d h).0 (m d h).1 (m d h).2 (km d h v) kf e

pure-Keeps : {A : Type 0} (a : A) → Keeps (pure a)
unfolding Keeps
pure-Keeps a d h v e = v

lift-Keeps : {A : Type 0} (r : Outcome A) → Keeps (lift r)
unfolding Keeps
lift-Keeps r d h v e = v

print-Keeps : (b : ℕ) → Keeps (print b)
unfolding Keeps print
print-Keeps b d h v e = v

choice-Keeps :
    {A : Type 0} (test : Bool) (m k : Method Pl011 A)
    → Keeps m
    → Keeps k
    → Keeps (if test then m else k)
choice-Keeps true m k km kk = km
choice-Keeps false m k km kk = kk

-- A change of the registers, and KVM told of it.
changed-Keeps : (kvm : Kvm) (f : Pl011 → Pl011) → Keeps (modify f >> update_irq kvm)
unfolding Keeps
changed-Keeps kvm f d h v e = update_irq_lem kvm (f d) h e

-- A change of what the line does not depend on.
quiet-Keeps :
    (f : Pl011 → Pl011) → ((d : Pl011) → wanted_level (f d) ≡ wanted_level d) → Keeps (modify f)
unfolding Keeps
quiet-Keeps f same d h v e = v ∙ ap as_num (sym (same d))

read_char-Keeps : (kvm : Kvm) → Keeps (read_char kvm)
unfolding Keeps read_char
read_char-Keeps kvm d h v e =
    let (d1, h1, r1) = update_irq kvm (take_char d) h in
    after-Keeps (λ _. pure (elim d.rx [ none ↦ 0 | some ch ↦ ch ])) d1 h1 r1
      (update_irq_lem kvm (take_char d) h)
      (λ _. pure-Keeps {A = ℕ} (elim d.rx [ none ↦ 0 | some ch ↦ ch ])) e

read_value-Keeps : (inb : ℕ) → Keeps (read_value inb)
unfolding Keeps read_value
read_value-Keeps inb d h v e = v

respond-Keeps : (kvm : Kvm) (inb : ℕ) (id : Option ℕ) → Keeps (respond kvm inb id)
unfolding respond
respond-Keeps kvm inb none =
    choice-Keeps (inb == 0) (read_char kvm) (read_value inb) (read_char-Keeps kvm)
      (read_value-Keeps inb)
respond-Keeps kvm inb (some id) = pure-Keeps id

pl011_response-Keeps : (kvm : Kvm) (inb : ℕ) → Keeps (pl011_response kvm inb)
unfolding pl011_response
pl011_response-Keeps kvm inb = respond-Keeps kvm inb (lookup inb id_map)

write_register-Keeps : (kvm : Kvm) (reg val : ℕ) → Keeps (write_register kvm reg val)
unfolding write_register wanted_level
write_register-Keeps kvm reg val = choice-Keeps (reg == 0x24) _ _ (quiet-Keeps _ (λ d. refl)) (
    choice-Keeps (reg == 0x28) _ _ (quiet-Keeps _ (λ d. refl)) (
      choice-Keeps (reg == 0x2c) _ _ (quiet-Keeps _ (λ d. refl)) (
        choice-Keeps (reg == 0x30) _ _ (quiet-Keeps _ (λ d. refl)) (
          choice-Keeps (reg == 0x38) _ _ (changed-Keeps kvm _)
            (choice-Keeps (reg == 0x44) _ _ (changed-Keeps kvm _) (pure-Keeps tt))))))

handle-Keeps : (kvm : Kvm) (x : Mmio) → Keeps (handle kvm x)
unfolding handle
handle-Keeps kvm x =
    let reg = x.phys_addr % 0x1000 in
    choice-Keeps (x.is_write == 0) _ _
      (>>=-Keeps (pl011_response kvm reg) _ (pl011_response-Keeps kvm reg) (λ v. lift-Keeps _))
      (choice-Keeps (reg == 0) _ _
        (>>=-Keeps (lift (first_byte x.bytes)) _ (lift-Keeps _)
          (λ b. >>=-Keeps (print b) _ (print-Keeps b) (λ _. pure-Keeps x.bytes)))
        (>>=-Keeps (lift (read_le32 x.bytes 0)) _ (lift-Keeps _) (λ val.
          >>=-Keeps (write_register kvm reg val) _ (write_register-Keeps kvm reg val)
            (λ _. pure-Keeps x.bytes))))

-- Every access that returns normally leaves the line up exactly while an interrupt is pending that
-- the mask lets through, given that it was so before.
pub handle_keeps_line :
    (kvm : Kvm) (x : Mmio) (d : Pl011) (h : Host)
    → IsWired d h
    → let (d', h', r) = handle kvm x d h in is_ok r ≡ true → IsWired d' h'
unfolding Keeps
handle_keeps_line kvm x d h v e = handle-Keeps kvm x d h v e
