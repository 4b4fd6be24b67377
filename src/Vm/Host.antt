-- ===== src/Vm/Host.antt =====
-- What the devices reach through their handles: the interrupt lines of the VM's descriptor,
-- VmControl, and standard output. Also arch_update_irq of src/arch/x86_64/io.rs.
use kvm_rust.Vm.Control.{VmControl}
use kvm_rust.Vm.Control
use kvm_rust.Base.{
  Bool, List, Outcome, [], ap, err, if◌then◌else◌, ok, os, panic, refl, sym, ℕ, ◌++◌, ◌==◌, ◌∙◌,
  ◌∷◌, ◌≡◌,
}

-- One KVM_IRQ_LINE call.
pub record Line : Type 0 where
  pub num : ℕ
  pub level : ℕ

-- `lines`: the calls that KVM accepted, newest first. `signals`: the threads signalled so far.
-- `stdout`: the bytes written, in order.
pub record Host : Type 0 where
  pub lines : List Line
  pub control : VmControl
  pub signals : List ℕ
  pub stdout : List ℕ

-- Whether KVM accepts a KVM_IRQ_LINE call, given the calls before it. KVM is no code of this
-- repository, so it is a parameter.
abbrev pub Kvm : Type 0
Kvm = List Line → Line → Bool

-- A device method takes the device and the host, and returns both, also beside an error.
abbrev pub Method : Type 0 → Type 0 → Type 0
Method D A = D → Host → D × Host × Outcome A

infixl 5 ◌>>=◌ ◌>>◌
abbrev pub ◌>>=◌ : {D A B : Type 0} → Method D A → (A → Method D B) → Method D B
◌>>=◌ m f d h =
    let (d', h', r) = m d h in
    elim r [ ok a ↦ f a d' h' | err e ↦ (d', h', err e) | panic ↦ (d', h', panic) ]

abbrev pub ◌>>◌ : {D B : Type 0} → Method D (Unit {0}) → Method D B → Method D B
m >> k = m >>= λ _. k

-- A step that returns, and what follows it.
pub >>=-ok :
    {D A B : Type 0} (m : Method D A) (f : A → Method D B) (d : D) (h : Host) {d' : D} {h' : Host}
    {a : A}
    → m d h ≡ (d', h', ok a)
    → (m >>= f) d h ≡ f a d' h'
>>=-ok {D} {A} {B} m f d h e =
    ap
      (λ (x : D × Host × Outcome A).
        let (d', h', r) = x in
        elim r as (λ _. D × Host × Outcome B) [
          | ok a ↦ f a d' h'
          | err w ↦ (d', h', err w)
          | panic ↦ (d', h', panic)
        ])
      e

-- A step and what follows it, on the result of the step.
abbrev pub continue_with :
    {D A B : Type 0} → D × Host × Outcome A → (A → Method D B) → D × Host × Outcome B
continue_with (d, h, ok a) f = f a d h
continue_with (d, h, err e) f = (d, h, err e)
continue_with (d, h, panic) f = (d, h, panic)

>>=-eq-continue_with :
    {D A B : Type 0} (x : D × Host × Outcome A) (f : A → Method D B)
    → (let (d', h', r) = x in
        elim r as (λ _. D × Host × Outcome B) [
          | ok a ↦ f a d' h'
          | err e ↦ (d', h', err e)
          | panic ↦ (d', h', panic)
        ])
      ≡ continue_with x f
>>=-eq-continue_with (d, h, ok a) f = refl
>>=-eq-continue_with (d, h, err e) f = refl
>>=-eq-continue_with (d, h, panic) f = refl

continue_with-returns :
    {D A B : Type 0} (x : D × Host × Outcome A) (f : A → Method D B) {d' : D} {h' : Host} {b : B}
    → continue_with x f ≡ (d', h', ok b)
    → (d1 : D) × (h1 : Host) × (a : A) × (x ≡ (d1, h1, ok a)) × (f a d1 h1 ≡ (d', h', ok b))
continue_with-returns (d, h, ok a) f e = (d, h, a, refl, e)
continue_with-returns (d, h, err w) f e = cc
continue_with-returns (d, h, panic) f e = cc

-- A chain that returns: its first step did, and so did the rest.
pub >>=-returns :
    {D A B : Type 0} (m : Method D A) (f : A → Method D B) (d : D) (h : Host) {d' : D} {h' : Host}
    {b : B}
    → (m >>= f) d h ≡ (d', h', ok b)
    → (d1 : D) × (h1 : Host) × (a : A) × (m d h ≡ (d1, h1, ok a)) × (f a d1 h1 ≡ (d', h', ok b))
>>=-returns m f d h e = continue_with-returns (m d h) f (sym (>>=-eq-continue_with (m d h) f) ∙ e)

abbrev pub pure : {D A : Type 0} → A → Method D A
pure a d h = (d, h, ok a)

-- A step that touches the device alone.
abbrev pub modify : {D : Type 0} → (D → D) → Method D (Unit {0})
modify f d h = (f d, h, ok tt)

abbrev pub lift : {D A : Type 0} → Outcome A → Method D A
lift r d h = (d, h, r)

unfoldable pub arch_update_irq : {D : Type 0} → Kvm → ℕ → ℕ → Method D (Unit {0})
arch_update_irq kvm level num d h =
    let line : Line = record { num = num; level = level } in
    if kvm h.lines line then (d, record h { lines = line ∷ h.lines }, ok tt) else (d, h, err os)

-- The level that the calls have left an interrupt line at; a line starts low.
abbrev pub wire : ℕ → List Line → ℕ
wire num [] = 0
wire num (l ∷ ls) = if l.num == num then l.level else wire num ls

unfoldable pub stop_vm : {D : Type 0} → Method D (Unit {0})
unfolding Control.stop
stop_vm d h =
    let (control, targets) = Control.stop h.control in
    (d, record h { control = control; signals = h.signals ++ targets }, ok tt)

-- KVM_EXIT_IO_IN and KVM_EXIT_IO_OUT of the generated bindings, or any other value.
pub data Direction : Type 0 where
  io_in io_out neither : Direction

-- A KVM_EXIT_IO exit: `bytes` are those of the kvm_run page from `data_offset` on, `size * count`
-- of them. A handler returns them as it leaves them.
pub record Io : Type 0 where
  pub direction : Direction
  pub port : ℕ
  pub size : ℕ
  pub count : ℕ
  pub bytes : List ℕ

-- A KVM_EXIT_MMIO exit; `data` of the source is `bytes`.
pub record Mmio : Type 0 where
  pub phys_addr : ℕ
  pub bytes : List ℕ
  pub is_write : ℕ
