-- ===== src/Virtio/Mmio/Interrupt.antt =====
-- src/virtio/mmio.rs: the interrupt line and the interrupt status register.
use mathlib.Core.Option
use kvm_rust.Base.{
  Bool, List, Option, Option-cases, Outcome, Outcome-cases, arith, err, false, get_elem?, get_or,
  if◌then◌else◌, inl, inr, is_ok, none, ok, panic, refl, some, suc, true, zero, ℕ, ◌%◌, ◌==◌, ◌≡◌,
  ◌⊎◌,
}
use kvm_rust.Base.Bits.{bit_or_digit}
use kvm_rust.Util.Binary.{read_le32}
use kvm_rust.Vm.Host.{Host, Kvm, Mmio, Method, ◌>>=◌, pure, lift, arch_update_irq, wire}
use kvm_rust.Virtio.Bindings.{Bindings}
use kvm_rust.Virtio.Queue.{VringQueue, DescChain, pop_avail, push_used}
use kvm_rust.Virtio.Queue
use kvm_rust.Virtio.Device.{
  VirtioDevice, MmioBindings, Register, mmio_queue_num, mmio_queue_ready, mmio_queue_notify,
  mmio_interrupt_ack, mmio_queue_desc_low, mmio_queue_desc_high, mmio_queue_avail_low,
  mmio_queue_avail_high, mmio_queue_used_low, mmio_queue_used_high,
}
use kvm_rust.Virtio.Mmio.{
  VirtioMmio, Attached, set_queue, selected_queue, on_mmio, has_effect, register_store, written,
  write_register, read_register, register_value, handle, pop, process, push, interrupt, serve,
  round, rounds, queue_notify, poll,
}

-- The line is down, or the status register has the bit of the used rings.
abbrev pub HasReason : {D : Type 0} → Attached D → Host → Type 0
HasReason s h = (wire s.mmio.irq h.lines ≡ 0) ⊎ (s.mmio.irq_status % 2 ≡ 1)

-- Where a method returns normally, the line still has its reason.
unfoldable pub Keeps : {D A : Type 0} → Method (Attached D) A → Type 0
Keeps {D} m =
    (s : Attached D) (h : Host)
    → HasReason s h
    → let (s', h', r) = m s h in is_ok r ≡ true → HasReason s' h'

after-Keeps :
    {D A B : Type 0} (f : A → Method (Attached D) B) (s : Attached D) (h : Host) (r : Outcome A)
    → (is_ok r ≡ true → HasReason s h)
    → ((a : A) → Keeps (f a))
    → let (s', h', r') = (lift r >>= f) s h in is_ok r' ≡ true → HasReason s' h'
unfolding Keeps
after-Keeps f s h (ok a) v kf e = kf a s h (v refl) e
after-Keeps f s h (err w) v kf e = v e
after-Keeps f s h panic v kf e = v e

>>=-Keeps :
    {D A B : Type 0} (m : Method (Attached D) A) (f : A → Method (Attached D) B)
    → Keeps m
    → ((a : A) → Keeps (f a))
    → Keeps (m >>= f)
unfolding Keeps
>>=-Keeps m f km kf s h v e = after-Keeps f (m s h).0 (m s h).1 (m s h).2 (km s h v) kf e

-- Both branches of a conditional.
if-Keeps :
    {D A : Type 0} (test : Bool) (m k : Attached D × Host × Outcome A)
    → (is_ok m.2 ≡ true → HasReason m.0 m.1)
    → (is_ok k.2 ≡ true → HasReason k.0 k.1)
    → let r = if test then m else k in is_ok r.2 ≡ true → HasReason r.0 r.1
if-Keeps true m k vm vk = vm
if-Keeps false m k vm vk = vk

choice-Keeps :
    {D A : Type 0} (test : Bool) (m k : Method (Attached D) A)
    → Keeps m
    → Keeps k
    → Keeps (if test then m else k)
choice-Keeps true m k km kk = km
choice-Keeps false m k km kk = kk

set_queue-irq :
    {D : Type 0} (i : ℕ) (f : VringQueue → VringQueue) (m : VirtioMmio D)
    → ((set_queue i f m).irq ≡ m.irq) × ((set_queue i f m).irq_status ≡ m.irq_status)
set_queue-irq i f m = elim (Option-cases (get_elem? m.queue i)) [
  | inl missing ↦ ground arith
  | inr (q, there) ↦ ground arith
]

selected_irq :
    {D : Type 0} (m : VirtioMmio D) (f : VringQueue → VringQueue)
    → ((selected_queue f m).irq ≡ m.irq) × ((selected_queue f m).irq_status ≡ m.irq_status)
selected_irq m f = set_queue-irq m.curr_queue f m

module _ {D : Type 0} (b : Bindings) (c : MmioBindings) (dev : VirtioDevice D) (kvm : Kvm)
    (one : c.virtio_mmio_int_vring ≡ 1) where
  pop-Keeps : (i : ℕ) (q : VringQueue) → Keeps (pop b c dev kvm i q)
  unfolding Keeps pop
  pop-Keeps i q s h v e =
      let step = set_queue-irq i (λ _. (pop_avail b s.mem q).0) s.mmio in ground (arith, step)

  push-Keeps : (q : VringQueue) (head len : ℕ) → Keeps (push b c dev kvm q head len)
  unfolding Keeps push
  push-Keeps q head len s h v e = elim (Outcome-cases (push_used b s.mem q head len)) [
    | inl (mem, done) ↦ ground arith
    | inr failed ↦ ground arith
  ]

  process-Keeps : (i : ℕ) (chain : DescChain) → Keeps (process b c dev kvm i chain)
  unfolding Keeps process
  process-Keeps i chain s h v e = v

  interrupt-Keeps : Keeps (interrupt b c dev kvm)
  unfolding Keeps interrupt arch_update_irq
  interrupt-Keeps s h v e = ground (arith, bit_or_digit s.mmio.irq_status 1, one)

  serve-Keeps : (i : ℕ) (q : VringQueue) (chain : DescChain) → Keeps (serve b c dev kvm i q chain)
  unfolding serve
  serve-Keeps i q chain = >>=-Keeps (process b c dev kvm i chain) _ (process-Keeps i chain) (λ len.
      >>=-Keeps (push b c dev kvm q chain.head len) _ (push-Keeps q chain.head len)
        (λ _. interrupt-Keeps))

  pure-Keeps : {A : Type 0} (a : A) → Keeps {D = D} (pure a)
  unfolding Keeps
  pure-Keeps a s h v e = v

  lift-Keeps : {A : Type 0} (r : Outcome A) → Keeps {D = D} (lift r)
  unfolding Keeps
  lift-Keeps r s h v e = v

  round-Keeps :
      (rest : Method (Attached D) (Option (Unit {0}))) (i : ℕ) (q : VringQueue)
      (popped : Option DescChain)
      → Keeps rest
      → Keeps (round b c dev kvm rest i q popped)
  unfolding round
  round-Keeps rest i q none k = pure-Keeps (some tt)
  round-Keeps rest i q (some chain) k =
      >>=-Keeps (serve b c dev kvm i q chain) _ (serve-Keeps i q chain) (λ _. k)

  rounds-Keeps : (n i : ℕ) → Keeps (rounds b c dev kvm n i)
  unfolding Keeps rounds
  rounds-Keeps zero i s h v e = v
  rounds-Keeps (suc n) i s h v e =
      let q = get_or s.mmio.queue i Queue.new in
      let step =
        >>=-Keeps (pop b c dev kvm i q) (round b c dev kvm (rounds b c dev kvm n i) i q)
          (pop-Keeps i q)
          (λ popped. round-Keeps (rounds b c dev kvm n i) i q popped (rounds-Keeps n i)) in
      if-Keeps (dev.can_process s.mmio.device i) _ (s, h, ok (some tt)) (step s h v) (λ _. v) e

  queue_notify-Keeps : (n i : ℕ) → Keeps (queue_notify b c dev kvm n i)
  unfolding Keeps queue_notify
  queue_notify-Keeps n i s h v e = elim (Option-cases (get_elem? s.mmio.queue i)) [
    | inl missing ↦ ground arith
    | inr (q, there) ↦ ground (arith, rounds-Keeps n i s h v)
  ]

  -- Serving both queues keeps it too.
  pub poll-Keeps : (n : ℕ) → Keeps (poll b c dev kvm n)
  unfolding poll
  poll-Keeps n = >>=-Keeps (queue_notify b c dev kvm n 0) _ (queue_notify-Keeps n 0) (λ first.
      >>=-Keeps (queue_notify b c dev kvm n 1) _ (queue_notify-Keeps n 1) (λ second. pure-Keeps _))

  read_register-Keeps :
      (reg : Register) (bytes : List ℕ) → Keeps (read_register b c dev kvm reg bytes)
  unfolding Keeps read_register register_value
  read_register-Keeps reg bytes s h v e = ground arith

  lower-Keeps :
      (s : Attached D) (h : Host)
      → let (s', h', r) = arch_update_irq kvm 0 s.mmio.irq s h in is_ok r ≡ true → HasReason s' h'
  unfolding arch_update_irq
  lower-Keeps s h e = ground arith

  acknowledge-Keeps :
      (n val : ℕ) (s : Attached D) (h : Host)
      → let (s', h', r) = written b c dev kvm n mmio_interrupt_ack val s h in
        is_ok r ≡ true → HasReason s' h'
  unfolding written
  acknowledge-Keeps n val s h e =
      let cleared = on_mmio (register_store mmio_interrupt_ack val) s in
      let (s', h', r) = arch_update_irq kvm 0 cleared.mmio.irq cleared h in
      after-Keeps (λ _. pure (some tt)) s' h' r (lower-Keeps cleared h) (λ _. pure-Keeps (some tt))
        e

  written-Keeps : (n : ℕ) (reg : Register) (val : ℕ) → Keeps (written b c dev kvm n reg val)
  unfolding Keeps written register_store
  written-Keeps n mmio_queue_notify val s h v e = queue_notify-Keeps n val s h v e
  written-Keeps n mmio_interrupt_ack val s h v e = acknowledge-Keeps n val s h e
  written-Keeps n mmio_queue_num val s h v e = ground (arith, selected_irq s.mmio)
  written-Keeps n mmio_queue_ready val s h v e = ground (arith, selected_irq s.mmio)
  written-Keeps n mmio_queue_desc_low val s h v e = ground (arith, selected_irq s.mmio)
  written-Keeps n mmio_queue_desc_high val s h v e = ground (arith, selected_irq s.mmio)
  written-Keeps n mmio_queue_avail_low val s h v e = ground (arith, selected_irq s.mmio)
  written-Keeps n mmio_queue_avail_high val s h v e = ground (arith, selected_irq s.mmio)
  written-Keeps n mmio_queue_used_low val s h v e = ground (arith, selected_irq s.mmio)
  written-Keeps n mmio_queue_used_high val s h v e = ground (arith, selected_irq s.mmio)
  written-Keeps n _ val s h v e = v

  write_register-Keeps :
      (n : ℕ) (reg : Register) (bytes : List ℕ) → Keeps (write_register b c dev kvm n reg bytes)
  unfolding write_register
  write_register-Keeps n reg bytes =
      choice-Keeps (has_effect reg) (lift (read_le32 bytes 0) >>= written b c dev kvm n reg)
        (pure (some tt))
        (>>=-Keeps (lift (read_le32 bytes 0)) (written b c dev kvm n reg)
          (lift-Keeps (read_le32 bytes 0)) (written-Keeps n reg))
        (pure-Keeps (some tt))

  handle-Keeps : (n : ℕ) (x : Mmio) → Keeps (handle b c dev kvm n x)
  unfolding handle
  handle-Keeps n x =
      let reg = c.register (x.phys_addr % 0x1000) in
      let reads = read_register b c dev kvm reg x.bytes in
      let writes = write_register b c dev kvm n reg x.bytes in
      let same : Option (Unit {0}) → Method (Attached D) (Option (List ℕ)) =
        λ done. pure (Option.map (λ _. x.bytes) done) in
      choice-Keeps (x.is_write == 0) (reads >>= λ bytes. pure (some bytes)) (writes >>= same)
        (>>=-Keeps reads (λ bytes. pure (some bytes)) (read_register-Keeps reg x.bytes)
          (λ bytes. pure-Keeps (some bytes)))
        (>>=-Keeps writes same (write_register-Keeps n reg x.bytes) (λ done. pure-Keeps _))

  -- When a register access returns normally, the interrupt line is up only if the status register
  -- has the bit of the used rings, given that this was so before. That bit is the lowest one.
  pub handle-HasReason :
      (n : ℕ) (x : Mmio) (s : Attached D) (h : Host)
      → HasReason s h
      → let (s', h', r) = handle b c dev kvm n x s h in is_ok r ≡ true → HasReason s' h'
  unfolding Keeps
  handle-HasReason n x s h v e = handle-Keeps n x s h v e
