-- ===== src/Arch/I8042/Reads.antt =====
-- src/arch/x86_64/i8042.rs: reads of the data port.
use kvm_rust.Base.{
  List, [], arith, has, is_ok, is_some, none, ok, some, suc, take-append-drop, true, ℕ, ◌↔◌, ◌∷◌,
  ◌≡◌, ◌≢◌,
}
use kvm_rust.Vm.Host.{Host, Kvm, Io, io_in, arch_update_irq, Line}
use kvm_rust.Arch.I8042.{
  I8042, i8042_irq, i8042_data, i8042_command, update_irq, load_output, take_output, read_data,
  dispatch, handle, status, status_obf,
}
use kvm_rust.Arch.I8042.Line.{update_irq-relevel}
use kvm_rust.Arch.I8042.Fifo.{IsLoaded, pending}

abbrev pub head_or : ℕ → List ℕ → ℕ
head_or d [] = d
head_or d (b ∷ bs) = b

abbrev pub tail : List ℕ → List ℕ
tail [] = []
tail (b ∷ bs) = bs

-- A read of `n + 1` bytes whose slice begins with `x`.
abbrev pub read_at : ℕ → ℕ → ℕ → List ℕ → Io
read_at port n x xs = record {
  direction = io_in;
  port = port;
  size = suc n;
  count = 1;
  bytes = x ∷ xs;
}

read_data_fifo :
    (kvm : Kvm) (d : I8042) (h : Host)
    → IsLoaded d
    → let (d', h', r) = read_data kvm d h in
      is_ok r ≡ true → (r ≡ ok (head_or 0 (pending d))) × (pending d' ≡ tail (pending d))
unfolding read_data take_output load_output
read_data_fifo kvm d h l e = ground (arith, update_irq-relevel kvm (record d { output = none }) h)

-- A read of port 0x60 hands the guest the oldest pending byte, or 0 if there is none, and the rest
-- stays pending in its order.
pub handle_reads_oldest :
    (kvm : Kvm) (n x : ℕ) (xs : List ℕ) (d : I8042) (h : Host)
    → IsLoaded d
    → let (d', h', r) = handle kvm (read_at i8042_data n x xs) d h in
      is_ok r ≡ true → (r ≡ ok (head_or 0 (pending d) ∷ xs)) × (pending d' ≡ tail (pending d))
unfolding handle dispatch
handle_reads_oldest kvm n x xs d h l e =
    let done = read_data kvm d h in
    ground
      (arith, read_data_fifo kvm d h l, update_irq-relevel kvm done.0 done.1, take-append-drop n xs)

status-obf : (d : I8042) → has (status d) status_obf ≡ is_some d.output
unfolding status
status-obf d = ground arith

pending-ne-nil : (d : I8042) → IsLoaded d → (is_some d.output ≡ true) ↔ (pending d ≢ [])
pending-ne-nil d l = (λ p q. ground arith, λ p. ground arith)

-- A read of port 0x64 shows in bit 0 whether a byte is pending, and takes none.
pub handle_reads_status :
    (kvm : Kvm) (n x : ℕ) (xs : List ℕ) (d : I8042) (h : Host)
    → IsLoaded d
    → let (d', h', r) = handle kvm (read_at i8042_command n x xs) d h in
      is_ok r ≡ true
      → (s : ℕ) × (r ≡ ok (s ∷ xs))
        × ((has s status_obf ≡ true) ↔ (pending d ≢ []))
        × (pending d' ≡ pending d)
unfolding handle dispatch
handle_reads_status kvm n x xs d h l e = (
  status d,
  ground (arith, update_irq-relevel kvm d h, take-append-drop n xs),
  rw (status-obf d) (pending-ne-nil d l),
  ground (arith, update_irq-relevel kvm d h),
)

pending_two :
    (d : I8042) (b c : ℕ) (queue : List ℕ)
    → IsLoaded d
    → pending d ≡ b ∷ c ∷ queue
    → (d.output ≡ some b) × (d.queue ≡ c ∷ queue)
pending_two d b c queue l p = ground arith

-- The interrupt line is edge-triggered: while another byte is pending, a read makes it fall and
-- rise again, so that the guest gets an interrupt for each byte.
pub handle_read_edge :
    (kvm : Kvm) (n x b c : ℕ) (xs queue : List ℕ) (d : I8042) (h : Host)
    → ((lines : List Line) (l : Line) → kvm lines l ≡ true)
    → pending d ≡ b ∷ c ∷ queue
    → IsLoaded d
    → has d.config 0x01 ≡ true
    → d.irq_level ≡ true
    → let (d', h', r) = handle kvm (read_at i8042_data n x xs) d h in
      (r ≡ ok (b ∷ xs))
      × (h'.lines
          ≡ record { num = i8042_irq; level = 1 } ∷ record { num = i8042_irq; level = 0 } ∷ h.lines)
unfolding handle dispatch read_data take_output load_output update_irq arch_update_irq
handle_read_edge kvm n x b c xs queue d h accepts p l int lev =
    let (now, later) = pending_two d b c queue l p in
    let low : Line = record { num = i8042_irq; level = 0 } in
    ground (
      arith,
      now,
      later,
      accepts h.lines low,
      accepts (low ∷ h.lines) (record { num = i8042_irq; level = 1 }),
      take-append-drop n xs,
    )
