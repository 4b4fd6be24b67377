-- ===== src/Vm/Run/Ends.antt =====
-- How the run loop of src/main.rs ends.
use kvm_rust.Vm.Control
use kvm_rust.Vm.Control.{VmControl, retain_ne}
use kvm_rust.Vm.Host.{Host, ◌>>=◌, ◌>>◌, >>=-ok, stop_vm}
use kvm_rust.Vm.Run.{
  Vm, Note, stop_note, kick_note, Turn, heed, kick_vm, should_stop, round, unless_left, run_loop,
  vcpu_run, vcpu_thread, unless_panic, on_control, stop_host, join_all,
}
use kvm_rust.Base.{
  All, Bool, Error, List, Outcome, [], ap, arith, err, false, ok, other_error, panic, refl, sym,
  take, true, ℕ, ◌++◌, ◌↔◌, ◌∙◌, ◌∷◌, ◌≡◌, ◌≢◌,
}

-- What others do leaves the devices, and a request to stop.
heed-stopped :
    {S : Type 0} (notes : List Note) (d : S) (h : Host)
    → h.control.should_stop ≡ true
    → (h' : Host) × (heed notes d h ≡ (d, h', ok tt)) × (h'.control.should_stop ≡ true)
unfolding heed kick_vm stop_vm
heed-stopped [] d h e = (h, refl, e)
heed-stopped (stop_note ∷ notes) d h e =
    heed-stopped notes d
      (record h {
        control = record (h.control) { should_stop = true };
        signals = h.signals ++ h.control.vcpu_threads;
      })
      refl
heed-stopped (kick_note ∷ notes) d h e =
    heed-stopped notes d
      (record h {
        control = record (h.control) { devices_pending = true };
        signals = h.signals ++ take 1 (h.control.vcpu_threads);
      })
      e

-- Once a stop is requested, the loop ends at its next round: it calls no device, whatever others do
-- and KVM_RUN would return, and the request stays.
pub run_loop-stopped :
    {S : Type 0} (vm : Vm S) (t : Turn) (turns : List Turn) (d : S) (h : Host)
    → h.control.should_stop ≡ true
    → (h' : Host) × (run_loop vm (t ∷ turns) d h ≡ (d, h', ok record { answers = []; left = true }))
      × (h'.control.should_stop ≡ true)
unfolding run_loop should_stop round
run_loop-stopped vm t turns d h e =
    let (h', heeded, stays) = heed-stopped t.notes d h e in
    let asked : (heed t.notes >> should_stop) d h ≡ (d, h', ok true) =
      >>=-ok (heed t.notes) (λ done. should_stop) d h heeded ∙ ap (λ b. (d, h', ok b)) stays in
    let left : (heed t.notes >> should_stop >>= round vm t.exit) d h
        ≡ (d, h', ok record { answers = []; left = true }) =
      >>=-ok (heed t.notes >> should_stop) (round vm t.exit) d h asked in
    (
      h',
      >>=-ok (heed t.notes >> should_stop >>= round vm t.exit) (unless_left (run_loop vm turns)) d h
          left,
      stays,
    )

retain_ne-ne : (self : ℕ) (ts : List ℕ) → All (λ t. t ≢ self) (retain_ne self ts)
retain_ne-ne self [] = tt
retain_ne-ne self (t ∷ ts) = ground (arith, retain_ne-ne self ts)

-- The thread has asked the VM to stop and is registered no more.
abbrev pub IsGone : ℕ → Host → Type 0
IsGone self h = (h.control.should_stop ≡ true) × All (λ t. t ≢ self) h.control.vcpu_threads

abbrev pub panics : {A : Type 0} → Outcome A → Bool
panics (ok a) = false
panics (err e) = false
panics panic = true

IsGone-after :
    {S A : Type 0} (self : ℕ) (x : S × Host × Outcome A)
    → let (d, h, r) =
        unless_panic stop_host
          (unless_panic (on_control (Control.unregister_vcpu_thread self)) x) in
      panics r ≡ false → IsGone self h
unfolding Control.unregister_vcpu_thread stop_host
IsGone-after self (d, h, ok a) e = (refl, retain_ne-ne self h.control.vcpu_threads)
IsGone-after self (d, h, err w) e = (refl, retain_ne-ne self h.control.vcpu_threads)
IsGone-after self (d, h, panic) e = absurd (ground arith)

-- A vcpu thread that ends, with an error or not, has unregistered itself and asked the others to
-- stop. This is for a thread that does not panic.
pub vcpu_thread-IsGone :
    {S : Type 0} (vm : Vm S) (self : ℕ) (turns : List Turn) (d : S) (h : Host)
    → let (d', h', r) = vcpu_thread vm self turns d h in panics r ≡ false → IsGone self h'
unfolding vcpu_thread vcpu_run
vcpu_thread-IsGone vm self turns d h =
    IsGone-after self (run_loop vm turns d (on_control (Control.register_vcpu_thread self) h))

join_all-err : (e : Error) (rs : List (Outcome (Unit {0}))) → join_all (err e) rs ≡ err e
unfolding join_all
join_all-err e [] = refl
join_all-err e (r ∷ rs) = join_all-err e rs

-- VM::run succeeds exactly if every vcpu thread did.
pub join_all-ok :
    (rs : List (Outcome (Unit {0}))) → (join_all (ok tt) rs ≡ ok tt) ↔ All (λ r. r ≡ ok tt) rs
unfolding join_all
join_all-ok [] = (λ e. tt, λ e. refl)
join_all-ok (ok tt ∷ rs) = (λ e. (refl, (join_all-ok rs).0 e), λ all. (join_all-ok rs).1 all.1)
join_all-ok (err e ∷ rs) = (
  λ h. absurd (let kept = sym (join_all-err e rs) ∙ h in cc),
  λ all. absurd (let failed = all.0 in cc),
)
join_all-ok (panic ∷ rs) = (
  λ h. absurd (let kept = sym (join_all-err other_error rs) ∙ h in cc),
  λ all. absurd (let failed = all.0 in cc),
)
