-- ===== src/Vm/Control.antt =====
-- VmControl of src/main.rs: the flags and the thread list that vcpu and device threads share.
-- A thread is its pthread_t; a call that sends signals returns the list of their targets.
use kvm_rust.Base.{Bool, List, [], false, if◌then◌else◌, take, true, ℕ, ◌++◌, ◌==◌, ◌∷◌}

pub record VmControl : Type 0 where
  pub should_stop : Bool
  pub devices_pending : Bool
  pub vcpu_threads : List ℕ

abbrev pub new : VmControl
new = record { should_stop = false; devices_pending = false; vcpu_threads = [] }

-- Sets the flag and signals every registered thread.
unfoldable pub stop : VmControl → VmControl × List ℕ
stop c = (record c { should_stop = true }, c.vcpu_threads)

-- Sets the flag and signals the first registered thread, if any.
unfoldable pub kick : VmControl → VmControl × List ℕ
kick c = (record c { devices_pending = true }, take 1 c.vcpu_threads)

-- `swap(false)`: the old flag is returned.
unfoldable pub take_devices_pending : VmControl → VmControl × Bool
take_devices_pending c = (record c { devices_pending = false }, c.devices_pending)

unfoldable pub register_vcpu_thread : ℕ → VmControl → VmControl
register_vcpu_thread self c = record c { vcpu_threads = c.vcpu_threads ++ self ∷ [] }

-- `retain(|t| t != self)`
abbrev pub retain_ne : ℕ → List ℕ → List ℕ
retain_ne self [] = []
retain_ne self (t ∷ ts) = if t == self then retain_ne self ts else t ∷ retain_ne self ts

unfoldable pub unregister_vcpu_thread : ℕ → VmControl → VmControl
unregister_vcpu_thread self c = record c { vcpu_threads = retain_ne self c.vcpu_threads }
