-- ===== src/Lifecycle/Trace.antt =====
-- Histories of calls on one kernel (packages/lifecycle-kernel/src/features/lifecycle/kernel.ts), in
-- the order in which a host makes them. The calls are synchronous, so a history is a list.
use get_modular.Base.{
  ℕ, suc, List, [], ◌∷◌, Bool, true, false, ◌&&◌, ◌==◌, number_key, if◌then◌else◌, total,
}
use get_modular.Lifecycle.Kernel.{
  Kernel, LeaseRecord, LeaseKind, call, custodial, stage, activate, quiesce, resume, retire,
  begin_call, retain_custody, release, finish_retirement,
}

-- The calls that may change the kernel; `elsewhere` is an object that other code creates.
pub data Op : Type 0 where
  stages elsewhere : Op
  activates quiesces resumes retires begins retains releases finishes : ℕ → Op

unfoldable pub step : Kernel → Op → Kernel
unfolding stage activate quiesce resume retire begin_call retain_custody release finish_retirement
step k stages = (stage k).0
step k elsewhere = record k { next_object = suc k.next_object }
step k (activates g) = (activate k g).0
step k (quiesces g) = (quiesce k g).0
step k (resumes g) = (resume k g).0
step k (retires g) = (retire k g).0
step k (begins g) = (begin_call k g).0
step k (retains g) = (retain_custody k g).0
step k (releases l) = (release k l).0
step k (finishes g) = (finish_retirement k g).0

unfoldable pub run : Kernel → List Op → Kernel
run k [] = k
run k (o ∷ os) = run (step k o) os

-- 1 for an open lease of the given kind on the given generation.
abbrev pub same_kind : LeaseKind → LeaseKind → Bool
same_kind call call = true
same_kind custodial custodial = true
same_kind _ _ = false

abbrev pub open_weight : LeaseKind → ℕ → LeaseRecord → ℕ
open_weight kind g lease =
    if lease.released
    then 0
    else if same_kind kind lease.kind && lease.generation == g
    then 1
    else 0

-- How many leases of a kind are open on a generation.
abbrev pub open_leases : LeaseKind → ℕ → Kernel → ℕ
open_leases kind g k = total (open_weight kind g) k.leases
