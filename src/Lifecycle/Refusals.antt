-- ===== src/Lifecycle/Refusals.antt =====
-- Refused calls (packages/lifecycle-kernel/src/features/lifecycle/kernel.ts).
use get_modular.Base.{◌≡◌, Option, none, some, arith, number_key}
use get_modular.Lifecycle.Kernel.{
  Kernel, Refusal, Result, accepted, refused, activate, quiesce, resume, retire, finish_retirement,
  begin_call, retain_custody, release,
}
use get_modular.Lifecycle.Trace.{
  Op, stages, elsewhere, activates, quiesces, resumes, retires, begins, retains, releases, finishes,
  step,
}

abbrev reason {ℓ} : {A : Type ℓ} → Result A → Option Refusal
reason (accepted a) = none
reason (refused x) = some x

-- The reason with which a call is refused.
unfoldable pub refusal : Kernel → Op → Option Refusal
unfolding activate quiesce resume retire begin_call retain_custody release finish_retirement
refusal k stages = none
refusal k elsewhere = none
refusal k (activates g) = reason (activate k g).1
refusal k (quiesces g) = reason (quiesce k g).1
refusal k (resumes g) = reason (resume k g).1
refusal k (retires g) = reason (retire k g).1
refusal k (begins g) = reason (begin_call k g).1
refusal k (retains g) = reason (retain_custody k g).1
refusal k (releases l) = reason (release k l).1
refusal k (finishes g) = reason (finish_retirement k g).1

-- Whatever the reason, a refused call leaves the kernel as it was.
pub refused_unchanged : (k : Kernel) (o : Op) (x : Refusal) → refusal k o ≡ some x → step k o ≡ k
unfolding refusal step
refused_unchanged k stages x e = cc
refused_unchanged k elsewhere x e = cc
refused_unchanged k (activates g) x e = ground arith
refused_unchanged k (quiesces g) x e = ground arith
refused_unchanged k (resumes g) x e = ground arith
refused_unchanged k (retires g) x e = ground arith
refused_unchanged k (begins g) x e = ground arith
refused_unchanged k (retains g) x e = ground arith
refused_unchanged k (releases l) x e = ground arith
refused_unchanged k (finishes g) x e = ground arith
