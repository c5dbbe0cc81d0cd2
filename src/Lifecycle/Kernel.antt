-- ===== src/Lifecycle/Kernel.antt =====
-- packages/lifecycle-kernel/src/features/lifecycle/kernel.ts and types.ts: `createLifecycleKernel`.
-- An identity (`Generation`, `Lease`) is the number of the object that `Object.create(null)` made;
-- `next_object` is the next such number. A `WeakMap` is a map from identities to records, and a lease
-- names the generation record that it points to by that generation's identity.
use get_modular.Base.{
  ℕ, suc, ◌+◌, ◌-◌, List, [], Option, none, some, Bool, true, false, not, ◌&&◌, ◌||◌, ◌==◌,
  number_key, if◌then◌else◌, lookup, insert,
}

pub data Phase : Type 0 where
  staged active quiescing retiring retired : Phase

pub data Refusal : Type 0 where
  foreign_generation foreign_lease wrong_lease_kind invalid_phase admission_closed revoked : Refusal
  released_lease retained_work : Refusal

pub data Result {ℓ} (A : Type ℓ) : Type ℓ where
  accepted : A → Result A
  refused : Refusal → Result A

pub record GenerationRecord : Type 0 where
  pub phase : Phase
  pub calls : ℕ
  pub custody : ℕ

pub data LeaseKind : Type 0 where
  call custodial : LeaseKind

pub record LeaseRecord : Type 0 where
  pub kind : LeaseKind
  pub generation : ℕ
  pub released : Bool

pub data Admission : Type 0 where
  admitted : Admission

pub data ReleaseOutcome : Type 0 where
  now_released already_released : ReleaseOutcome

pub record Kernel : Type 0 where
  pub next_object : ℕ
  pub generations : List (ℕ × GenerationRecord)
  pub leases : List (ℕ × LeaseRecord)

abbrev pub is_phase : Phase → Phase → Bool
is_phase staged staged = true
is_phase active active = true
is_phase quiescing quiescing = true
is_phase retiring retiring = true
is_phase retired retired = true
is_phase _ _ = false

abbrev pub is_call : LeaseKind → Bool
is_call call = true
is_call custodial = false

unfoldable pub create_lifecycle_kernel : ℕ → Kernel
create_lifecycle_kernel next = record { next_object = next; generations = []; leases = [] }

-- Writing through a generation record, which the kernel's map and its leases share.
abbrev pub set_generation : Kernel → ℕ → GenerationRecord → Kernel
set_generation k g r = record k { generations = insert g r k.generations }

unfoldable pub stage : Kernel → Kernel × ℕ
stage k = (
  record k {
    next_object = suc k.next_object;
    generations =
        insert k.next_object (record { phase = staged; calls = 0; custody = 0 }) k.generations;
  },
  k.next_object,
)

unfoldable pub activate : Kernel → ℕ → Kernel × Result Phase
activate k g = elim (lookup g k.generations) [
  | none ↦ (k, refused foreign_generation)
  | some r ↦
      if not (is_phase r.phase staged)
      then (k, refused invalid_phase)
      else (set_generation k g (record r { phase = active }), accepted active)
]

unfoldable pub quiesce : Kernel → ℕ → Kernel × Result Phase
quiesce k g = elim (lookup g k.generations) [
  | none ↦ (k, refused foreign_generation)
  | some r ↦
      if is_phase r.phase quiescing
      then (k, accepted quiescing)
      else if not (is_phase r.phase active)
      then (k, refused invalid_phase)
      else (set_generation k g (record r { phase = quiescing }), accepted quiescing)
]

unfoldable pub resume : Kernel → ℕ → Kernel × Result Phase
resume k g = elim (lookup g k.generations) [
  | none ↦ (k, refused foreign_generation)
  | some r ↦
      if not (is_phase r.phase quiescing)
      then (k, refused invalid_phase)
      else (set_generation k g (record r { phase = active }), accepted active)
]

unfoldable pub retire : Kernel → ℕ → Kernel × Result Phase
retire k g = elim (lookup g k.generations) [
  | none ↦ (k, refused foreign_generation)
  | some r ↦
      if is_phase r.phase retired
      then (k, accepted retired)
      else (set_generation k g (record r { phase = retiring }), accepted retiring)
]

-- `leases.set` under a fresh identity, and the counter of the generation's record after it.
abbrev pub open_lease : Kernel → LeaseKind → ℕ → GenerationRecord → Kernel
open_lease k kind g r = record {
  next_object = suc k.next_object;
  generations = insert g r k.generations;
  leases = insert k.next_object (record { kind = kind; generation = g; released = false }) k.leases;
}

unfoldable pub begin_call : Kernel → ℕ → Kernel × Result ℕ
begin_call k g = elim (lookup g k.generations) [
  | none ↦ (k, refused foreign_generation)
  | some r ↦
      if not (is_phase r.phase active)
      then (k, refused admission_closed)
      else (open_lease k call g (record r { calls = r.calls + 1 }), accepted k.next_object)
]

unfoldable pub retain_custody : Kernel → ℕ → Kernel × Result ℕ
retain_custody k g = elim (lookup g k.generations) [
  | none ↦ (k, refused foreign_generation)
  | some r ↦
      if not (is_phase r.phase staged) && not (is_phase r.phase active)
      then (k, refused admission_closed)
      else (open_lease k custodial g (record r { custody = r.custody + 1 }), accepted k.next_object)
]

-- The phase of the generation record that a lease points to.
abbrev pub phase_closed : Option GenerationRecord → Bool
phase_closed none = false
phase_closed (some r) = is_phase r.phase retiring || is_phase r.phase retired

unfoldable pub check_call : Kernel → ℕ → Result Admission
check_call k l = elim (lookup l k.leases) [
  | none ↦ refused foreign_lease
  | some lease ↦
      if not (is_call lease.kind)
      then refused wrong_lease_kind
      else if lease.released
      then refused released_lease
      else if phase_closed (lookup lease.generation k.generations)
      then refused revoked
      else accepted admitted
]

-- `record.generation.calls--` or `record.generation.custody--`.
abbrev pub uncount : LeaseKind → GenerationRecord → GenerationRecord
uncount call r = record r { calls = r.calls - 1 }
uncount custodial r = record r { custody = r.custody - 1 }

abbrev pub uncount_in : LeaseKind → ℕ → List (ℕ × GenerationRecord) → List (ℕ × GenerationRecord)
uncount_in kind g gs = elim (lookup g gs) [ none ↦ gs | some r ↦ insert g (uncount kind r) gs ]

unfoldable pub release : Kernel → ℕ → Kernel × Result ReleaseOutcome
release k l = elim (lookup l k.leases) [
  | none ↦ (k, refused foreign_lease)
  | some lease ↦ if lease.released then (k, accepted already_released) else (
    record k {
      generations = uncount_in lease.kind lease.generation k.generations;
      leases = insert l (record lease { released = true }) k.leases;
    },
    accepted now_released,
  )
]

unfoldable pub finish_retirement : Kernel → ℕ → Kernel × Result Phase
finish_retirement k g = elim (lookup g k.generations) [
  | none ↦ (k, refused foreign_generation)
  | some r ↦
      if is_phase r.phase retired
      then (k, accepted retired)
      else if not (is_phase r.phase retiring)
      then (k, refused invalid_phase)
      else if not (r.calls == 0) || not (r.custody == 0)
      then (k, refused retained_work)
      else (set_generation k g (record r { phase = retired }), accepted retired)
]

unfoldable pub snapshot : Kernel → ℕ → Result GenerationRecord
snapshot k g = elim (lookup g k.generations) [
  | none ↦ refused foreign_generation
  | some r ↦ accepted r
]
