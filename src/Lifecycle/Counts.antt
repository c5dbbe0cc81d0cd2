-- ===== src/Lifecycle/Counts.antt =====
-- The counters of a generation record and the number of its open leases
-- (packages/lifecycle-kernel/src/features/lifecycle/kernel.ts).
use get_modular.Base.{
  ℕ, suc, ◌+◌, ◌≤◌, ◌≡◌, ◌≢◌, true, false, if◌then◌else◌, none, some, arith, lookup, insert,
  lookup-insert, Bool-cases, Option-cases, inl, inr, total-insert, weight_of, number_key, ◌==◌,
  IsMap, insert-IsMap,
}
use get_modular.Lifecycle.Kernel.{
  Kernel, LeaseRecord, LeaseKind, call, custodial, GenerationRecord, retired, active, staged,
  quiescing, retiring, activate, open_lease, quiesce, resume, retire, finish_retirement, begin_call,
  retain_custody, stage, release, uncount, uncount_in, set_generation,
}
use get_modular.Lifecycle.Trace.{open_weight, open_leases}

abbrev pub counter : LeaseKind → GenerationRecord → ℕ
counter call r = r.calls
counter custodial r = r.custody

pub record Inv (k : Kernel) : Type 0 where
  pub fresh_generation : (g : ℕ) → k.next_object ≤ g → lookup g k.generations ≡ none
  pub distinct : IsMap k.leases
  pub fresh_lease : (l : ℕ) → k.next_object ≤ l → lookup l k.leases ≡ none
  pub counted :
      (kind : LeaseKind) (g : ℕ)
      → open_leases kind g k ≡ weight_of (counter kind) (lookup g k.generations)
  pub retired_idle :
      (g : ℕ) (r : GenerationRecord)
      → lookup g k.generations ≡ some r
      → r.phase ≡ retired
      → (r.calls ≡ 0) × (r.custody ≡ 0)

abbrev new_lease : LeaseKind → ℕ → LeaseRecord
new_lease kind g = record { kind = kind; generation = g; released = false }

abbrev recount : LeaseKind → GenerationRecord → GenerationRecord
recount call r = record r { calls = r.calls + 1 }
recount custodial r = record r { custody = r.custody + 1 }

abbrev fresh_record : GenerationRecord
fresh_record = record { phase = staged; calls = 0; custody = 0 }

module _ (k : Kernel) (h : Inv k) where
  open k use {generations, leases}

  -- A write of one generation record that keeps its counters, and retires it only when they are 0.
  set_generation-Inv :
      (g : ℕ) (r s : GenerationRecord)
      → lookup g generations ≡ some r
      → s.calls ≡ r.calls
      → s.custody ≡ r.custody
      → (s.phase ≡ retired → (s.calls ≡ 0) × (s.custody ≡ 0))
      → Inv (set_generation k g s)
  set_generation-Inv g r s e c d idle = record {
    fresh_generation =
        λ j le. ground (arith, lookup-insert g j s generations, h.fresh_generation j);
    distinct = h.distinct;
    fresh_lease = h.fresh_lease;
    counted = λ kind j. ground (arith, lookup-insert g j s generations, h.counted kind j);
    retired_idle = λ j t f p. ground (arith, lookup-insert g j s generations, h.retired_idle j t);
  }

  -- A new open lease, with the counter of its kind one higher.
  open_lease-Inv :
      (kind : LeaseKind) (g : ℕ) (r : GenerationRecord)
      → lookup g generations ≡ some r
      → r.phase ≢ retired
      → Inv (open_lease k kind g (recount kind r))
  open_lease-Inv kind g r e p = record {
    fresh_generation = λ j le.
        ground (arith, lookup-insert g j (recount kind r) generations, h.fresh_generation j);
    distinct = insert-IsMap k.next_object (new_lease kind g) leases h.distinct;
    fresh_lease = λ j le.
        ground (arith, lookup-insert k.next_object j (new_lease kind g) leases, h.fresh_lease j);
    counted = λ kind' j. ground (
      arith,
      lookup-insert g j (recount kind r) generations,
      total-insert (open_weight kind' j) k.next_object (new_lease kind g) leases,
      h.fresh_lease k.next_object,
      h.counted kind' j,
    );
    retired_idle = λ j t f q.
        ground (arith, lookup-insert g j (recount kind r) generations, h.retired_idle j t, p);
  }

  pub activate-Inv : (g : ℕ) → Inv (activate k g).0
  unfolding activate
  activate-Inv g = elim (Option-cases (lookup g generations)) [
    | inl e ↦ rw (e, activate) h
    | inr (r, e) ↦
        rw (e, activate) (ground (arith, set_generation-Inv g r (record r { phase = active }) e))
  ]

  pub quiesce-Inv : (g : ℕ) → Inv (quiesce k g).0
  unfolding quiesce
  quiesce-Inv g = elim (Option-cases (lookup g generations)) [
    | inl e ↦ rw (e, quiesce) h
    | inr (r, e) ↦
        rw (e, quiesce) (ground (arith, set_generation-Inv g r (record r { phase = quiescing }) e))
  ]

  pub resume-Inv : (g : ℕ) → Inv (resume k g).0
  unfolding resume
  resume-Inv g = elim (Option-cases (lookup g generations)) [
    | inl e ↦ rw (e, resume) h
    | inr (r, e) ↦
        rw (e, resume) (ground (arith, set_generation-Inv g r (record r { phase = active }) e))
  ]

  pub retire-Inv : (g : ℕ) → Inv (retire k g).0
  unfolding retire
  retire-Inv g = elim (Option-cases (lookup g generations)) [
    | inl e ↦ rw (e, retire) h
    | inr (r, e) ↦
        rw (e, retire) (ground (arith, set_generation-Inv g r (record r { phase = retiring }) e))
  ]

  pub finish_retirement-Inv : (g : ℕ) → Inv (finish_retirement k g).0
  unfolding finish_retirement
  finish_retirement-Inv g = elim (Option-cases (lookup g generations)) [
    | inl e ↦ rw (e, finish_retirement) h
    | inr (r, e) ↦
        rw (e, finish_retirement)
          (ground (arith, set_generation-Inv g r (record r { phase = retired }) e))
  ]

  pub begin_call-Inv : (g : ℕ) → Inv (begin_call k g).0
  unfolding begin_call
  begin_call-Inv g = elim (Option-cases (lookup g generations)) [
    | inl e ↦ rw (e, begin_call) h
    | inr (r, e) ↦ rw (e, begin_call) (ground (arith, open_lease-Inv call g r e))
  ]

  pub retain_custody-Inv : (g : ℕ) → Inv (retain_custody k g).0
  unfolding retain_custody
  retain_custody-Inv g = elim (Option-cases (lookup g generations)) [
    | inl e ↦ rw (e, retain_custody) h
    | inr (r, e) ↦ rw (e, retain_custody) (ground (arith, open_lease-Inv custodial g r e))
  ]

  pub stage-Inv : Inv (stage k).0
  unfolding stage
  stage-Inv = record {
    fresh_generation = λ j le. ground (arith, here j, h.fresh_generation j);
    distinct = h.distinct;
    fresh_lease = λ j le. h.fresh_lease j (omega arith);
    counted = λ kind j. ground (arith, here j, h.counted kind j, h.fresh_generation k.next_object);
    retired_idle = λ j r e p. ground (arith, here j, h.retired_idle j r);
  }
    where
      here :
          (j : ℕ)
          → lookup j (insert k.next_object fresh_record generations)
            ≡ (if k.next_object == j then some fresh_record else lookup j generations)
      here j = lookup-insert k.next_object j fresh_record generations

  pub elsewhere-Inv : Inv (record k { next_object = suc k.next_object })
  elsewhere-Inv = record {
    fresh_generation = λ j le. h.fresh_generation j (omega arith);
    distinct = h.distinct;
    fresh_lease = λ j le. h.fresh_lease j (omega arith);
    counted = h.counted;
    retired_idle = h.retired_idle;
  }

  module _ (l : ℕ) (lease : LeaseRecord) (e : lookup l leases ≡ some lease) where
    open lease use {kind, generation}

    closed : LeaseRecord
    closed = record lease { released = true }

    -- An open lease is counted by its generation's record.
    pub open_lease-counted :
        lease.released ≡ false
        → (r : GenerationRecord) × (lookup generation generations ≡ some r) × (1 ≤ counter kind r)
    unfolding closed
    open_lease-counted o = elim (Option-cases (lookup generation generations)) [
      | inl f ↦ absurd (
          ground (
            arith,
            total-insert (open_weight kind generation) l closed leases,
            h.counted kind generation,
          ))
      | inr (r, f) ↦ (
        r,
        f,
        ground (
          arith,
          total-insert (open_weight kind generation) l closed leases,
          h.counted kind generation,
        ),
      )
    ]

    release-Inv_open :
        (r : GenerationRecord)
        → lookup generation generations ≡ some r
        → lease.released ≡ false
        → 1 ≤ counter kind r
        → Inv (record k {
          generations = insert generation (uncount kind r) generations;
          leases = insert l closed leases;
        })
    unfolding closed
    release-Inv_open r f o c = record {
      fresh_generation = λ j le.
          ground
            (arith, lookup-insert generation j (uncount kind r) generations, h.fresh_generation j);
      distinct = insert-IsMap l closed leases h.distinct;
      fresh_lease = λ j le. ground (arith, lookup-insert l j closed leases, h.fresh_lease j);
      counted = λ kind' j. ground (
        arith,
        lookup-insert generation j (uncount kind r) generations,
        total-insert (open_weight kind' j) l closed leases,
        h.counted kind' j,
      );
      retired_idle = λ j t q p. ground (
        arith,
        lookup-insert generation j (uncount kind r) generations,
        h.retired_idle j t,
        h.retired_idle generation r,
      );
    }

  pub release-Inv : (l : ℕ) → Inv (release k l).0
  unfolding release closed
  release-Inv l = elim (Option-cases (lookup l leases)) [
    | inl e ↦ rw (e, release) h
    | inr (lease, e) ↦
        rw (e, release)
          (elim (Bool-cases lease.released) [
            | inl p ↦ rw p h
            | inr p ↦
                let (r, f, c) = open_lease-counted l lease e p in
                rw (p, f, uncount_in) (release-Inv_open l lease e r f p c)
          ])
  ]
