-- ===== src/Lifecycle/Examples.antt =====
-- Concrete runs of the lifecycle kernel.
use get_modular.Base.{
  suc, ◌≡◌, ◌⊎◌, ◌↔◌, refl, inl, List, [], ◌∷◌, some, false, number_key, lookup, keys,
}
use get_modular.Lifecycle.Kernel.{
  Kernel, GenerationRecord, LeaseRecord, call, custodial, active, retiring, retired,
  create_lifecycle_kernel, retire, release, begin_call, quiesce, check_call, finish_retirement,
  accepted, refused, admitted, revoked, released_lease, invalid_phase, now_released, uncount,
}
use get_modular.Lifecycle.Trace.{
  Op, stages, activates, begins, retains, resumes, retires, releases, step, run, open_leases,
}
use get_modular.Lifecycle.Counts.{Inv, counter}
use get_modular.Lifecycle.Theorems.{run-Inv, finish_retirement_iff, release-exact}
use get_modular.Lifecycle.Phases.{Moves, step-Moves, IsWithdrawn, run-IsWithdrawn}
use get_modular.Lifecycle.Revocation.{retire_revokes, begin_call-check_call}
use get_modular.Lifecycle.Drain.{release_all, release_all-finish_retirement}
use get_modular.Lifecycle.Refusals.{refusal, refused_unchanged}

-- Generation 0 is active, with the call lease 1 and the custody lease 2.
abbrev history : List Op
history = stages ∷ activates 0 ∷ begins 0 ∷ retains 0 ∷ []

abbrev busy : Kernel
busy = record {
  next_object = 3;
  generations = (0, record { phase = active; calls = 1; custody = 1 }) ∷ [];
  leases =
      (1, record { kind = call; generation = 0; released = false })
      ∷ (2, record { kind = custodial; generation = 0; released = false })
      ∷ [];
}

history-busy : run (create_lifecycle_kernel 0) history ≡ busy
unfolding run step create_lifecycle_kernel
history-busy = refl

busy-Inv : Inv busy
unfolding run step create_lifecycle_kernel
busy-Inv = run-Inv 0 history

abbrev closing : Kernel
closing = record busy {
  generations = (0, record { phase = retiring; calls = 1; custody = 1 }) ∷ [];
}

closing-Inv : Inv closing
unfolding run step create_lifecycle_kernel
closing-Inv = run-Inv 0 (stages ∷ activates 0 ∷ begins 0 ∷ retains 0 ∷ retires 0 ∷ [])

abbrev call_lease : LeaseRecord
call_lease = record { kind = call; generation = 0; released = false }

abbrev active_record : GenerationRecord
active_record = record { phase = active; calls = 1; custody = 1 }

abbrev retiring_record : GenerationRecord
retiring_record = record { phase = retiring; calls = 1; custody = 1 }

run-Inv_example : Inv (run (create_lifecycle_kernel 0) history)
run-Inv_example = run-Inv 0 history

finish_retirement_iff_example :
    ((finish_retirement closing 0).1 ≡ accepted retired)
    ↔ ((open_leases call 0 closing ≡ 0) × (open_leases custodial 0 closing ≡ 0))
finish_retirement_iff_example =
    finish_retirement_iff closing 0 retiring_record closing-Inv refl refl

release-exact_example :
    (r : GenerationRecord) × (lookup 0 busy.generations ≡ some r)
    × (suc (counter call (uncount call r)) ≡ counter call r)
    × (lookup 0 (release busy 1).0.generations ≡ some (uncount call r))
    × ((release busy 1).1 ≡ accepted now_released)
release-exact_example = release-exact busy 1 call_lease busy-Inv refl refl

step-Moves_example : Moves active (lookup 0 (step busy (retires 0)).generations)
step-Moves_example = step-Moves busy (retires 0) 0 active_record busy-Inv refl

run-IsWithdrawn_example :
    IsWithdrawn (lookup 0 (run closing (activates 0 ∷ releases 1 ∷ [])).generations)
run-IsWithdrawn_example =
    run-IsWithdrawn closing (activates 0 ∷ releases 1 ∷ []) 0 closing-Inv (inl refl)

retire_revokes_example :
    (check_call (run (retire busy 0).0 (resumes 0 ∷ activates 0 ∷ [])) 1 ≡ refused released_lease)
    ⊎ (check_call (run (retire busy 0).0 (resumes 0 ∷ activates 0 ∷ [])) 1 ≡ refused revoked)
retire_revokes_example =
    retire_revokes busy 0 1 active_record call_lease (resumes 0 ∷ activates 0 ∷ []) busy-Inv refl
      refl refl refl

begin_call-check_call_example :
    (check_call (begin_call busy 0).0 3 ≡ accepted admitted)
    × (check_call (quiesce (begin_call busy 0).0 0).0 3 ≡ accepted admitted)
unfolding begin_call
begin_call-check_call_example = begin_call-check_call busy 0 3 busy-Inv refl

release_all-finish_retirement_example :
    (finish_retirement (release_all closing (keys closing.leases)) 0).1 ≡ accepted retired
release_all-finish_retirement_example =
    release_all-finish_retirement closing 0 retiring_record closing-Inv refl refl

refused_unchanged_example : step busy (activates 0) ≡ busy
unfolding refusal
refused_unchanged_example = refused_unchanged busy (activates 0) invalid_phase refl
