-- ===== src/Observation/Loads.antt =====
-- `LoadRegistration` of packages/observation/src/features/store/load.ts, less its calls of the host. The
-- engine's part of a registration is that of a watch. A run of the loader is what happens between
-- `start` and `settle`; `-1` is `none`; the callback of an offer is whether it detaches the load.
use get_modular.Base.{
  ℕ, ◌+◌, ◌-◌, Option, none, some, Bool, true, false, not, ◌&&◌, ◌||◌, ◌==◌, number_key, leb,
  if◌then◌else◌,
}

pub record Job : Type 0 where
  pub revision : ℕ
  pub depth : ℕ

-- The run that is active, with the state of its abort controller.
pub record Active : Type 0 where
  pub revision : ℕ
  pub aborted : Bool

-- The fields of a load, its depth, and the counters that it changes, where `loads` is `pending.loads`.
pub record Load : Type 0 where
  pub attached : Bool
  pub depth : ℕ
  pub last_offered : Option ℕ
  pub delivered : Option ℕ
  pub pending : Option Job
  pub active : Option Active
  pub deliveries : ℕ
  pub loader_calls : ℕ
  pub loads_active : ℕ
  pub loads_pending : ℕ
  pub loads : ℕ

-- `revision <= last`
abbrev pub not_above : ℕ → Option ℕ → Bool
not_above revision none = false
not_above revision (some last) = leb revision last

abbrev pub with_aborted : Option Active → Option Active
with_aborted none = none
with_aborted (some run) = some (record run { aborted = true })

abbrev pub is_some {ℓ} : {A : Type ℓ} → Option A → Bool
is_some none = false
is_some (some a) = true

-- `clearPending`, whose result is the job that was pending.
unfoldable pub clear_pending : Load → Load
clear_pending s =
    if is_some s.pending
    then record s { pending = none; loads_pending = s.loads_pending - 1; loads = s.loads - 1 }
    else s

unfoldable pub abort : Load → Load
abort s = record s { active = with_aborted s.active }

unfoldable pub detach_load : Load → Load
unfolding clear_pending abort
detach_load s = if not s.attached then s else abort (clear_pending (record s { attached = false }))

unfoldable pub start : Job → Load → Load
start job s = record s {
  loads_active = s.loads_active + 1;
  loads = s.loads + 1;
  active = some (record { revision = job.revision; aborted = false });
}

-- `isCurrent` of the active run, at the latest revision of the keys.
unfoldable pub is_current : ℕ → Active → Load → Bool
is_current latest run s =
    s.attached
    && not run.aborted
    && (elim s.last_offered [ none ↦ false | some last ↦ run.revision == last ])
    && run.revision == latest

-- `run` after its first wait: the loader is called only for a run that is current.
abbrev pub run_active : ℕ → Option Active → Load → Load
run_active latest none s = s
run_active latest (some run) s =
    if is_current latest run s then record s { loader_calls = s.loader_calls + 1 } else s

-- The end of a run, which starts the job that is pending.
abbrev pub start_next : Option Job → Load → Load
start_next none s = s
start_next (some job) s = if s.attached then start job s else s

unfoldable pub settle : Load → Load
unfolding clear_pending start
settle s =
    let ended : Load = record s {
      loads_active = s.loads_active - 1;
      loads = s.loads - 1;
      active = none;
    } in
    start_next s.pending (clear_pending ended)

-- `offer` after its callback.
unfoldable pub take_job : Job → Load → Load
unfolding start abort
take_job job s =
    if not s.attached
    then s
    else if not (is_some s.active)
    then start job s
    else let counted : Load =
        if is_some s.pending
        then s
        else record s { loads_pending = s.loads_pending + 1; loads = s.loads + 1 } in
      abort (record counted { pending = some job })

unfoldable pub offer : Job → Bool → Load → Load
unfolding detach_load take_job
offer job detaches s =
    if not s.attached || not_above job.revision s.last_offered
    then s
    else let offered : Load = record s { last_offered = some job.revision } in
      take_job job (if detaches then detach_load offered else offered)

-- `flush`, at the latest revision of the keys.
unfoldable pub flush_load : ℕ → Bool → Load → Load
unfolding offer
flush_load latest detaches s =
    if not s.attached
    then s
    else if not_above latest s.delivered
    then record s { depth = 0 }
    else offer (record { revision = latest; depth = s.depth }) detaches
        (record s { depth = 0; delivered = some latest; deliveries = s.deliveries + 1 })
