-- ===== src/Observation/LoadStates.antt =====
-- The states of a load (packages/observation/src/features/store/load.ts).
use get_modular.Base.{
  ℕ, ◌+◌, ◌≤◌, ◌≡◌, ◌⊎◌, refl, Option, none, some, Bool, true, false, not, ◌||◌, number_key,
  if◌then◌else◌, arith, inl, inr, Bool-cases, Option-cases, subst, sym,
}
use get_modular.Observation.Writes.{if-holds}
use get_modular.Observation.Loads.{
  Job, Active, Load, not_above, is_some, clear_pending, abort, detach_load, start, is_current,
  run_active, settle, take_job, offer, flush_load,
}

abbrev pub count_of : Bool → ℕ
count_of false = 0
count_of true = 1

-- What the fields of a load have to do with each other.
pub record IsLoad (s : Load) : Type 0 where
  pub active_count : s.loads_active ≡ count_of (is_some s.active)
  pub pending_count : s.loads_pending ≡ count_of (is_some s.pending)
  pub load_count : s.loads ≡ count_of (is_some s.active) + count_of (is_some s.pending)
  pub waits : is_some s.pending ≡ true → is_some s.active ≡ true
  pub newest_job : (job : Job) → s.pending ≡ some job → s.last_offered ≡ some job.revision
  pub newest_run :
      (run : Active)
      → s.attached ≡ true
      → s.active ≡ some run
      → run.aborted ≡ false
      → s.last_offered ≡ some run.revision
  pub replaced :
      (run : Active)
      → s.attached ≡ true
      → s.active ≡ some run
      → run.aborted ≡ true
      → is_some s.pending ≡ true
  pub no_job : s.attached ≡ false → is_some s.pending ≡ false
  pub run_aborted : (run : Active) → s.attached ≡ false → s.active ≡ some run → run.aborted ≡ true

detach_load-IsLoad : (s : Load) → IsLoad s → IsLoad (detach_load s)
unfolding detach_load clear_pending abort
detach_load-IsLoad s i = record {
  active_count = ground (arith, i.active_count);
  pending_count = ground (arith, i.pending_count);
  load_count = ground (arith, i.load_count);
  waits = λ h. ground (arith, h, i.waits);
  newest_job = λ job h. ground (arith, h, i.newest_job job);
  newest_run = λ run h h' h''. ground (arith, h, h', h'', i.newest_run run);
  replaced = λ run h h' h''. ground (arith, h, h', h'', i.replaced run);
  no_job = λ h. ground (arith, h, i.no_job);
  run_aborted = λ run h h'. ground (arith, h, h', i.run_aborted run);
}

-- A load that is detached while a job is offered.
detach_offered-IsLoad :
    (s : Load) (last : Option ℕ)
    → s.attached ≡ true
    → IsLoad s
    → IsLoad (detach_load (record s { last_offered = last }))
unfolding detach_load clear_pending abort
detach_offered-IsLoad s last here i = record {
  active_count = ground (arith, here, i.active_count);
  pending_count = ground (arith, here, i.pending_count);
  load_count = ground (arith, here, i.load_count);
  waits = λ h. ground (arith, here, h, i.waits);
  newest_job = λ job h. ground (arith, here, h);
  newest_run = λ run h h' h''. ground (arith, here, h);
  replaced = λ run h h' h''. ground (arith, here, h);
  no_job = λ h. ground (arith, here, h);
  run_aborted = λ run h h'. ground (arith, here, h, h');
}

take_job-IsLoad :
    (job : Job) (s : Load)
    → s.attached ≡ true
    → IsLoad s
    → IsLoad (take_job job (record s { last_offered = some job.revision }))
unfolding take_job start abort
take_job-IsLoad job s here i = record {
  active_count = ground (arith, here, i.active_count);
  pending_count = ground (arith, here, i.pending_count, i.waits);
  load_count = ground (arith, here, i.load_count, i.waits);
  waits = λ h. ground (arith, here, h, i.waits);
  newest_job = λ job' h. ground (arith, here, h, i.waits);
  newest_run = λ run h h' h''. ground (arith, here, h', h'');
  replaced = λ run h h' h''. ground (arith, here, h', h'');
  no_job = λ h. ground (arith, here, h);
  run_aborted = λ run h h'. ground (arith, here, h, h');
}

settle-IsLoad : (s : Load) → IsLoad s → is_some s.active ≡ true → IsLoad (settle s)
unfolding settle clear_pending start
settle-IsLoad s i running = record {
  active_count = ground (arith, running, i.active_count, i.no_job);
  pending_count = ground (arith, running, i.pending_count, i.no_job);
  load_count = ground (arith, running, i.load_count, i.no_job);
  waits = λ h. ground (arith, running, h, i.no_job);
  newest_job = λ job h. ground (arith, running, h, i.no_job);
  newest_run = λ run h h' h''. elim (Option-cases s.pending) [
    | inl e ↦ absurd (ground (arith, e, h'))
    | inr (job, e) ↦ ground (arith, e, h, h', i.newest_job job e)
  ];
  replaced = λ run h h' h''. ground (arith, running, h, h', h'');
  no_job = λ h. ground (arith, running, h, i.no_job);
  run_aborted = λ run h h'. ground (arith, running, h, h', i.no_job);
}

take_job-gone : (job : Job) (s : Load) → s.attached ≡ false → take_job job s ≡ s
unfolding take_job
take_job-gone job s gone = rw (gone, take_job) refl

detach_load-attached : (s : Load) → (detach_load s).attached ≡ false
unfolding detach_load clear_pending abort
detach_load-attached s = ground arith

offer-IsLoad : (job : Job) (detaches : Bool) (s : Load) → IsLoad s → IsLoad (offer job detaches s)
unfolding offer
offer-IsLoad job detaches s i =
    by_test (not s.attached || not_above job.revision s.last_offered) detaches refl
  where
    by_test :
        (t detaches : Bool)
        → (not s.attached || not_above job.revision s.last_offered) ≡ t
        → IsLoad (
            if t
            then s
            else let offered : Load = record s { last_offered = some job.revision } in
              take_job job (if detaches then detach_load offered else offered))
    by_test true detaches h = i
    by_test false false h = take_job-IsLoad job s (ground (arith, h)) i
    by_test false true h =
        let here : s.attached ≡ true = ground (arith, h) in
        subst IsLoad
          (sym (
            take_job-gone job _
              (detach_load-attached (record s { last_offered = some job.revision }))))
          (detach_offered-IsLoad s (some job.revision) here i)

-- The depth, what was delivered and the other counters do not matter.
kept :
    (depth : ℕ) (delivered : Option ℕ) (deliveries loader_calls : ℕ) (s : Load)
    → IsLoad s
    → IsLoad (record s {
      depth = depth;
      delivered = delivered;
      deliveries = deliveries;
      loader_calls = loader_calls;
    })
kept depth delivered deliveries loader_calls s i = record {
  active_count = i.active_count;
  pending_count = i.pending_count;
  load_count = i.load_count;
  waits = i.waits;
  newest_job = i.newest_job;
  newest_run = i.newest_run;
  replaced = i.replaced;
  no_job = i.no_job;
  run_aborted = i.run_aborted;
}

run_active-IsLoad :
    (latest : ℕ) (run : Option Active) (s : Load) → IsLoad s → IsLoad (run_active latest run s)
run_active-IsLoad latest none s i = i
run_active-IsLoad latest (some run) s i =
    if-holds IsLoad (is_current latest run s) _ s
      (kept s.depth s.delivered s.deliveries (s.loader_calls + 1) s i) i

flush_load-IsLoad :
    (latest : ℕ) (detaches : Bool) (s : Load) → IsLoad s → IsLoad (flush_load latest detaches s)
unfolding flush_load
flush_load-IsLoad latest detaches s i = if-holds IsLoad (not s.attached) s _ i (
    if-holds IsLoad (not_above latest s.delivered) _ _
      (kept 0 s.delivered s.deliveries s.loader_calls s i)
      (offer-IsLoad _ detaches _ (kept 0 (some latest) (s.deliveries + 1) s.loader_calls s i)))

-- The states that the calls of a load reach, at the latest revision of its keys. The counters are the
-- load's share of those of the engine.
abbrev pub new_load : ℕ → Load
new_load depth = record {
  attached = true;
  depth = depth;
  last_offered = none;
  delivered = none;
  pending = none;
  active = none;
  deliveries = 0;
  loader_calls = 0;
  loads_active = 0;
  loads_pending = 0;
  loads = 0;
}

pub data LoadReaches : ℕ → Load → Type 0 where
  creates : (latest depth : ℕ) → LoadReaches latest (new_load depth)
  commits :
      {latest later : ℕ} {s : Load} → LoadReaches latest s → latest ≤ later → LoadReaches later s
  flushes :
      {latest : ℕ} {s : Load} (detaches : Bool)
      → LoadReaches latest s
      → LoadReaches latest (flush_load latest detaches s)
  runs :
      {latest : ℕ} {s : Load}
      → LoadReaches latest s
      → LoadReaches latest (run_active latest s.active s)
  settles :
      {latest : ℕ} {s : Load}
      → LoadReaches latest s
      → is_some s.active ≡ true
      → LoadReaches latest (settle s)
  detaches : {latest : ℕ} {s : Load} → LoadReaches latest s → LoadReaches latest (detach_load s)

-- In every state that the calls of a load reach, at most one run is active and one job waits, which the
-- counters say. A job waits only for a run, and has the last revision that was offered. The run of an
-- attached load has that revision too, or it is aborted and a job waits. A detached load has no job, and
-- its run is aborted.
pub LoadReaches-IsLoad : {latest : ℕ} {s : Load} → LoadReaches latest s → IsLoad s
LoadReaches-IsLoad (creates latest depth) = record {
  active_count = refl;
  pending_count = refl;
  load_count = refl;
  waits = λ h. cc (h);
  newest_job = λ job h. absurd (cc (h));
  newest_run = λ run h h' h''. absurd (cc (h'));
  replaced = λ run h h' h''. absurd (cc (h'));
  no_job = λ h. refl;
  run_aborted = λ run h h'. absurd (cc (h'));
}
LoadReaches-IsLoad (commits r le) = LoadReaches-IsLoad r
LoadReaches-IsLoad (flushes detached r) = flush_load-IsLoad _ detached _ (LoadReaches-IsLoad r)
LoadReaches-IsLoad (runs r) = run_active-IsLoad _ _ _ (LoadReaches-IsLoad r)
LoadReaches-IsLoad (settles r running) = settle-IsLoad _ (LoadReaches-IsLoad r) running
LoadReaches-IsLoad (detaches r) = detach_load-IsLoad _ (LoadReaches-IsLoad r)

-- The run of an attached load has the last revision that was offered, or its end starts a run that has
-- this revision and is not aborted.
pub load_keeps_up :
    (latest : ℕ) (s : Load) (run : Active)
    → LoadReaches latest s
    → s.attached ≡ true
    → s.active ≡ some run
    → (s.last_offered ≡ some run.revision)
      ⊎ ((next : Active) × ((settle s).active ≡ some next)
          × (next.aborted ≡ false)
          × (s.last_offered ≡ some next.revision))
unfolding settle clear_pending start
load_keeps_up latest s run r here running =
    let i = LoadReaches-IsLoad r in
    elim (Bool-cases run.aborted) [
      | inr fresh ↦ inl (i.newest_run run here running fresh)
      | inl old ↦ elim (Option-cases s.pending) [
        | inl e ↦ absurd (ground (arith, e, i.replaced run here running old))
        | inr (job, e) ↦ inr (
          record { revision = job.revision; aborted = false },
          ground (arith, e, here),
          refl,
          i.newest_job job e,
        )
      ]
    ]
