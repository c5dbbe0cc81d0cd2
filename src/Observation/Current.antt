-- ===== src/Observation/Current.antt =====
-- The states of an engine with watches
-- (packages/observation/src/features/store/engine.ts, watch.ts, store.ts).
use get_modular.Base.{
  ℕ, ◌<◌, ◌≡◌, ◌⊎◌, refl, List, [], Option, some, Bool, true, false, arith, number_key, Text,
  contains, lookup, Key, inl, inr, Bool-cases, sym, subst, if◌then◌else◌,
}
use get_modular.Base.Outcome.{done, thrown, done_injective}
use get_modular.Observation.Engine.{
  Registration, StoreEngine, DeliveryContext, get_or, latest, set_entries, close, latest_from,
}
use get_modular.Observation.Reach.{new_engine}
use get_modular.Observation.Watches.{
  Limits, Spec, Watched, watch, subscribe, admit, detach, begin_flush, flush_next,
}
use get_modular.Observation.Delivery.{IsCurrent, keys_of, set_entries-IsCurrent}
use get_modular.Observation.Departures.{detach-IsCurrent, begin_flush-IsCurrent, close-IsCurrent}
use get_modular.Observation.Flushes.{flush_next-IsCurrent}
use get_modular.Observation.Subscriptions.{subscribe-IsCurrent}

module _ {V : Type 0} ⦃same : Key V⦄ where
  abbrev pub new_watched : List (Text × V) → Watched V
  new_watched entries = record {
    engine = new_engine entries;
    delivered = [];
    deliveries = 0;
    batch = [];
  }

  -- The calls on the store, its scopes and its scheduler. A flush begins only when one is scheduled,
  -- and the scheduler runs it to its end before the next one; a callback is the calls between two
  -- rounds of the flush.
  pub data WatchReaches : Watched V → Type 0 where
    creates : (entries : List (Text × V)) → WatchReaches (new_watched entries)
    watches :
        {s after : Watched V} (limits : Limits) (spec : Spec)
        → WatchReaches s
        → watch limits spec s ≡ done after
        → WatchReaches after
    writes :
        {s : Watched V} {after : StoreEngine V} (entries : List (Text × V)) (nodes : ℕ)
        (context : Option DeliveryContext) (revision : ℕ)
        → WatchReaches s
        → set_entries entries nodes context s.engine ≡ done (after, revision)
        → WatchReaches (record s { engine = after })
    detaches :
        {s : Watched V} (id : ℕ)
        → WatchReaches s
        → WatchReaches (record s { engine = detach id s.engine })
    begins :
        {s : Watched V}
        → WatchReaches s
        → s.engine.flush_scheduled ≡ true
        → s.batch ≡ []
        → WatchReaches (begin_flush s)
    flushes : {s : Watched V} → WatchReaches s → WatchReaches (flush_next s)
    shuts : {s : Watched V} → WatchReaches s → WatchReaches (record s { engine = close s.engine })

  watch-IsCurrent :
      (limits : Limits) (spec : Spec) (s after : Watched V)
      → IsCurrent s
      → watch limits spec s ≡ done after
      → IsCurrent after
  unfolding watch
  watch-IsCurrent limits spec s after c h = by_admission (admit limits spec s.engine) h
    where
      by_admission :
          (t : Bool)
          → (if t then done (subscribe spec s) else thrown) ≡ done after
          → IsCurrent after
      by_admission true h = subst IsCurrent (done_injective _ _ h) (subscribe-IsCurrent spec s c)
      by_admission false h = absurd (cc (h))

  new_watched-IsCurrent : (entries : List (Text × V)) → IsCurrent (new_watched entries)
  unfolding latest latest_from
  new_watched-IsCurrent entries = record {
    indexed = record {
      indexed = λ key id. refl;
      dirty_attached = λ id h. cc (h);
      touched = λ key. omega arith;
    };
    numbered = λ id h. cc (h);
    scheduled = λ id h d. cc (d);
    current = λ id h late. absurd (omega (arith, late));
  }

  pub WatchReaches-IsCurrent : {s : Watched V} → WatchReaches s → IsCurrent s
  WatchReaches-IsCurrent (creates entries) = new_watched-IsCurrent entries
  WatchReaches-IsCurrent (watches limits spec r h) =
      watch-IsCurrent limits spec _ _ (WatchReaches-IsCurrent r) h
  WatchReaches-IsCurrent (writes entries nodes context revision r h) =
      set_entries-IsCurrent entries nodes context _ _ revision (WatchReaches-IsCurrent r) h
  WatchReaches-IsCurrent (detaches id r) = detach-IsCurrent id _ (WatchReaches-IsCurrent r)
  WatchReaches-IsCurrent (begins r flag empty) =
      begin_flush-IsCurrent _ (WatchReaches-IsCurrent r) empty
  WatchReaches-IsCurrent (flushes r) = flush_next-IsCurrent _ (WatchReaches-IsCurrent r)
  WatchReaches-IsCurrent (shuts r) = close-IsCurrent _ (WatchReaches-IsCurrent r)

  -- In every state that the calls reach, and while the engine is not closed, an attached watch that has
  -- not delivered the latest revision of its keys is still in the batch that is flushed, or it is dirty
  -- and a flush is scheduled.
  pub watch_misses_nothing :
      (s : Watched V) (id : ℕ) (r : Registration)
      → WatchReaches s
      → s.engine.closed ≡ false
      → lookup id s.engine.registrations ≡ some r
      → get_or 0 id s.delivered < latest s.engine r.keys
      → (contains s.batch id ≡ true)
        ⊎ ((contains s.engine.dirty id ≡ true) × (s.engine.flush_scheduled ≡ true))
  watch_misses_nothing s id r reached ready e late =
      let c = WatchReaches-IsCurrent reached in
      let keys : keys_of s.engine.registrations id ≡ r.keys = ground (arith, e) in
      let owed = c.current id ready (
        subst (λ (ks : List Text). get_or 0 id s.delivered < latest s.engine ks) (sym keys) late) in
      elim (Bool-cases (contains s.batch id)) [
        | inl waiting ↦ inl waiting
        | inr absent ↦
            let dirty : contains s.engine.dirty id ≡ true = ground (arith, owed, absent) in
            inr (dirty, c.scheduled id ready dirty)
      ]
