-- ===== src/Observation/Reach.antt =====
-- The states that the calls of an engine reach
-- (packages/observation/src/features/store/engine.ts: `attach`, `unlink`, `markDirty`, `set`,
-- `#flush`, `close`).
use get_modular.Base.{
  ℕ, ◌≡◌, refl, List, [], Option, none, some, true, false, arith, number_key, text_key, Text,
  lookup, Key,
}
use get_modular.Base.Outcome.{done}
use get_modular.Observation.Engine.{
  Registration, StoreEngine, DeliveryContext, attach, unlink, mark_dirty, close, set_entries,
}
use get_modular.Observation.Watches.{Watched, begin_flush, flush_next}
use get_modular.Observation.Index.{IsIndexed, is_attached}
use get_modular.Observation.IndexedFlushes.{begin_flush-IsIndexed, flush_next-IsIndexed}
use get_modular.Observation.Writes.{
  attach-IsIndexed, unlink-IsIndexed, mark_dirty-IsIndexed, set_entries-IsIndexed, close-IsIndexed,
}

module _ {V : Type 0} ⦃same : Key V⦄ where
  -- The engine that the constructor makes of the captured entries.
  abbrev pub new_engine : List (Text × V) → StoreEngine V
  new_engine entries = record {
    values = entries;
    last_touched = [];
    latest_revision_at_depth = [];
    last_write_cause = [];
    buckets = [];
    registrations = [];
    dirty = [];
    names_by_scope = [];
    sequence = 0;
    closed = false;
    flush_scheduled = false;
    commits = 0;
    visits = 0;
    index_lookups = 0;
    walked = 0;
  }

  -- The calls that change the state, each as its callers make it: a registration is attached under an
  -- id that is not attached, and unlinked or marked while it is attached. A flush begins, and goes on by
  -- rounds, with any batch and any record of deliveries.
  pub data Reaches : StoreEngine V → Type 0 where
    starts : (entries : List (Text × V)) → Reaches (new_engine entries)
    attaches :
        {e : StoreEngine V} (id : ℕ) (r : Registration)
        → Reaches e
        → lookup id e.registrations ≡ none
        → Reaches (attach id r e)
    unlinks :
        {e : StoreEngine V} (id : ℕ) (r : Registration)
        → Reaches e
        → lookup id e.registrations ≡ some r
        → Reaches (unlink id r e)
    marks :
        {e : StoreEngine V} (id : ℕ)
        → Reaches e
        → is_attached e.registrations id ≡ true
        → Reaches (mark_dirty id e)
    sets :
        {e after : StoreEngine V} (entries : List (Text × V)) (nodes : ℕ)
        (context : Option DeliveryContext) (revision : ℕ)
        → Reaches e
        → set_entries entries nodes context e ≡ done (after, revision)
        → Reaches after
    begins : (s : Watched V) → Reaches s.engine → Reaches (begin_flush s).engine
    rounds : (s : Watched V) → Reaches s.engine → Reaches (flush_next s).engine
    closes : {e : StoreEngine V} → Reaches e → Reaches (close e)

  pub Reaches-IsIndexed : {e : StoreEngine V} → Reaches e → IsIndexed e
  Reaches-IsIndexed (starts entries) = record {
    indexed = λ key id. refl;
    dirty_attached = λ id h. cc (h);
    touched = λ key. omega arith;
  }
  Reaches-IsIndexed (attaches id r before fresh) =
      attach-IsIndexed id r _ (Reaches-IsIndexed before) fresh
  Reaches-IsIndexed (unlinks id r before there) =
      unlink-IsIndexed id r _ (Reaches-IsIndexed before) there
  Reaches-IsIndexed (marks id before there) =
      mark_dirty-IsIndexed id _ (Reaches-IsIndexed before) there
  Reaches-IsIndexed (sets entries nodes context revision before h) =
      set_entries-IsIndexed entries nodes context _ _ revision (Reaches-IsIndexed before) h
  Reaches-IsIndexed (begins s before) = begin_flush-IsIndexed s (Reaches-IsIndexed before)
  Reaches-IsIndexed (rounds s before) = flush_next-IsIndexed s (Reaches-IsIndexed before)
  Reaches-IsIndexed (closes before) = close-IsIndexed _ (Reaches-IsIndexed before)
