-- ===== src/Observation/Watches.antt =====
-- Watches on an engine: packages/observation/src/features/store/watch.ts, admission.ts and the flush of
-- engine.ts, less the calls of the host. A callback of a watch is the calls that come after its flush.
use get_modular.Base.{
  ℕ, ◌+◌, List, [], ◌∷◌, Option, none, some, Bool, false, not, ◌&&◌, number_key, text_key, ltb, leb,
  eqb, if◌then◌else◌, Text, length, contains, lookup, insert, sort,
}
use get_modular.Base.Outcome.{Outcome, done, thrown}
use get_modular.Observation.Engine.{
  Registration, StoreEngine, get_or, attach, unlink, mark_dirty, latest, missed_depth, next_id,
}

-- `EngineOptions`, as far as admission reads it.
pub record Limits : Type 0 where
  pub max_subscriptions_per_scope : ℕ
  pub max_subscriptions : ℕ

-- The arguments of `admit`: the origin of the snapshot, the scope with its signal, and the name.
pub record Spec : Type 0 where
  pub keys : List Text
  pub revision : ℕ
  pub scope : ℕ
  pub aborted : Bool
  pub name : Text

-- An engine with its watches: what each has delivered, and the rest of the batch that is flushed.
pub record Watched (V : Type 0) : Type 0 where
  pub engine : StoreEngine V
  pub delivered : List (ℕ × ℕ)
  pub deliveries : ℕ
  pub batch : List ℕ

module _ {V : Type 0} where
  abbrev pub registration_of : StoreEngine V → ℕ → Option Registration
  registration_of e id = lookup id e.registrations

  unfoldable pub admit : Limits → Spec → StoreEngine V → Bool
  admit limits spec e =
      let names = get_or [] spec.scope e.names_by_scope in
      not e.closed
      && not (eqb (length spec.name) 0)
      && not spec.aborted
      && not (contains names spec.name)
      && ltb (length names) limits.max_subscriptions_per_scope
      && ltb (length e.registrations) limits.max_subscriptions

  -- `markDirty` in `subscribe`, for a write between the snapshot and the watch.
  unfoldable pub mark_missed : ℕ → Spec → StoreEngine V → StoreEngine V
  unfolding latest mark_dirty
  mark_missed id spec e = if ltb spec.revision (latest e spec.keys) then mark_dirty id e else e

  -- The constructor of the watch, and `subscribe`.
  unfoldable pub subscribe : Spec → Watched V → Watched V
  unfolding next_id missed_depth attach mark_missed
  subscribe spec s =
      let (numbered, id) = next_id s.engine in
      let watch : Registration = record {
        keys = spec.keys;
        name = spec.name;
        scope = spec.scope;
        depth = missed_depth numbered spec.keys spec.revision;
      } in
      record s {
        engine = mark_missed id spec (attach id watch numbered);
        delivered = insert id spec.revision s.delivered;
      }

  unfoldable pub watch : Limits → Spec → Watched V → Outcome (Watched V)
  unfolding admit subscribe
  watch limits spec s = if admit limits spec s.engine then done (subscribe spec s) else thrown

  -- `detach`: a watch is attached as long as the engine holds its registration.
  unfoldable pub detach : ℕ → StoreEngine V → StoreEngine V
  unfolding unlink
  detach id e = elim (lookup id e.registrations) [ none ↦ e | some r ↦ unlink id r e ]

  -- The engine's `#flush`, up to its loop.
  unfoldable pub begin_flush : Watched V → Watched V
  begin_flush s = record s {
    engine = record s.engine { flush_scheduled = false; dirty = [] };
    batch = sort ltb s.engine.dirty;
  }

  -- `this.depth = 0`
  abbrev pub rested : ℕ → Registration → StoreEngine V → StoreEngine V
  rested id r e = record e { registrations = insert id (record r { depth = 0 }) e.registrations }

  -- `flush` of a watch that is attached, up to its callback.
  unfoldable pub flush : ℕ → Registration → Watched V → Watched V
  unfolding latest
  flush id r s =
      let revision = latest s.engine r.keys in
      if leb revision (get_or 0 id s.delivered)
      then record s { engine = rested id r s.engine }
      else record s {
        engine = rested id r s.engine;
        delivered = insert id revision s.delivered;
        deliveries = s.deliveries + 1;
      }

  abbrev pub flush_attached : ℕ → Option Registration → Watched V → Watched V
  flush_attached id none s = s
  flush_attached id (some r) s = flush id r s

  -- A round of the loop of `#flush`.
  unfoldable pub flush_next : Watched V → Watched V
  unfolding flush
  flush_next s = elim s.batch [
    | [] ↦ s
    | id ∷ batch ↦
        if s.engine.closed
        then record s { batch = [] }
        else flush_attached id (lookup id s.engine.registrations) (record s { batch = batch })
  ]
