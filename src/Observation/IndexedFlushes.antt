-- ===== src/Observation/IndexedFlushes.antt =====
-- A flush and the index of the registrations
-- (packages/observation/src/features/store/engine.ts: `#flush`, and watch.ts: `flush`).
use get_modular.Base.{
  ℕ, ◌≡◌, refl, List, [], ◌∷◌, Option, none, some, false, arith, number_key, text_key, eqb_iff,
  lookup, lookup-insert, ◌∙◌, leb,
}
use get_modular.Observation.Engine.{Registration, StoreEngine, get_or, latest}
use get_modular.Observation.Watches.{
  Watched, begin_flush, rested, flush, flush_attached, flush_next,
}
use get_modular.Observation.Index.{IsIndexed}
use get_modular.Observation.Writes.{if-holds}

module _ {V : Type 0} where
  -- The parts of `#flush`: the dirty registrations are taken, and the depth of one is reset.
  begun-IsIndexed :
      (e : StoreEngine V)
      → IsIndexed e
      → IsIndexed (record e { flush_scheduled = false; dirty = [] })
  begun-IsIndexed e i = record {
    indexed = i.indexed;
    dirty_attached = λ k h. cc (h);
    touched = i.touched;
  }

  pub begin_flush-IsIndexed :
      (s : Watched V) → IsIndexed s.engine → IsIndexed (begin_flush s).engine
  unfolding begin_flush
  begin_flush-IsIndexed s i = begun-IsIndexed s.engine i

  rested-IsIndexed :
      (id : ℕ) (r : Registration) (e : StoreEngine V)
      → IsIndexed e
      → lookup id e.registrations ≡ some r
      → IsIndexed (rested id r e)
  rested-IsIndexed id r e i there =
      let reset : Registration = record r { depth = 0 } in
      record {
        indexed = λ key k.
            i.indexed key k
            ∙ ground (arith, there, lookup-insert id k reset e.registrations, eqb_iff id k);
        dirty_attached =
            λ k h. ground (arith, i.dirty_attached k h, lookup-insert id k reset e.registrations);
        touched = i.touched;
      }

  flush-IsIndexed :
      (id : ℕ) (r : Registration) (s : Watched V)
      → IsIndexed s.engine
      → lookup id s.engine.registrations ≡ some r
      → IsIndexed (flush id r s).engine
  unfolding flush
  flush-IsIndexed id r s i there =
      let rest = rested-IsIndexed id r s.engine i there in
      if-holds (λ (w : Watched V). IsIndexed w.engine)
        (leb (latest s.engine r.keys) (get_or 0 id s.delivered)) _ _ rest rest

  flush_attached-IsIndexed :
      (id : ℕ) (found : Option Registration) (s : Watched V)
      → IsIndexed s.engine
      → lookup id s.engine.registrations ≡ found
      → IsIndexed (flush_attached id found s).engine
  flush_attached-IsIndexed id none s i there = i
  flush_attached-IsIndexed id (some r) s i there = flush-IsIndexed id r s i there

  round-IsIndexed :
      (e : StoreEngine V) (delivered : List (ℕ × ℕ)) (deliveries : ℕ) (batch : List ℕ)
      → IsIndexed e
      → let s : Watched V = record {
        engine = e;
        delivered = delivered;
        deliveries = deliveries;
        batch = batch;
      } in
        IsIndexed (flush_next s).engine
  unfolding flush_next
  round-IsIndexed e delivered deliveries [] i = i
  round-IsIndexed e delivered deliveries (id ∷ batch) i =
      let s : Watched V = record {
        engine = e;
        delivered = delivered;
        deliveries = deliveries;
        batch = batch;
      } in
      if-holds (λ (w : Watched V). IsIndexed w.engine) e.closed _ _ i
        (flush_attached-IsIndexed id (lookup id e.registrations) s i refl)

  pub flush_next-IsIndexed : (s : Watched V) → IsIndexed s.engine → IsIndexed (flush_next s).engine
  flush_next-IsIndexed s i = round-IsIndexed s.engine s.delivered s.deliveries s.batch i
