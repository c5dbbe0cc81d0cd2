-- ===== src/Observation/Departures.antt =====
-- Detaching a watch, the start of a flush, and closing the engine, with watches attached
-- (packages/observation/src/features/store/watch.ts, engine.ts).
use get_modular.Base.{
  ℕ, ◌<◌, ◌≡◌, refl, List, [], Option, none, some, Bool, true, false, arith, number_key, text_key,
  Text, lookup, ◌==◌, if◌then◌else◌, ◌∙◌, subst,
}
use get_modular.Observation.Engine.{
  Registration, StoreEngine, get_or, unlink, latest, close, without, latest_from,
}
use get_modular.Observation.Index.{contains-remove, lookup-without}
use get_modular.Observation.Writes.{unlink-IsIndexed, if-holds}
use get_modular.Observation.Watches.{Watched, detach, begin_flush}
use get_modular.Observation.Delivery.{IsCurrent, keys_of, contains-sort}

keys_of-without :
    (id : ℕ) (registrations : List (ℕ × Registration)) (k : ℕ)
    → keys_of (without id registrations) k ≡ (if id == k then [] else keys_of registrations k)
keys_of-without id registrations k = ground (arith, lookup-without id k registrations)

-- Nothing is late for a watch that is gone.
late_elsewhere :
    (touched : List (Text × ℕ)) (t : Bool) (keys : List Text) (delivered : ℕ)
    → delivered < latest_from touched 0 (if t then [] else keys)
    → (t ≡ false) × (delivered < latest_from touched 0 keys)
unfolding latest_from
late_elsewhere touched true keys delivered late = absurd (omega (arith, late))
late_elsewhere touched false keys delivered late = (refl, late)

module _ {V : Type 0} where
  unlink-IsCurrent :
      (id : ℕ) (r : Registration) (s : Watched V)
      → IsCurrent s
      → lookup id s.engine.registrations ≡ some r
      → IsCurrent (record s { engine = unlink id r s.engine })
  unfolding unlink latest
  unlink-IsCurrent id r s c e = record {
    indexed = unlink-IsIndexed id r s.engine c.indexed e;
    numbered = λ k h. c.numbered k (ground (arith, h, lookup-without id k s.engine.registrations));
    scheduled = λ k h d. c.scheduled k h (ground (arith, d, contains-remove id k s.engine.dirty));
    current = λ k h late.
        let delivered = get_or 0 k s.delivered in
        let (other, here) =
          late_elsewhere s.engine.last_touched (id == k) (keys_of s.engine.registrations k)
            delivered
            (subst (λ (ks : List Text). delivered < latest_from s.engine.last_touched 0 ks)
              (keys_of-without id s.engine.registrations k) late) in
        ground (arith, contains-remove id k s.engine.dirty, other, c.current k h here);
  }

  pub detach-IsCurrent :
      (id : ℕ) (s : Watched V) → IsCurrent s → IsCurrent (record s { engine = detach id s.engine })
  unfolding detach
  detach-IsCurrent id s c = by_registration (lookup id s.engine.registrations) refl
    where
      by_registration :
          (found : Option Registration)
          → lookup id s.engine.registrations ≡ found
          → IsCurrent
              (record s { engine = elim found [ none ↦ s.engine | some r ↦ unlink id r s.engine ] })
      by_registration none e = c
      by_registration (some r) e = unlink-IsCurrent id r s c e

  pub begin_flush-IsCurrent :
      (s : Watched V) → IsCurrent s → s.batch ≡ [] → IsCurrent (begin_flush s)
  unfolding begin_flush latest
  begin_flush-IsCurrent s c empty = record {
    indexed = record {
      indexed = c.indexed.indexed;
      dirty_attached = λ k h. cc (h);
      touched = c.indexed.touched;
    };
    numbered = c.numbered;
    scheduled = λ id h d. cc (d);
    current =
        λ id h late. contains-sort s.engine.dirty id ∙ ground (arith, c.current id h late, empty);
  }

  pub close-IsCurrent :
      (s : Watched V) → IsCurrent s → IsCurrent (record s { engine = close s.engine })
  unfolding close
  close-IsCurrent s c =
      if-holds (λ (e : StoreEngine V). IsCurrent (record s { engine = e })) s.engine.closed s.engine
        _ c
        (record {
          indexed = record {
            indexed = c.indexed.indexed;
            dirty_attached = λ k h. cc (h);
            touched = c.indexed.touched;
          };
          numbered = c.numbered;
          scheduled = λ id h d. absurd (cc (h));
          current = λ id h late. absurd (cc (h));
        })
