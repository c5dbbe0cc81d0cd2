-- ===== src/Observation/Subscriptions.antt =====
-- A watch that subscribes
-- (packages/observation/src/features/store/watch.ts: the constructor and `subscribe`).
use get_modular.Base.{
  ℕ, ◌+◌, ◌<◌, ◌≡◌, ◌⊎◌, refl, List, none, Bool, true, false, ◌||◌, arith, number_key, text_key,
  eqb_iff, Text, lookup, insert, lookup-insert, inl, inr, Option-cases, ◌==◌, if◌then◌else◌, subst,
  ltb,
}
use get_modular.Observation.Engine.{
  Registration, StoreEngine, get_or, attach, mark_dirty, schedule, latest, next_id,
}
use get_modular.Observation.Index.{IsIndexed, is_attached, contains-add}
use get_modular.Observation.Writes.{attach-IsIndexed, mark_dirty-IsIndexed}
use get_modular.Observation.Watches.{Spec, Watched, subscribe, mark_missed}
use get_modular.Observation.Flushes.{keys_of-insert, get_or_number}
use get_modular.Observation.Delivery.{IsCurrent, keys_of}

module _ {V : Type 0} where
  module _ (spec : Spec) (s : Watched V) (c : IsCurrent s) where
    fresh_id : lookup (s.engine.sequence + 1) s.engine.registrations ≡ none
    fresh_id = elim (Option-cases (lookup (s.engine.sequence + 1) s.engine.registrations)) [
      | inl e ↦ e
      | inr (r, e) ↦ absurd (omega (arith, c.numbered (s.engine.sequence + 1) (ground (arith, e))))
    ]

    -- What a watch that is late after a subscription was late of before it.
    late_subscribed :
        (w : Registration) (k : ℕ)
        → let id = s.engine.sequence + 1 in
          w.keys ≡ spec.keys
          → get_or 0 k (insert id spec.revision s.delivered)
            < latest s.engine (keys_of (insert id w s.engine.registrations) k)
          → (((id == k) ≡ true) × (spec.revision < latest s.engine spec.keys))
            ⊎ (((id == k) ≡ false)
                × (get_or 0 k s.delivered < latest s.engine (keys_of s.engine.registrations k)))
    late_subscribed w k same late =
        let id = s.engine.sequence + 1 in
        let moved =
          subst (λ (n : ℕ). n < latest s.engine (keys_of (insert id w s.engine.registrations) k))
            (get_or_number id k spec.revision s.delivered) late in
        let watched =
          subst
            (λ (ks : List Text).
              (if id == k then spec.revision else get_or 0 k s.delivered) < latest s.engine ks)
            (keys_of-insert id w s.engine.registrations k) moved in
        by_id (id == k) (
          subst
            (λ (ks : List Text).
              (if id == k then spec.revision else get_or 0 k s.delivered)
              < latest s.engine (if id == k then ks else keys_of s.engine.registrations k))
            same watched)
      where
        by_id :
            (t : Bool)
            → (if t then spec.revision else get_or 0 k s.delivered)
              < latest s.engine (if t then spec.keys else keys_of s.engine.registrations k)
            → ((t ≡ true) × (spec.revision < latest s.engine spec.keys))
              ⊎ ((t ≡ false)
                  × (get_or 0 k s.delivered < latest s.engine (keys_of s.engine.registrations k)))
        by_id true late = inl (refl, late)
        by_id false late = inr (refl, late)

    subscribed-IsCurrent :
        (w : Registration) (t : Bool)
        → w.keys ≡ spec.keys
        → ltb spec.revision (latest s.engine spec.keys) ≡ t
        → let id = s.engine.sequence + 1 in
          let attached = attach id w (record s.engine { sequence = s.engine.sequence + 1 }) in
          IsCurrent (record s {
            engine = if t then mark_dirty id attached else attached;
            delivered = insert id spec.revision s.delivered;
          })
    unfolding latest attach mark_dirty schedule
    subscribed-IsCurrent w t same test =
        let id = s.engine.sequence + 1 in
        let before : StoreEngine V = record s.engine { sequence = s.engine.sequence + 1 } in
        let joined : IsIndexed (attach id w before) =
          attach-IsIndexed id w before
            (record {
              indexed = c.indexed.indexed;
              dirty_attached = c.indexed.dirty_attached;
              touched = c.indexed.touched;
            })
            fresh_id in
        let there : (k : ℕ)
            → is_attached (insert id w s.engine.registrations) k
              ≡ (id == k || is_attached s.engine.registrations k) =
          λ k. ground (arith, lookup-insert id k w s.engine.registrations) in
        by_test t test joined there
      where
        by_test :
            (t : Bool)
            → ltb spec.revision (latest s.engine spec.keys) ≡ t
            → let id = s.engine.sequence + 1 in
              let attached = attach id w (record s.engine { sequence = s.engine.sequence + 1 }) in
              IsIndexed attached
              → ((k : ℕ)
                  → is_attached attached.registrations k
                    ≡ (id == k || is_attached s.engine.registrations k))
              → IsCurrent (record s {
                engine = if t then mark_dirty id attached else attached;
                delivered = insert id spec.revision s.delivered;
              })
        by_test true missed joined there = record {
          indexed = mark_dirty-IsIndexed (s.engine.sequence + 1) _ joined (
              ground (
                arith,
                there (s.engine.sequence + 1),
                eqb_iff (s.engine.sequence + 1) (s.engine.sequence + 1),
              ));
          numbered =
              λ k h. ground (arith, h, there k, c.numbered k, eqb_iff (s.engine.sequence + 1) k);
          scheduled = λ k h d. refl;
          current = λ k h late. elim (late_subscribed w k same late) [
            | inl (here, owed) ↦
                ground (arith, contains-add (s.engine.sequence + 1) k s.engine.dirty, here)
            | inr (other, owed) ↦
                ground
                  (arith, contains-add (s.engine.sequence + 1) k s.engine.dirty, c.current k h owed)
          ];
        }
        by_test false up_to_date joined there = record {
          indexed = joined;
          numbered =
              λ k h. ground (arith, h, there k, c.numbered k, eqb_iff (s.engine.sequence + 1) k);
          scheduled = c.scheduled;
          current = λ k h late. elim (late_subscribed w k same late) [
            | inl (here, owed) ↦ absurd (ground (arith, owed, up_to_date))
            | inr (other, owed) ↦ c.current k h owed
          ];
        }

  pub subscribe-IsCurrent :
      (spec : Spec) (s : Watched V) → IsCurrent s → IsCurrent (subscribe spec s)
  unfolding subscribe next_id mark_missed latest attach
  subscribe-IsCurrent spec s c =
      subscribed-IsCurrent spec s c _ (ltb spec.revision (latest s.engine spec.keys)) refl refl
