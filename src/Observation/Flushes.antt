-- ===== src/Observation/Flushes.antt =====
-- The flush of a watch (packages/observation/src/features/store/watch.ts: `flush`).
use get_modular.Base.{
  ℕ, ◌+◌, ◌≤◌, ◌<◌, ◌≡◌, refl, List, [], ◌∷◌, Option, none, some, Bool, true, false, arith,
  number_key, text_key, eqb_iff, Text, lookup, insert, lookup-insert, inl, inr, Bool-cases, ◌==◌,
  if◌then◌else◌, ◌∙◌, sym, subst, leb,
}
use get_modular.Observation.Engine.{
  Registration, StoreEngine, get_or, latest, latest_from, latest_from,
}
use get_modular.Observation.Watches.{Watched, flush, rested, flush_attached, flush_next}
use get_modular.Observation.Delivery.{IsCurrent, keys_of}

pub keys_of-insert :
    (id : ℕ) (r : Registration) (registrations : List (ℕ × Registration)) (k : ℕ)
    → keys_of (insert id r registrations) k ≡ (if id == k then r.keys else keys_of registrations k)
keys_of-insert id r registrations k = ground (arith, lookup-insert id k r registrations)

pub get_or_number :
    (x k : ℕ) (a : ℕ) (entries : List (ℕ × ℕ))
    → get_or 0 k (insert x a entries) ≡ (if x == k then a else get_or 0 k entries)
get_or_number x k a entries = ground (arith, lookup-insert x k a entries)

module _ {V : Type 0} where
  -- A watch whose depth is reset, when it has delivered the latest revision of its keys.
  module _ (id : ℕ) (r : Registration) (s : Watched V) (c : IsCurrent s)
      (e : lookup id s.engine.registrations ≡ some r) where
    rested-IsCurrent :
        (batch : List ℕ) (delivered : List (ℕ × ℕ)) (deliveries : ℕ)
        → s.batch ≡ id ∷ batch
        → latest s.engine r.keys ≤ get_or 0 id delivered
        → ((k : ℕ) → (id == k) ≡ false → get_or 0 k delivered ≡ get_or 0 k s.delivered)
        → IsCurrent (record {
          engine = rested id r s.engine;
          delivered = delivered;
          deliveries = deliveries;
          batch = batch;
        })
    unfolding latest
    rested-IsCurrent batch delivered deliveries next caught_up others =
        let after = insert id (record r { depth = 0 }) s.engine.registrations in
        let keys : (k : ℕ)
            → keys_of after k ≡ (if id == k then r.keys else keys_of s.engine.registrations k) =
          keys_of-insert id (record r { depth = 0 }) s.engine.registrations in
        record {
          indexed = record {
            indexed = λ key k.
                c.indexed.indexed key k
                ∙ ground (
                  arith,
                  e,
                  lookup-insert id k (record r { depth = 0 }) s.engine.registrations,
                  eqb_iff id k,
                );
            dirty_attached = λ k h. ground (
              arith,
              c.indexed.dirty_attached k h,
              lookup-insert id k (record r { depth = 0 }) s.engine.registrations,
            );
            touched = c.indexed.touched;
          };
          numbered = λ k h. c.numbered k (
              ground (
                arith,
                h,
                e,
                lookup-insert id k (record r { depth = 0 }) s.engine.registrations,
                eqb_iff id k,
              ));
          scheduled = c.scheduled;
          current = λ k h late.
              let moved : get_or 0 k delivered
                  < latest_from s.engine.last_touched 0
                      (if id == k then r.keys else keys_of s.engine.registrations k) =
                subst
                  (λ (ks : List Text).
                    get_or 0 k delivered < latest_from s.engine.last_touched 0 ks)
                  (keys k) late in
              elim (Bool-cases (id == k)) [
                | inl same ↦
                    let reached : get_or 0 k delivered
                        < latest_from s.engine.last_touched 0 r.keys =
                      subst
                        (λ (t : Bool).
                          get_or 0 k delivered
                          < latest_from s.engine.last_touched 0
                              (if t then r.keys else keys_of s.engine.registrations k))
                        same moved in
                    let owed : get_or 0 id delivered < latest_from s.engine.last_touched 0 r.keys =
                      subst
                        (λ (n : ℕ).
                          get_or 0 n delivered < latest_from s.engine.last_touched 0 r.keys)
                        (sym ((eqb_iff id k).0 same)) reached in
                    absurd (omega (arith, owed, caught_up))
                | inr other ↦
                    let here : get_or 0 k delivered
                        < latest_from s.engine.last_touched 0 (keys_of s.engine.registrations k) =
                      subst
                        (λ (t : Bool).
                          get_or 0 k delivered
                          < latest_from s.engine.last_touched 0
                              (if t then r.keys else keys_of s.engine.registrations k))
                        other moved in
                    ground (
                      arith,
                      other,
                      next,
                      c.current k h (
                          subst
                            (λ (n : ℕ).
                              n
                              < latest_from s.engine.last_touched 0
                                  (keys_of s.engine.registrations k))
                            (others k other) here),
                    )
              ];
        }

  pub flush-IsCurrent :
      (id : ℕ) (r : Registration) (s : Watched V) (batch : List ℕ)
      → IsCurrent s
      → s.batch ≡ id ∷ batch
      → lookup id s.engine.registrations ≡ some r
      → IsCurrent (flush id r (record s { batch = batch }))
  unfolding flush
  flush-IsCurrent id r s batch c next e =
      by_test (leb (latest s.engine r.keys) (get_or 0 id s.delivered)) refl
    where
      by_test :
          (t : Bool)
          → leb (latest s.engine r.keys) (get_or 0 id s.delivered) ≡ t
          → IsCurrent (
              if t
              then record {
                engine = rested id r s.engine;
                delivered = s.delivered;
                deliveries = s.deliveries;
                batch = batch;
              }
              else record {
                engine = rested id r s.engine;
                delivered = insert id (latest s.engine r.keys) s.delivered;
                deliveries = s.deliveries + 1;
                batch = batch;
              })
      by_test true h =
          rested-IsCurrent id r s c e batch s.delivered s.deliveries next (ground (arith, h))
            (λ k other. refl)
      by_test false h =
          rested-IsCurrent id r s c e batch (insert id (latest s.engine r.keys) s.delivered)
            (s.deliveries + 1) next
            (ground
              (arith, get_or_number id id (latest s.engine r.keys) s.delivered, eqb_iff id id))
            (λ k other.
              ground (arith, get_or_number id k (latest s.engine r.keys) s.delivered, other))

  latest_nothing : (e : StoreEngine V) → latest e [] ≡ 0
  unfolding latest latest_from
  latest_nothing e = refl

  flush_attached-IsCurrent :
      (id : ℕ) (s : Watched V) (batch : List ℕ)
      → IsCurrent s
      → s.batch ≡ id ∷ batch
      → (found : Option Registration) → lookup id s.engine.registrations ≡ found
      → IsCurrent (flush_attached id found (record s { batch = batch }))
  unfolding latest
  flush_attached-IsCurrent id s batch c next (some r) e = flush-IsCurrent id r s batch c next e
  flush_attached-IsCurrent id s batch c next none e = record {
    indexed = c.indexed;
    numbered = c.numbered;
    scheduled = c.scheduled;
    current = λ k h late. elim (Bool-cases (id == k)) [
      | inr other ↦ ground (arith, other, next, c.current k h late)
      | inl same ↦ absurd (ground (arith, late, e, eqb_iff id k, same, latest_nothing s.engine))
    ];
  }

  pub flush_next-IsCurrent : (s : Watched V) → IsCurrent s → IsCurrent (flush_next s)
  unfolding flush_next
  flush_next-IsCurrent s c = by_batch s.batch refl
    where
      by_batch :
          (batch : List ℕ)
          → s.batch ≡ batch
          → IsCurrent (elim batch [
            | [] ↦ s
            | id ∷ rest ↦
                if s.engine.closed
                then record s { batch = [] }
                else flush_attached id
                    (lookup id s.engine.registrations)
                    (record s { batch = rest })
          ])
      by_batch [] next = c
      by_batch (id ∷ rest) next = by_closed s.engine.closed refl
        where
          by_closed :
              (t : Bool)
              → s.engine.closed ≡ t
              → IsCurrent (
                  if t
                  then record s { batch = [] }
                  else flush_attached id
                      (lookup id s.engine.registrations)
                      (record s { batch = rest }))
          by_closed true shut = record {
            indexed = c.indexed;
            numbered = c.numbered;
            scheduled = c.scheduled;
            current = λ k h late. absurd (cc (shut, h));
          }
          by_closed false ready =
              flush_attached-IsCurrent id s rest c next (lookup id s.engine.registrations) refl
