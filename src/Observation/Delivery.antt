-- ===== src/Observation/Delivery.antt =====
-- What an engine owes its watches: packages/observation/src/features/store/watch.ts and engine.ts.
use get_modular.Base.{
  ℕ, ◌+◌, ◌≤◌, ◌<◌, ◌≡◌, refl, List, [], ◌∷◌, Option, none, some, Bool, true, false, ◌||◌, arith,
  number_key, text_key, eqb_iff, Text, contains, lookup, insert, lookup-insert, lookup-insert, sort,
  insert_sorted, inl, inr, Bool-cases, Option-cases, Key, ◌==◌, if◌then◌else◌, ap, ◌∙◌, sym, subst,
  ltb,
}
use get_modular.Base.Outcome.{done}
use get_modular.Observation.Engine.{
  Registration, StoreEngine, DeliveryContext, get_or, schedule, latest, set_entries, write_all,
  touch, deepen_all, deepen, depth_in, live_in, changed_entries,
}
use get_modular.Observation.Index.{IsIndexed, follows, is_attached, is_attached-deepen_all}
use get_modular.Observation.Writes.{written, written-IsIndexed, commit_cases, set_entries-commit}
use get_modular.Observation.Effects.{
  IsWritten, written-IsWritten, writes, any_wrote, follows_written,
}
use get_modular.Observation.Refusals.{any_wrote_none, any_wrote_cons}
use get_modular.Observation.Watches.{Watched}

-- The keys of a registration, none if it is not attached.
abbrev pub keys_of : List (ℕ × Registration) → ℕ → List Text
keys_of registrations id = elim (lookup id registrations) [ none ↦ [] | some r ↦ r.keys ]

pub keys_of-deepen_all :
    (depth : ℕ) (ids : List ℕ) (registrations : List (ℕ × Registration)) (k : ℕ)
    → keys_of (deepen_all depth ids registrations) k ≡ keys_of registrations k
unfolding deepen_all
keys_of-deepen_all depth [] registrations k = refl
keys_of-deepen_all depth (id ∷ ids) registrations k =
    elim (Option-cases (lookup id registrations)) [
      | inl e ↦ rw (e, deepen_all) (keys_of-deepen_all depth ids registrations k)
      | inr (r, e) ↦
          rw (e, deepen_all)
            (keys_of-deepen_all depth ids (insert id (deepen depth r) registrations) k
              ∙ ground (arith, e, lookup-insert id k (deepen depth r) registrations, eqb_iff id k))
    ]

contains-insert_sorted :
    (x : ℕ) (ys : List ℕ) (k : ℕ) → contains (insert_sorted ltb x ys) k ≡ (x == k || contains ys k)
unfolding insert_sorted
contains-insert_sorted x [] k = refl
contains-insert_sorted x (y ∷ ys) k = ground (arith, contains-insert_sorted x ys k)

pub contains-sort : (xs : List ℕ) (k : ℕ) → contains (sort ltb xs) k ≡ contains xs k
unfolding sort
contains-sort [] k = refl
contains-sort (x ∷ xs) k =
    contains-insert_sorted x (sort ltb xs) k ∙ ap (λ (t : Bool). x == k || t) (contains-sort xs k)

follows-keys_of :
    (registrations : List (ℕ × Registration)) (key : Text) (id : ℕ)
    → follows registrations key id ≡ contains (keys_of registrations id) key
follows-keys_of registrations key id = ground arith

module _ {V : Type 0} where
  -- A registration follows a written key when one of its keys is written.
  follows_written-any_wrote :
      (registrations : List (ℕ × Registration)) (changed : List (Text × V)) (id : ℕ)
      → any_wrote (writes changed) (keys_of registrations id) ≡ true
      → follows_written registrations changed id ≡ true
  follows_written-any_wrote registrations [] id h =
      absurd (cc (any_wrote_none (keys_of registrations id), h))
  follows_written-any_wrote registrations ((x, v) ∷ changed) id h = ground (
    arith,
    any_wrote_cons x v changed (keys_of registrations id),
    h,
    follows-keys_of registrations x id,
    follows_written-any_wrote registrations changed id,
  )

  -- Every attached watch that has not delivered the latest revision of its keys is in the batch that is
  -- flushed, or it is dirty and a flush is scheduled.
  pub record IsCurrent (s : Watched V) : Type 0 where
    pub indexed : IsIndexed s.engine
    pub numbered : (id : ℕ) → is_attached s.engine.registrations id ≡ true → id ≤ s.engine.sequence
    pub scheduled :
        (id : ℕ)
        → s.engine.closed ≡ false
        → contains s.engine.dirty id ≡ true
        → s.engine.flush_scheduled ≡ true
    pub current :
        (id : ℕ)
        → s.engine.closed ≡ false
        → get_or 0 id s.delivered < latest s.engine (keys_of s.engine.registrations id)
        → (contains s.engine.dirty id || contains s.batch id) ≡ true

  -- What a write keeps of the engine.
  write_all-kept :
      (changed : List (Text × V)) (depth : ℕ) (live : Option ℕ) (e : StoreEngine V) (id : ℕ)
      → let after = write_all changed depth live e in
        (keys_of after.registrations id ≡ keys_of e.registrations id)
        × (is_attached after.registrations id ≡ is_attached e.registrations id)
        × (after.sequence ≡ e.sequence)
        × (after.closed ≡ e.closed)
  unfolding write_all touch
  write_all-kept [] depth live e id = (refl, refl, refl, refl)
  write_all-kept ((x, v) ∷ changed) depth live e id =
      let bucket = get_or [] x e.buckets in
      let (keys, attached, sequence, closed) = write_all-kept changed depth live _ id in
      (
        keys ∙ keys_of-deepen_all depth bucket e.registrations id,
        attached ∙ is_attached-deepen_all depth bucket e.registrations id,
        sequence,
        closed,
      )

  written-current :
      (changed : List (Text × V)) (e after : StoreEngine V) (id delivered : ℕ) (batch : List ℕ)
      → IsWritten changed e after
      → let keys = keys_of e.registrations id in
        keys_of after.registrations id ≡ keys
        → (delivered < latest e keys → (contains e.dirty id || contains batch id) ≡ true)
        → delivered < latest after (keys_of after.registrations id)
        → (contains after.dirty id || contains batch id) ≡ true
  written-current changed e after id delivered batch w kept before late =
      let keys = keys_of e.registrations id in
      let here : delivered < latest after keys =
        subst (λ (ks : List Text). delivered < latest after ks) kept late in
      elim (Bool-cases (any_wrote (writes changed) keys)) [
        | inl some_written ↦ ground (
          arith,
          w.new_dirty id,
          follows_written-any_wrote e.registrations changed id some_written,
        )
        | inr unwritten ↦
            let same : latest after keys ≡ latest e keys =
              w.new_latest keys
              ∙ ap (λ (t : Bool). if t then e.commits + 1 else latest e keys) unwritten in
            ground (arith, w.new_dirty id, before (subst (λ (n : ℕ). delivered < n) same here))
      ]

  written-IsCurrent :
      (changed : List (Text × V)) (nodes : ℕ) (context : Option DeliveryContext) (s : Watched V)
      → IsCurrent s
      → IsCurrent (record s { engine = written changed nodes context s.engine })
  unfolding schedule
  written-IsCurrent changed nodes context s c =
      let started : StoreEngine V = record s.engine {
        walked = s.engine.walked + nodes;
        commits = s.engine.commits + 1;
      } in
      let kept = write_all-kept changed (depth_in context) (live_in context) started in
      let w = written-IsWritten changed nodes context s.engine c.indexed in
      record {
        indexed = written-IsIndexed changed nodes context s.engine c.indexed;
        numbered = λ id h. ground (arith, kept id, h, c.numbered id);
        scheduled = λ id h d. refl;
        current = λ id h.
            written-current changed s.engine _ id (get_or 0 id s.delivered) s.batch w (kept id).0
              (c.current id (sym (kept id).3 ∙ h));
      }

  pub set_entries-IsCurrent :
      ⦃same : Key V⦄ (entries : List (Text × V)) (nodes : ℕ) (context : Option DeliveryContext)
      (s : Watched V) (after : StoreEngine V) (revision : ℕ)
      → IsCurrent s
      → set_entries entries nodes context s.engine ≡ done (after, revision)
      → IsCurrent (record s { engine = after })
  set_entries-IsCurrent entries nodes context s after revision c h =
      let changed = changed_entries s.engine.values entries in
      let committed = set_entries-commit entries nodes context s.engine after revision h in
      let with_engine = λ (e : StoreEngine V). IsCurrent (record s { engine = e }) in
      elim (commit_cases changed nodes context s.engine) [
        | inl t ↦ absurd (cc (t, committed))
        | inr (inl (unchanged, d)) ↦ subst with_engine (cc (d, committed)) c
        | inr (inr (_, d)) ↦
            subst with_engine (cc (d, committed)) (written-IsCurrent changed nodes context s c)
      ]
