-- ===== src/Observation/Writes.antt =====
-- The steps of a write, and the index of the registrations
-- (packages/observation/src/features/store/engine.ts: `attach`, `unlink`, `markDirty`, `set`, `close`).
use get_modular.Base.{
  ℕ, ◌+◌, ◌≡◌, ◌≢◌, ◌⊎◌, refl, List, [], ◌∷◌, Option, none, some, Bool, true, false, not, ◌||◌,
  arith, number_key, text_key, eqb_iff, Text, lookup, lookup-insert, inl, inr, Bool-cases, Key,
  if◌then◌else◌, ap, ◌∙◌, sym, subst,
}
use get_modular.Base.Outcome.{done, thrown}
use get_modular.Observation.Engine.{
  Registration, StoreEngine, DeliveryContext, get_or, attach, unlink, touch, mark_dirty, schedule,
  close, write_all, commit, set_entries, changed_entries, guard_fails, all_known, depth_in, live_in,
}
use get_modular.Observation.Index.{
  IsIndexed, follows, is_attached, contains-remove, contains-add, lookup-without, get_or-insert,
  in_bucket-add_to_buckets, in_bucket-remove_from_buckets, follows-deepen_all, contains-mark_all,
  is_attached-deepen_all,
}

follows-IsAttached :
    (registrations : List (ℕ × Registration)) (key : Text) (id : ℕ)
    → follows registrations key id ≡ true
    → is_attached registrations id ≡ true
follows-IsAttached registrations key id h = ground arith

pub if-holds :
    {A : Type 0} (P : A → Type 0) (t : Bool) (a b : A) → P a → P b → P (if t then a else b)
if-holds P true a b p q = p
if-holds P false a b p q = q

module _ {V : Type 0} where
  pub attach-IsIndexed :
      (id : ℕ) (r : Registration) (e : StoreEngine V)
      → IsIndexed e
      → lookup id e.registrations ≡ none
      → IsIndexed (attach id r e)
  unfolding attach
  attach-IsIndexed id r e i fresh = record {
    indexed = λ key k.
        in_bucket-add_to_buckets id r.keys e.buckets key k
        ∙ ground (
          arith,
          i.indexed key k,
          i.indexed key id,
          fresh,
          lookup-insert id k r e.registrations,
          eqb_iff id k,
        );
    dirty_attached =
        λ k h. ground (arith, i.dirty_attached k h, lookup-insert id k r e.registrations);
    touched = i.touched;
  }

  pub unlink-IsIndexed :
      (id : ℕ) (r : Registration) (e : StoreEngine V)
      → IsIndexed e
      → lookup id e.registrations ≡ some r
      → IsIndexed (unlink id r e)
  unfolding unlink
  unlink-IsIndexed id r e i there = record {
    indexed = λ key k.
        in_bucket-remove_from_buckets id r.keys e.buckets key k
        ∙ ground (arith, i.indexed key k, there, lookup-without id k e.registrations, eqb_iff id k);
    dirty_attached = λ k h. ground (
      arith,
      h,
      contains-remove id k e.dirty,
      i.dirty_attached k,
      lookup-without id k e.registrations,
    );
    touched = i.touched;
  }

  pub mark_dirty-IsIndexed :
      (id : ℕ) (e : StoreEngine V)
      → IsIndexed e
      → is_attached e.registrations id ≡ true
      → IsIndexed (mark_dirty id e)
  unfolding mark_dirty schedule
  mark_dirty-IsIndexed id e i there = record {
    indexed = i.indexed;
    dirty_attached = λ k h.
        ground (arith, h, contains-add id k e.dirty, i.dirty_attached k, there, eqb_iff id k);
    touched = i.touched;
  }

  pub touch-IsIndexed :
      (key : Text) (depth : ℕ) (live : Option ℕ) (e : StoreEngine V)
      → IsIndexed e
      → IsIndexed (touch key depth live e)
  unfolding touch
  touch-IsIndexed key depth live e i =
      let bucket = get_or [] key e.buckets in
      record {
        indexed = λ key' k.
            i.indexed key' k ∙ sym (follows-deepen_all depth bucket e.registrations key' k);
        dirty_attached = λ k h.
            is_attached-deepen_all depth bucket e.registrations k
            ∙ ground (
              arith,
              h,
              contains-mark_all bucket e.dirty k,
              i.dirty_attached k,
              i.indexed key k,
              follows-IsAttached e.registrations key k,
            );
        touched = λ key'.
            ground (arith, get_or-insert 0 key key' e.commits e.last_touched, i.touched key');
      }

  write_all-IsIndexed :
      (changed : List (Text × V)) (depth : ℕ) (live : Option ℕ) (e : StoreEngine V)
      → IsIndexed e
      → IsIndexed (write_all changed depth live e)
  unfolding write_all
  write_all-IsIndexed [] depth live e i = i
  write_all-IsIndexed ((key, value) ∷ changed) depth live e i =
      write_all-IsIndexed changed depth live _ (
        touch-IsIndexed key depth live _
          (record { indexed = i.indexed; dirty_attached = i.dirty_attached; touched = i.touched }))

  scheduled-IsIndexed : (e : StoreEngine V) → IsIndexed e → IsIndexed (schedule e)
  unfolding schedule
  scheduled-IsIndexed e i = record {
    indexed = i.indexed;
    dirty_attached = i.dirty_attached;
    touched = i.touched;
  }

  pub started-IsIndexed :
      (nodes : ℕ) (e : StoreEngine V)
      → IsIndexed e
      → IsIndexed (record e { walked = e.walked + nodes; commits = e.commits + 1 })
  started-IsIndexed nodes e i = record {
    indexed = i.indexed;
    dirty_attached = i.dirty_attached;
    touched = λ key. omega (arith, i.touched key);
  }

  pub close-IsIndexed : (e : StoreEngine V) → IsIndexed e → IsIndexed (close e)
  unfolding close
  close-IsIndexed e i =
      if-holds IsIndexed e.closed e _ i
        (record { indexed = i.indexed; dirty_attached = λ k h. cc (h); touched = i.touched })

  -- What a commit leaves, once the guard is passed.
  abbrev pub written : List (Text × V) → ℕ → Option DeliveryContext → StoreEngine V → StoreEngine V
  written changed nodes context e = schedule (
      write_all changed (depth_in context) (live_in context)
        (record e { walked = e.walked + nodes; commits = e.commits + 1 }))

  pub written-IsIndexed :
      (changed : List (Text × V)) (nodes : ℕ) (context : Option DeliveryContext) (e : StoreEngine V)
      → IsIndexed e
      → IsIndexed (written changed nodes context e)
  written-IsIndexed changed nodes context e i = scheduled-IsIndexed _ (
      write_all-IsIndexed changed (depth_in context) (live_in context) _
        (started-IsIndexed nodes e i))

  module _ ⦃same : Key V⦄ where
    -- A commit throws, or returns the state as it was or as written.
    pub commit_cases :
        (changed : List (Text × V)) (nodes : ℕ) (context : Option DeliveryContext)
        (e : StoreEngine V)
        → (commit changed nodes context e ≡ thrown)
          ⊎ ((changed ≡ []) × (commit changed nodes context e ≡ done (e, e.commits)))
          ⊎ (let after = written changed nodes context e in
              (changed ≢ []) × (commit changed nodes context e ≡ done (after, after.commits)))
    unfolding commit
    commit_cases [] nodes context e = inr (inl (refl, refl))
    commit_cases (entry ∷ changed) nodes context e =
        elim (Bool-cases (guard_fails (entry ∷ changed) context)) [
          | inl fails ↦ inl (rw (fails, commit) refl)
          | inr passes ↦ inr (inr (λ (q : entry ∷ changed ≡ []). cc (q), rw (passes, commit) refl))
        ]

    commit-IsIndexed :
        (changed : List (Text × V)) (nodes : ℕ) (context : Option DeliveryContext)
        (e e' : StoreEngine V) (revision : ℕ)
        → IsIndexed e
        → commit changed nodes context e ≡ done (e', revision)
        → IsIndexed e'
    commit-IsIndexed changed nodes context e e' revision i h =
        elim (commit_cases changed nodes context e) [
          | inl t ↦ absurd (cc (t, h))
          | inr (inl (none_changed, d)) ↦ subst IsIndexed (cc (d, h)) i
          | inr (inr (_, d)) ↦
              subst IsIndexed (cc (d, h)) (written-IsIndexed changed nodes context e i)
        ]

    -- A call that returns is past the checks.
    pub set_entries-commit :
        (entries : List (Text × V)) (nodes : ℕ) (context : Option DeliveryContext)
        (e e' : StoreEngine V) (revision : ℕ)
        → set_entries entries nodes context e ≡ done (e', revision)
        → commit (changed_entries e.values entries) nodes context e ≡ done (e', revision)
    unfolding set_entries
    set_entries-commit entries nodes context e e' revision h =
        let go = commit (changed_entries e.values entries) nodes context e in
        elim (Bool-cases (e.closed || not (all_known e.values entries))) [
          | inl refused ↦ absurd (cc (ap (λ (t : Bool). if t then thrown else go) refused, h))
          | inr allowed ↦ sym (ap (λ (t : Bool). if t then thrown else go) allowed) ∙ h
        ]

    pub set_entries-IsIndexed :
        (entries : List (Text × V)) (nodes : ℕ) (context : Option DeliveryContext)
        (e e' : StoreEngine V) (revision : ℕ)
        → IsIndexed e
        → set_entries entries nodes context e ≡ done (e', revision)
        → IsIndexed e'
    set_entries-IsIndexed entries nodes context e e' revision i h =
        commit-IsIndexed (changed_entries e.values entries) nodes context e e' revision i
          (set_entries-commit entries nodes context e e' revision h)
