-- ===== src/Observation/Engine.antt =====
-- `StoreEngine` of packages/observation/src/features/store/engine.ts, less its calls of the host. A
-- registration is known by its id, a scope by a number, and the values are those of a type whose
-- equality stands for `Object.is`. A `Map` is an association list, a `Set` a list.
use get_modular.Base.{
  ℕ, zero, suc, ◌+◌, List, [], ◌∷◌, Option, none, some, Bool, true, false, not, ◌&&◌, ◌||◌, ◌==◌,
  Key, number_key, text_key, ltb, if◌then◌else◌, max, Text, get_elem?, set, length, contains, add,
  lookup, insert,
}
use get_modular.Base.Outcome.{Outcome, done, thrown}

-- `MAX_CASCADE_DEPTH` of delivery/context.ts
abbrev pub max_cascade_depth : ℕ
max_cascade_depth = 64

pub record Registration : Type 0 where
  pub keys : List Text
  pub name : Text
  pub scope : ℕ
  pub depth : ℕ

-- The delivery in which a call is made: `currentContext()`.
pub record DeliveryContext : Type 0 where
  pub depth : ℕ
  pub same_engine : Bool
  pub origin_keys : List Text
  pub live : ℕ

pub record Cause : Type 0 where
  pub revision : ℕ
  pub depth : ℕ
  pub live : Option ℕ

-- The fields of the engine, with the counters that its methods change.
pub record StoreEngine (V : Type 0) : Type 0 where
  pub values : List (Text × V)
  pub last_touched : List (Text × ℕ)
  pub latest_revision_at_depth : List (Text × List ℕ)
  pub last_write_cause : List (Text × Cause)
  pub buckets : List (Text × List ℕ)
  pub registrations : List (ℕ × Registration)
  pub dirty : List ℕ
  pub names_by_scope : List (ℕ × List Text)
  pub sequence : ℕ
  pub closed : Bool
  pub flush_scheduled : Bool
  pub commits : ℕ
  pub visits : ℕ
  pub index_lookups : ℕ
  pub walked : ℕ

-- `map.get(key) ?? fallback`
abbrev pub get_or {ℓ κ} : {K : Type ℓ} {A : Type κ} ⦃q : Key K⦄ → A → K → List (K × A) → A
get_or fallback key entries = elim (lookup key entries) [ none ↦ fallback | some a ↦ a ]

-- `map.delete(key)` and `set.delete(value)`
abbrev pub without {ℓ κ} : {K : Type ℓ} {A : Type κ} ⦃q : Key K⦄ → K → List (K × A) → List (K × A)
without key [] = []
without key ((k, a) ∷ rest) = if k == key then without key rest else (k, a) ∷ without key rest

abbrev pub remove {ℓ} : {K : Type ℓ} ⦃q : Key K⦄ → K → List K → List K
remove key [] = []
remove key (k ∷ rest) = if k == key then remove key rest else k ∷ remove key rest

-- The loop of `latest`.
unfoldable pub latest_from : List (Text × ℕ) → ℕ → List Text → ℕ
latest_from touched revision [] = revision
latest_from touched revision (key ∷ keys) =
    latest_from touched (max revision (get_or 0 key touched)) keys

-- `slots[candidate] ?? 0`
abbrev pub slot : List ℕ → ℕ → ℕ
slot slots candidate = elim (get_elem? slots candidate) [ none ↦ 0 | some revision ↦ revision ]

-- The inner loop of `missedDepth`, from the candidate down to the depth reached.
unfoldable pub deepest : List ℕ → ℕ → ℕ → ℕ → ℕ
deepest slots revision depth zero = depth
deepest slots revision depth (suc candidate) =
    let further = deepest slots revision depth candidate in
    if ltb depth (suc candidate)
    then (if ltb revision (slot slots (suc candidate)) then suc candidate else further)
    else depth

unfoldable pub missed_from : List (Text × List ℕ) → ℕ → ℕ → List Text → ℕ
unfolding deepest
missed_from at_depth revision depth [] = depth
missed_from at_depth revision depth (key ∷ keys) = elim (lookup key at_depth) [
  | none ↦ missed_from at_depth revision depth keys
  | some slots ↦ missed_from at_depth revision (deepest slots revision depth max_cascade_depth) keys
]

-- `bucket.add(registration)` for each key.
unfoldable pub add_to_buckets : ℕ → List Text → List (Text × List ℕ) → List (Text × List ℕ)
add_to_buckets id [] buckets = buckets
add_to_buckets id (key ∷ keys) buckets =
    add_to_buckets id keys (insert key (add id (get_or [] key buckets)) buckets)

abbrev pub shrink : Text → List ℕ → List (Text × List ℕ) → List (Text × List ℕ)
shrink key [] buckets = without key buckets
shrink key (id ∷ rest) buckets = insert key (id ∷ rest) buckets

unfoldable pub remove_from_bucket : ℕ → Text → List (Text × List ℕ) → List (Text × List ℕ)
remove_from_bucket id key buckets = elim (lookup key buckets) [
  | none ↦ buckets
  | some bucket ↦ shrink key (remove id bucket) buckets
]

unfoldable pub remove_from_buckets : ℕ → List Text → List (Text × List ℕ) → List (Text × List ℕ)
unfolding remove_from_bucket
remove_from_buckets id [] buckets = buckets
remove_from_buckets id (key ∷ keys) buckets =
    remove_from_buckets id keys (remove_from_bucket id key buckets)

-- `registration.depth = Math.max(registration.depth, depth)`
abbrev pub deepen : ℕ → Registration → Registration
deepen depth r = record r { depth = max r.depth depth }

-- The loop of `#touch` over a bucket, on the registrations and on the dirty ones.
unfoldable pub deepen_all : ℕ → List ℕ → List (ℕ × Registration) → List (ℕ × Registration)
deepen_all depth [] registrations = registrations
deepen_all depth (id ∷ ids) registrations = elim (lookup id registrations) [
  | none ↦ deepen_all depth ids registrations
  | some r ↦ deepen_all depth ids (insert id (deepen depth r) registrations)
]

unfoldable pub mark_all : List ℕ → List ℕ → List ℕ
mark_all [] dirty = dirty
mark_all (id ∷ ids) dirty = mark_all ids (add id dirty)

-- `Array<number>(MAX_CASCADE_DEPTH + 1).fill(0)`
abbrev pub zeros : ℕ → List ℕ
zeros zero = []
zeros (suc n) = 0 ∷ zeros n

abbrev pub depth_in : Option DeliveryContext → ℕ
depth_in none = 0
depth_in (some context) = context.depth + 1

abbrev pub live_in : Option DeliveryContext → Option ℕ
live_in none = none
live_in (some context) = some context.live

module _ {V : Type 0} where
  unfoldable pub latest : StoreEngine V → List Text → ℕ
  unfolding latest_from
  latest e keys = latest_from e.last_touched 0 keys

  unfoldable pub missed_depth : StoreEngine V → List Text → ℕ → ℕ
  unfolding missed_from
  missed_depth e keys revision = missed_from e.latest_revision_at_depth revision 0 keys

  unfoldable pub next_id : StoreEngine V → StoreEngine V × ℕ
  next_id e = (record e { sequence = e.sequence + 1 }, e.sequence + 1)

  unfoldable pub attach : ℕ → Registration → StoreEngine V → StoreEngine V
  unfolding add_to_buckets
  attach id r e = record e {
    registrations = insert id r e.registrations;
    buckets = add_to_buckets id r.keys e.buckets;
    names_by_scope =
        insert r.scope (add r.name (get_or [] r.scope e.names_by_scope)) e.names_by_scope;
  }

  unfoldable pub unlink : ℕ → Registration → StoreEngine V → StoreEngine V
  unfolding remove_from_buckets
  unlink id r e = record e {
    registrations = without id e.registrations;
    dirty = remove id e.dirty;
    buckets = remove_from_buckets id r.keys e.buckets;
    names_by_scope =
        insert r.scope (remove r.name (get_or [] r.scope e.names_by_scope)) e.names_by_scope;
  }

  -- `schedule`: the delivery task is the flag.
  unfoldable pub schedule : StoreEngine V → StoreEngine V
  schedule e = record e { flush_scheduled = true }

  unfoldable pub mark_dirty : ℕ → StoreEngine V → StoreEngine V
  unfolding schedule
  mark_dirty id e = schedule (record e { dirty = add id e.dirty })

  unfoldable pub touch : Text → ℕ → Option ℕ → StoreEngine V → StoreEngine V
  unfolding deepen_all mark_all
  touch key depth live e =
      let bucket = get_or [] key e.buckets in
      let slots = get_or (zeros (max_cascade_depth + 1)) key e.latest_revision_at_depth in
      record e {
        last_touched = insert key e.commits e.last_touched;
        latest_revision_at_depth =
            insert key (set slots depth e.commits) e.latest_revision_at_depth;
        last_write_cause =
            insert key (record { revision = e.commits; depth = depth; live = live })
              e.last_write_cause;
        index_lookups = e.index_lookups + 1;
        visits = e.visits + length bucket;
        registrations = deepen_all depth bucket e.registrations;
        dirty = mark_all bucket e.dirty;
      }

  -- The loop of `set` over the changed entries.
  unfoldable pub write_all : List (Text × V) → ℕ → Option ℕ → StoreEngine V → StoreEngine V
  unfolding touch
  write_all [] depth live e = e
  write_all ((key, value) ∷ changed) depth live e =
      write_all changed depth live
        (touch key depth live (record e { values = insert key value e.values }))

  -- `close`, up to its calls of the host.
  unfoldable pub close : StoreEngine V → StoreEngine V
  close e = if e.closed then e else record e {
    closed = true;
    dirty = [];
    latest_revision_at_depth = [];
    last_write_cause = [];
  }

  module _ ⦃same : Key V⦄ where
    -- `!Object.is(this.#values.get(key), value)`
    abbrev pub differs : Option V → V → Bool
    differs none value = true
    differs (some old) value = not (old == value)

    unfoldable pub changed_entries : List (Text × V) → List (Text × V) → List (Text × V)
    changed_entries values [] = []
    changed_entries values ((key, value) ∷ entries) =
        let rest = changed_entries values entries in
        if differs (lookup key values) value then (key, value) ∷ rest else rest

    abbrev pub any_key : List Text → List (Text × V) → Bool
    any_key keys [] = false
    any_key keys ((key, value) ∷ entries) = contains keys key || any_key keys entries

    abbrev pub is_present : Option V → Bool
    is_present none = false
    is_present (some _) = true

    abbrev pub all_known : List (Text × V) → List (Text × V) → Bool
    all_known values [] = true
    all_known values ((key, value) ∷ entries) =
        is_present (lookup key values) && all_known values entries

    -- `#guard`: an echo, or a cascade that is too deep.
    unfoldable pub guard_fails : List (Text × V) → Option DeliveryContext → Bool
    guard_fails changed none = false
    guard_fails changed (some context) =
        (context.same_engine && any_key context.origin_keys changed)
        || ltb max_cascade_depth (context.depth + 1)

    -- The part of `set` from the guard on.
    unfoldable pub commit :
        List (Text × V) → ℕ → Option DeliveryContext → StoreEngine V → Outcome (StoreEngine V × ℕ)
    unfolding guard_fails write_all schedule
    commit [] nodes context e = done (e, e.commits)
    commit (entry ∷ changed) nodes context e =
        if guard_fails (entry ∷ changed) context
        then thrown
        else let written = schedule (
            write_all (entry ∷ changed) (depth_in context) (live_in context)
              (record e { walked = e.walked + nodes; commits = e.commits + 1 })) in
          done (written, written.commits)

    -- `set`, after the patch is captured: its entries, and the number of objects that are frozen.
    unfoldable pub set_entries :
        List (Text × V) → ℕ → Option DeliveryContext → StoreEngine V → Outcome (StoreEngine V × ℕ)
    unfolding commit changed_entries
    set_entries entries nodes context e =
        if e.closed || not (all_known e.values entries)
        then thrown
        else commit (changed_entries e.values entries) nodes context e
