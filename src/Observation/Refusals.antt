-- ===== src/Observation/Refusals.antt =====
-- When a write is refused (packages/observation/src/features/store/engine.ts: `set`, `#guard`).
use get_modular.Base.{
  ℕ, ◌+◌, ◌<◌, ◌≡◌, ◌≢◌, ◌⊎◌, ◌↔◌, refl, List, [], ◌∷◌, Option, none, some, Bool, true, false, not,
  ◌||◌, arith, text_key, text_eqb, text_eqb_iff, Text, contains, inl, inr, Bool-cases, Key,
  if◌then◌else◌, ap, lookup, Option-cases, ltb, ltb→lt, ◌∙◌, sym,
}
use get_modular.Base.Outcome.{done, thrown}
use get_modular.Observation.Engine.{
  StoreEngine, DeliveryContext, commit, set_entries, changed_entries, guard_fails, any_key,
  all_known, max_cascade_depth,
}
use get_modular.Observation.WrittenKeys.{written_at, any_wrote_key}
use get_modular.Observation.Patches.{
  IsPatch, one_entry, Changes, changed_entries-Changes, changed_entries-none, changed_entries-some,
}
use get_modular.Observation.Writes.{written}
use get_modular.Observation.Effects.{writes, any_wrote}

pub any_wrote_none : (keys : List Text) → any_wrote (λ key. false) keys ≡ false
any_wrote_none [] = refl
any_wrote_none (key ∷ keys) = any_wrote_none keys

-- A delivery that may not write the keys of a patch that change.
pub data IsBarred {V : Type 0} (values entries : List (Text × V)) (d : DeliveryContext)
    : Type 0 where
  too_deep : max_cascade_depth < d.depth + 1 → IsBarred values entries d
  echo :
      (key : Text)
      → d.same_engine ≡ true
      → contains d.origin_keys key ≡ true
      → Changes values entries key
      → IsBarred values entries d

module _ {V : Type 0} where
  pub any_wrote_cons :
      (x : Text) (v : V) (changed : List (Text × V)) (keys : List Text)
      → any_wrote (writes ((x, v) ∷ changed)) keys
        ≡ (contains keys x || any_wrote (writes changed) keys)
  any_wrote_cons x v changed [] = refl
  any_wrote_cons x v changed (key ∷ keys) =
      ground (arith, any_wrote_cons x v changed keys, text_eqb_iff x key, text_eqb_iff key x)

  any_key-any_wrote :
      ⦃same : Key V⦄ (keys : List Text) (changed : List (Text × V))
      → any_key keys changed ≡ any_wrote (writes changed) keys
  any_key-any_wrote keys [] = sym (any_wrote_none keys)
  any_key-any_wrote keys ((x, v) ∷ changed) =
      ap (λ (t : Bool). contains keys x || t) (any_key-any_wrote keys changed)
      ∙ sym (any_wrote_cons x v changed keys)

  module _ ⦃same : Key V⦄ where
    module _ (values entries : List (Text × V)) (p : IsPatch entries) where
      guard_fails-IsBarred :
          (d : DeliveryContext)
          → guard_fails (changed_entries values entries) (some d) ≡ true
          → IsBarred values entries d
      unfolding guard_fails
      guard_fails-IsBarred d h =
          let changed = changed_entries values entries in
          elim (Bool-cases (ltb max_cascade_depth (d.depth + 1))) [
            | inl deep ↦ too_deep (ltb→lt max_cascade_depth (d.depth + 1) deep)
            | inr shallow ↦
                let wrote : any_wrote (writes changed) d.origin_keys ≡ true =
                  ground (arith, h, shallow, any_key-any_wrote d.origin_keys changed) in
                let (key, member, w) = any_wrote_key (writes changed) d.origin_keys wrote in
                echo key (ground (arith, h, shallow)) member
                  ((changed_entries-Changes values entries key p).0 w)
          ]

      IsBarred-guard_fails :
          (d : DeliveryContext)
          → IsBarred values entries d
          → guard_fails (changed_entries values entries) (some d) ≡ true
      unfolding guard_fails
      IsBarred-guard_fails d (too_deep deep) = ground (arith, deep)
      IsBarred-guard_fails d (echo key here member c) =
          let changed = changed_entries values entries in
          ground (
            arith,
            here,
            any_key-any_wrote d.origin_keys changed,
            written_at (writes changed) d.origin_keys key member
                ((changed_entries-Changes values entries key p).1 c),
          )

    -- A commit throws when something changes and the guard fails.
    commit-refused :
        (changed : List (Text × V)) (nodes : ℕ) (context : Option DeliveryContext)
        (e : StoreEngine V)
        → commit changed nodes context e ≡ thrown
        → (changed ≢ [])
          × ((d : DeliveryContext) × (context ≡ some d) × (guard_fails changed (some d) ≡ true))
    unfolding commit
    commit-refused [] nodes context e h = absurd (cc (h))
    commit-refused (entry ∷ changed) nodes none e h = absurd (cc (h))
    commit-refused (entry ∷ changed) nodes (some d) e h =
        elim (Bool-cases (guard_fails (entry ∷ changed) (some d))) [
          | inl fails ↦ (λ (q : entry ∷ changed ≡ []). cc (q), (d, refl, fails))
          | inr passes ↦
              let after = written (entry ∷ changed) nodes (some d) e in
              let returned : commit (entry ∷ changed) nodes (some d) e
                  ≡ done (after, after.commits) =
                rw (passes, commit) refl in
              absurd (cc (returned, h))
        ]

    refused-commit :
        (changed : List (Text × V)) (nodes : ℕ) (d : DeliveryContext) (e : StoreEngine V)
        → changed ≢ []
        → guard_fails changed (some d) ≡ true
        → commit changed nodes (some d) e ≡ thrown
    unfolding commit
    refused-commit [] nodes d e some_changed fails = absurd (some_changed refl)
    refused-commit (entry ∷ changed) nodes d e some_changed fails = rw (fails, commit) refl

    set_entries-branch :
        (entries : List (Text × V)) (nodes : ℕ) (context : Option DeliveryContext)
        (e : StoreEngine V) (t : Bool)
        → (e.closed || not (all_known e.values entries)) ≡ t
        → set_entries entries nodes context e
          ≡ (if t then thrown else commit (changed_entries e.values entries) nodes context e)
    unfolding set_entries
    set_entries-branch entries nodes context e t h =
        ap
          (λ (u : Bool).
            if u then thrown else commit (changed_entries e.values entries) nodes context e)
          h

    -- The patch names a key that the engine does not know.
    abbrev pub NamesUnknown : List (Text × V) → List (Text × V) → Type 0
    NamesUnknown values entries =
        (key : Text) × ((lookup key entries ≢ none) × (lookup key values ≡ none))

    unknown_named :
        (values entries : List (Text × V))
        → IsPatch entries
        → all_known values entries ≡ false
        → NamesUnknown values entries
    unknown_named values [] p h = absurd (cc (h))
    unknown_named values ((x, v) ∷ entries) (one_entry once rest) h =
        elim (Option-cases (lookup x values)) [
          | inl missing ↦ (
            x,
            (
              λ (q : lookup x ((x, v) ∷ entries) ≡ none).
                  absurd (ground (arith, q, text_eqb_iff x x)),
              missing,
            ),
          )
          | inr (old, there) ↦
              let (key, (named, missing)) =
                unknown_named values entries rest (ground (arith, h, there)) in
              (
                key,
                (λ (q : lookup key ((x, v) ∷ entries) ≡ none). named (ground (arith, q)), missing),
              )
        ]

    named_unknown :
        (values entries : List (Text × V)) (key : Text)
        → lookup key entries ≢ none
        → lookup key values ≡ none
        → all_known values entries ≡ false
    named_unknown values [] key named missing = absurd (named refl)
    named_unknown values ((x, v) ∷ entries) key named missing = elim (Bool-cases (text_eqb x key)) [
      | inl here ↦
          let gone : lookup x values ≡ none =
            ap (λ k. lookup k values) ((text_eqb_iff x key).0 here) ∙ missing in
          ground (arith, gone)
      | inr elsewhere ↦
          let later : lookup key entries ≢ none = λ q. named (ground (arith, q, elsewhere)) in
          ground (arith, named_unknown values entries key later missing)
    ]

    -- On the entries of a captured patch, a call of `set` throws exactly when the engine is closed, the
    -- patch names a key that is unknown, or the patch gives some key a value that it does not have and
    -- the call is made in a delivery that is at the depth limit or that follows, in the same engine, a
    -- key that changes.
    pub set_entries-thrown_iff :
        (entries : List (Text × V)) (nodes : ℕ) (context : Option DeliveryContext)
        (e : StoreEngine V)
        → IsPatch entries
        → (set_entries entries nodes context e ≡ thrown) ↔ (
            (e.closed ≡ true)
            ⊎ (NamesUnknown e.values entries
                ⊎ (((key : Text) × Changes e.values entries key)
                    × ((d : DeliveryContext) × (context ≡ some d) × IsBarred e.values entries d))))
    set_entries-thrown_iff entries nodes context e p =
        let changed = changed_entries e.values entries in
        let branch = set_entries-branch entries nodes context e in
        elim (Bool-cases e.closed) [
          | inl shut ↦ (λ h. inl shut, λ h. branch true (ground (arith, shut)))
          | inr ready ↦ elim (Bool-cases (all_known e.values entries)) [
            | inr unknown ↦ (
              λ h. inr (inl (unknown_named e.values entries p unknown)),
              λ h. branch true (ground (arith, unknown)),
            )
            | inl known ↦
                let passed : set_entries entries nodes context e ≡ commit changed nodes context e =
                  branch false (ground (arith, ready, known)) in
                (
                  λ h.
                      let (some_changed, (d, is, fails)) =
                        commit-refused changed nodes context e (sym passed ∙ h) in
                      inr (
                        inr (
                          changed_entries-some e.values entries p some_changed,
                          (d, is, guard_fails-IsBarred e.values entries p d fails),
                        )),
                  λ h. elim h [
                    | inl shut ↦ absurd (cc (shut, ready))
                    | inr (inl (key, (named, missing))) ↦
                        absurd (cc (known, named_unknown e.values entries key named missing))
                    | inr (inr ((key, c), (d, is, b))) ↦
                        passed
                        ∙ ap (λ (x : Option DeliveryContext). commit changed nodes x e) is
                        ∙ refused-commit changed nodes d e
                            (λ q. changed_entries-none e.values entries key p q c)
                            (IsBarred-guard_fails e.values entries p d b)
                  ],
                )
          ]
        ]
