-- ===== src/Observation/WrittenKeys.antt =====
-- The keys that a write covers, and who follows them
-- (packages/observation/src/features/store/engine.ts: `set`, `#touch`).
use get_modular.Base.{
  ℕ, ◌≡◌, ◌≢◌, refl, List, [], ◌∷◌, Bool, true, false, arith, text_key, text_eqb, text_eqb_iff,
  Text, contains, inl, inr, Bool-cases, ap, ◌∙◌,
}
use get_modular.Observation.Engine.{Registration}
use get_modular.Observation.Index.{follows}
use get_modular.Observation.Effects.{writes, any_wrote, follows_written}

pub written_at :
    (wrote : Text → Bool) (keys : List Text) (key : Text)
    → contains keys key ≡ true
    → wrote key ≡ true
    → any_wrote wrote keys ≡ true
written_at wrote [] key h w = cc
written_at wrote (k ∷ keys) key h w =
    ground (arith, text_eqb_iff k key, written_at wrote keys key, h, w)

pub unwritten :
    (wrote : Text → Bool) (keys : List Text)
    → ((key : Text) → contains keys key ≡ true → wrote key ≢ true)
    → any_wrote wrote keys ≡ false
unwritten wrote [] h = refl
unwritten wrote (k ∷ keys) h =
    ground (arith, h k, text_eqb_iff k k, unwritten wrote keys (λ key c. h key (ground (arith, c))))

pub any_wrote_key :
    (wrote : Text → Bool) (keys : List Text)
    → any_wrote wrote keys ≡ true
    → (key : Text) × (contains keys key ≡ true) × (wrote key ≡ true)
any_wrote_key wrote [] h = absurd (cc (h))
any_wrote_key wrote (k ∷ keys) h = elim (Bool-cases (wrote k)) [
  | inl here ↦ (k, ground (arith, text_eqb_iff k k), here)
  | inr elsewhere ↦
      let (key, member, w) = any_wrote_key wrote keys (ground (arith, h, elsewhere)) in
      (key, ground (arith, member), w)
]

module _ {V : Type 0} where
  pub follows_written_key :
      (registrations : List (ℕ × Registration)) (changed : List (Text × V)) (id : ℕ)
      → follows_written registrations changed id ≡ true
      → (key : Text) × (writes changed key ≡ true) × (follows registrations key id ≡ true)
  follows_written_key registrations [] id h = absurd (cc (h))
  follows_written_key registrations ((x, v) ∷ changed) id h =
      elim (Bool-cases (follows registrations x id)) [
        | inl here ↦ (x, ground (arith, text_eqb_iff x x), here)
        | inr elsewhere ↦
            let (key, w, f) =
              follows_written_key registrations changed id (ground (arith, h, elsewhere)) in
            (key, ground (arith, w), f)
      ]

  pub key_follows_written :
      (registrations : List (ℕ × Registration)) (changed : List (Text × V)) (id : ℕ) (key : Text)
      → writes changed key ≡ true
      → follows registrations key id ≡ true
      → follows_written registrations changed id ≡ true
  key_follows_written registrations [] id key w f = cc
  key_follows_written registrations ((x, v) ∷ changed) id key w f =
      elim (Bool-cases (text_eqb x key)) [
        | inl here ↦
            let same : follows registrations x id ≡ true =
              ap (λ k. follows registrations k id) ((text_eqb_iff x key).0 here) ∙ f in
            ground (arith, same)
        | inr elsewhere ↦ ground (
          arith,
          key_follows_written registrations changed id key (ground (arith, w, elsewhere)) f,
        )
      ]
