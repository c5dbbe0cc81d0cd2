-- ===== src/Diagnostics/Exact.antt =====
-- The ranks of packages/core/src/features/diagnostics/order.ts, read backwards.
use get_modular.Base.{ℕ, List, [], ◌∷◌, get_elem?, Option, some, ◌≡◌, refl, sym, ap, ◌∙◌}
use get_modular.Diagnostics.Types.{
  Code, limit_exceeded, invalid_value, invalid_identity, duplicate_implementation,
  duplicate_capability, duplicate_slot, duplicate_root, unknown_root, duplicate_selection,
  unknown_module, unknown_implementation, implementation_mismatch, missing_selection,
  unreachable_selection, duplicate_record, duplicate_binding, missing_binding, unknown_consumer,
  unknown_slot, unknown_provider, provider_not_selected, cardinality, capability_missing,
  compatibility_mismatch, cycle, truncated, Stage, decode, schema, declaration, profile, binding,
  graph, output,
}
use get_modular.Diagnostics.Ranks.{phase_rank, code_rank}

-- The phases and the codes by rank. No code has rank 31.
abbrev phases : List Stage
phases = decode ∷ schema ∷ declaration ∷ profile ∷ binding ∷ graph ∷ output ∷ []

abbrev codes : List Code
codes =
    Code.invalid_byte_carrier ∷ Code.invalid_json ∷ Code.duplicate_key ∷ limit_exceeded
    ∷ Code.unsupported_version ∷ Code.unknown_field ∷ invalid_value ∷ Code.non_plain_value
    ∷ invalid_identity ∷ duplicate_implementation ∷ duplicate_capability ∷ duplicate_slot
    ∷ duplicate_root ∷ unknown_root ∷ duplicate_selection ∷ unknown_module ∷ unknown_implementation
    ∷ implementation_mismatch ∷ missing_selection ∷ unreachable_selection ∷ duplicate_record
    ∷ duplicate_binding ∷ missing_binding ∷ unknown_consumer ∷ unknown_slot ∷ unknown_provider
    ∷ provider_not_selected ∷ cardinality ∷ capability_missing ∷ compatibility_mismatch ∷ cycle
    ∷ truncated ∷ truncated ∷ []

abbrev phase_at : ℕ → Option Stage
phase_at = get_elem? phases

abbrev code_at : ℕ → Option Code
code_at = get_elem? codes

phase_at-phase_rank : (s : Stage) → phase_at (phase_rank s) ≡ some s
unfolding phase_rank
phase_at-phase_rank decode = refl
phase_at-phase_rank schema = refl
phase_at-phase_rank declaration = refl
phase_at-phase_rank profile = refl
phase_at-phase_rank binding = refl
phase_at-phase_rank graph = refl
phase_at-phase_rank output = refl

code_at-code_rank : (c : Code) → code_at (code_rank c) ≡ some c
unfolding code_rank
code_at-code_rank Code.invalid_byte_carrier = refl
code_at-code_rank Code.invalid_json = refl
code_at-code_rank Code.duplicate_key = refl
code_at-code_rank limit_exceeded = refl
code_at-code_rank Code.unsupported_version = refl
code_at-code_rank Code.unknown_field = refl
code_at-code_rank invalid_value = refl
code_at-code_rank Code.non_plain_value = refl
code_at-code_rank invalid_identity = refl
code_at-code_rank duplicate_implementation = refl
code_at-code_rank duplicate_capability = refl
code_at-code_rank duplicate_slot = refl
code_at-code_rank duplicate_root = refl
code_at-code_rank unknown_root = refl
code_at-code_rank duplicate_selection = refl
code_at-code_rank unknown_module = refl
code_at-code_rank unknown_implementation = refl
code_at-code_rank implementation_mismatch = refl
code_at-code_rank missing_selection = refl
code_at-code_rank unreachable_selection = refl
code_at-code_rank duplicate_record = refl
code_at-code_rank duplicate_binding = refl
code_at-code_rank missing_binding = refl
code_at-code_rank unknown_consumer = refl
code_at-code_rank unknown_slot = refl
code_at-code_rank unknown_provider = refl
code_at-code_rank provider_not_selected = refl
code_at-code_rank cardinality = refl
code_at-code_rank capability_missing = refl
code_at-code_rank compatibility_mismatch = refl
code_at-code_rank cycle = refl
code_at-code_rank truncated = refl

some_injective {ℓ} : {A : Type ℓ} (a b : A) → some a ≡ some b → a ≡ b
some_injective a b h = cc

pub phase_rank-exact : (s t : Stage) → phase_rank s ≡ phase_rank t → s ≡ t
phase_rank-exact s t h =
    some_injective s t (sym (phase_at-phase_rank s) ∙ ap phase_at h ∙ phase_at-phase_rank t)

pub code_rank-exact : (c d : Code) → code_rank c ≡ code_rank d → c ≡ d
code_rank-exact c d h =
    some_injective c d (sym (code_at-code_rank c) ∙ ap code_at h ∙ code_at-code_rank d)
