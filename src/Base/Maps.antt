-- ===== src/Base/Maps.antt =====
-- A JavaScript `Map` as an association list in insertion order: `set` on a present key writes in
-- place, on a new key it appends.
use Prim.Native.Nat.{ℕ, ◌+◌}
use mathlib.Core.Path.{◌≡◌, refl}
use mathlib.Core.Bool.{Bool, true, false, ◌||◌}
use mathlib.Core.Option.{Option, none, some}
use mathlib.Core.List.{List, [], ◌∷◌}
use native.Mathlib.Omega.{arith}
use get_modular.Base.Tests.{Key, ◌==◌, if◌then◌else◌}

-- What an entry weighs, if there is one.
abbrev pub weight_of {κ} : {V : Type κ} → (V → ℕ) → Option V → ℕ
weight_of w none = 0
weight_of w (some v) = w v

module _ {ℓ κ} {K : Type ℓ} {V : Type κ} ⦃q : Key K⦄ where
  -- `map.get(key)`
  abbrev pub lookup : K → List (K × V) → Option V
  lookup key [] = none
  lookup key ((present, value) ∷ rest) = if present == key then some value else lookup key rest

  -- `map.set(key, value)`
  abbrev pub insert : K → V → List (K × V) → List (K × V)
  insert key value [] = (key, value) ∷ []
  insert key value ((present, old) ∷ rest) =
      if present == key then (present, value) ∷ rest else (present, old) ∷ insert key value rest

  pub lookup-insert :
      (written read : K) (value : V) (entries : List (K × V))
      → lookup read (insert written value entries)
        ≡ (if written == read then some value else lookup read entries)
  lookup-insert written read value [] = refl
  lookup-insert written read value ((present, old) ∷ rest) = ground (
    arith,
    lookup-insert written read value rest,
    q.same_iff written read,
    q.same_iff present written,
    q.same_iff present read,
  )

  -- The sum of the weights of all values.
  abbrev pub total : (V → ℕ) → List (K × V) → ℕ
  total w [] = 0
  total w ((k, v) ∷ m) = w v + total w m

  pub total-insert :
      (w : V → ℕ) (k : K) (v : V) (m : List (K × V))
      → total w (insert k v m) + weight_of w (lookup k m) ≡ total w m + w v
  total-insert w k v [] = omega arith
  total-insert w k v ((j, u) ∷ m) = ground (arith, total-insert w k v m)

  -- No key stands twice.
  abbrev pub IsMap : List (K × V) → Type κ
  IsMap [] = Unit
  IsMap ((k, v) ∷ m) = (lookup k m ≡ none) × IsMap m

  pub insert-IsMap : (k : K) (v : V) (m : List (K × V)) → IsMap m → IsMap (insert k v m)
  insert-IsMap k v [] h = (refl, tt)
  insert-IsMap k v ((j, w) ∷ m) h =
      ground (arith, q.same_iff j k, q.same_iff k j, lookup-insert k j v m, insert-IsMap k v m h.1)

  -- If each value that a lookup finds weighs nothing, the whole map does.
  pub total-zero :
      (w : V → ℕ) (m : List (K × V))
      → IsMap m
      → ((k : K) (v : V) → lookup k m ≡ some v → w v ≡ 0)
      → total w m ≡ 0
  total-zero w [] h z = refl
  total-zero w ((j, u) ∷ m) h z =
      omega (arith, total-zero w m h.1 (λ k v f. z k v (rest k v f)), z j u here)
    where
      here : lookup j ((j, u) ∷ m) ≡ some u
      here = ground (arith, q.same_iff j j)

      rest : (k : K) (v : V) → lookup k m ≡ some v → lookup k ((j, u) ∷ m) ≡ some v
      rest k v f = ground (arith, q.same_iff j k)

  abbrev pub keys : List (K × V) → List K
  keys [] = []
  keys ((k, v) ∷ m) = k ∷ keys m

abbrev pub contains {ℓ} : {K : Type ℓ} ⦃q : Key K⦄ → List K → K → Bool
contains [] k = false
contains (j ∷ js) k = j == k || contains js k

pub contains-keys {ℓ κ} :
    {K : Type ℓ} {V : Type κ} ⦃q : Key K⦄ (k : K) (v : V) (m : List (K × V))
    → lookup k m ≡ some v
    → contains (keys m) k ≡ true
contains-keys k v [] h = cc
contains-keys k v ((j, w) ∷ m) h = ground (arith, contains-keys k v m)
