-- ===== src/Graph/Queue.antt =====
-- `ReadyQueue` of packages/core/src/features/composition-semantics/ready-queue.ts: a binary heap in an
-- array, with its statistics.
use get_modular.Base.{
  ℕ, zero, suc, ◌+◌, ◌-◌, ◌*◌, ◌/◌, List, [], ◌∷◌, ◌++◌, Option, none, some, true, false,
  if◌then◌else◌, ltb, get_elem?, set, length, max,
}
use get_modular.Base.Outcome.{Outcome, done, out_of_fuel, defined, ◌>>=◌}

pub record ReadyQueue : Type 0 where
  pub items : List ℕ
  pub comparisons : ℕ
  pub peak_size : ℕ

unfoldable pub new_queue : ReadyQueue
new_queue = record { items = []; comparisons = 0; peak_size = 0 }

-- The `while` loop of `push`: `value` is to be written at `index` or above it. The index falls in each
-- round, so `index` rounds and one more are enough.
unfoldable pub sift_up : ℕ → ReadyQueue → ℕ → ℕ → Outcome ReadyQueue
sift_up zero q index value = out_of_fuel
sift_up (suc fuel) q index value = elim (ltb 0 index) [
  | false ↦ done (record q { items = set q.items index value })
  | true ↦ do
    parent ← defined (get_elem? q.items ((index - 1) / 2))
    elim (ltb value parent) [
      | false ↦ done (record q { items = set q.items index value; comparisons = q.comparisons + 1 })
      | true ↦
          sift_up fuel
            (record q { items = set q.items index parent; comparisons = q.comparisons + 1 })
            ((index - 1) / 2) value
    ]
]

unfoldable pub push : ReadyQueue → ℕ → Outcome ReadyQueue
push q value =
    let index = length q.items in
    sift_up (index + 1)
      (record q { items = q.items ++ value ∷ []; peak_size = max q.peak_size (index + 1) }) index
      value

-- `items.pop()`
unfoldable pub pop_last {ℓ} : {A : Type ℓ} → List A → Option (List A × A)
pop_last [] = none
pop_last (x ∷ xs) = elim (pop_last xs) [
  | none ↦ some ([], x)
  | some (rest, last) ↦ some (x ∷ rest, last)
]

-- The smaller child of a parent whose left child stands at `child`, with the comparison counted.
unfoldable pub smaller_child : ReadyQueue → ℕ → Outcome (ReadyQueue × ℕ)
smaller_child q child = elim (ltb (child + 1) (length q.items)) [
  | false ↦ done (q, child)
  | true ↦ do
    right ← defined (get_elem? q.items (child + 1))
    left ← defined (get_elem? q.items child)
    done (
      record q { comparisons = q.comparisons + 1 },
      (if ltb right left then child + 1 else child),
    )
]

-- The `while` loop of `take`: `last` is to be written at `index` or below it.
unfoldable pub sift_down : ℕ → ReadyQueue → ℕ → ℕ → Outcome ReadyQueue
sift_down zero q index last = out_of_fuel
sift_down (suc fuel) q index last = elim (ltb (index * 2 + 1) (length q.items)) [
  | false ↦ done (record q { items = set q.items index last })
  | true ↦ do
    chosen ← smaller_child q (index * 2 + 1)
    least ← defined (get_elem? q.items chosen.1)
    elim (ltb least last) [
      | false ↦
          done (record q { items = set q.items index last; comparisons = chosen.0.comparisons + 1 })
      | true ↦
          sift_down fuel
            (record q { items = set q.items index least; comparisons = chosen.0.comparisons + 1 })
            chosen.1 last
    ]
]

unfoldable pub take : ReadyQueue → Outcome (ReadyQueue × ℕ)
take q = do
  first ← defined (get_elem? q.items 0)
  popped ← defined (pop_last q.items)
  elim (ltb 0 (length popped.0)) [
    | false ↦ done (record q { items = popped.0 }, first)
    | true ↦ do
      rest ← sift_down (length popped.0 + 1) (record q { items = popped.0 }) 0 popped.1
      done (rest, first)
  ]
