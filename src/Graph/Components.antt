-- ===== src/Graph/Components.antt =====
-- `graphComponents` of packages/core/src/features/composition-semantics/graph-components.ts: strongly
-- connected components by two iterative passes. A stack is a list with its top in front; a `Uint8Array`
-- of marks is a list of numbers, written within its bounds only.
use get_modular.Base.{
  ℕ, zero, suc, ◌+◌, List, [], ◌∷◌, ◌++◌, none, some, Bool, true, false, ◌==◌, number_key,
  if◌then◌else◌, ltb, get_elem?, set, length, max, sort,
}
use get_modular.Base.Outcome.{Outcome, done, out_of_fuel, defined, ◌>>=◌}

abbrev pub Adjacency : Type 0
Adjacency = List (List ℕ)

-- `new Uint8Array(length)`
unfoldable pub zeros {ℓ} : {A : Type ℓ} → List A → List ℕ
zeros [] = []
zeros (x ∷ xs) = 0 ∷ zeros xs

-- `marks[vertex] === 1`
unfoldable pub marked : List ℕ → ℕ → Bool
marked marks vertex = elim (get_elem? marks vertex) [ none ↦ false | some m ↦ m == 1 ]

pub record Traversal : Type 0 where
  pub seen : List ℕ
  pub finish : List ℕ
  pub frames : List (ℕ × ℕ)
  pub edge_visits : ℕ
  pub peak_frames : ℕ

-- Mark a vertex and push its frame.
unfoldable pub open_vertex : ℕ → Traversal → Traversal
open_vertex vertex t = record t {
  seen = set t.seen vertex 1;
  frames = (vertex, 0) ∷ t.frames;
  peak_frames = max t.peak_frames (suc (length t.frames));
}

unfoldable pub open_unseen : ℕ → Traversal → Traversal
open_unseen vertex t = if marked t.seen vertex then t else open_vertex vertex t

-- One round of the inner `while` loop, for the frame on top.
unfoldable pub visit_frame : Adjacency → ℕ → ℕ → List (ℕ × ℕ) → Traversal → Outcome Traversal
visit_frame outgoing vertex next rest t = do
  adjacent ← defined (get_elem? outgoing vertex)
  elim (next == length adjacent) [
    | true ↦ done (record t { finish = t.finish ++ vertex ∷ []; frames = rest })
    | false ↦ do
      target ← defined (get_elem? adjacent next)
      done (
          open_unseen target
            (record t { frames = (vertex, next + 1) ∷ rest; edge_visits = t.edge_visits + 1 }))
  ]

-- Each round passes an edge or closes a vertex, so `rounds` of them are enough.
unfoldable pub visit : Adjacency → ℕ → Traversal → Outcome Traversal
visit outgoing zero t = out_of_fuel
visit outgoing (suc fuel) t = elim t.frames [
  | [] ↦ done t
  | frame ∷ rest ↦ visit_frame outgoing frame.0 frame.1 rest t >>= visit outgoing fuel
]

unfoldable pub rounds : Adjacency → ℕ
rounds [] = 1
rounds (adjacent ∷ graph) = suc (length adjacent + rounds graph)

unfoldable pub visit_root : Adjacency → ℕ → Traversal → Outcome Traversal
visit_root outgoing root t = elim (marked t.seen root) [
  | true ↦ done t
  | false ↦ visit outgoing (rounds outgoing) (open_vertex root t)
]

-- The first pass over the roots from `root` on, one for each element of the second argument.
unfoldable pub first_pass : Adjacency → Adjacency → ℕ → Traversal → Outcome Traversal
first_pass outgoing [] root t = done t
first_pass outgoing (_ ∷ remaining) root t =
    visit_root outgoing root t >>= first_pass outgoing remaining (root + 1)

pub record Collection : Type 0 where
  pub seen : List ℕ
  pub pending : List ℕ
  pub component : List ℕ
  pub edge_visits : ℕ
  pub peak_frames : ℕ

unfoldable pub collect_vertex : ℕ → Collection → Collection
collect_vertex vertex c = record c {
  seen = set c.seen vertex 1;
  pending = vertex ∷ c.pending;
  peak_frames = max c.peak_frames (suc (length c.pending));
}

-- The `for` loop over the adjacent vertices.
unfoldable pub collect_targets : List ℕ → Collection → Collection
collect_targets [] c = c
collect_targets (target ∷ targets) c =
    let c' = record c { edge_visits = c.edge_visits + 1 } in
    collect_targets targets (if marked c.seen target then c' else collect_vertex target c')

-- Each round closes a vertex that was marked once.
unfoldable pub collect : Adjacency → ℕ → Collection → Outcome Collection
collect incoming zero c = out_of_fuel
collect incoming (suc fuel) c = elim c.pending [
  | [] ↦ done c
  | vertex ∷ rest ↦ do
    targets ← defined (get_elem? incoming vertex)
    collect incoming fuel (
        collect_targets targets
          (record c { pending = rest; component = c.component ++ vertex ∷ [] }))
]

unfoldable pub collect_root :
    Adjacency → ℕ → List (List ℕ) × Collection → Outcome (List (List ℕ) × Collection)
collect_root incoming root (members, c) = elim (marked c.seen root) [
  | true ↦ done (members, c)
  | false ↦ do
    c' ← collect incoming (rounds incoming) (collect_vertex root (record c { component = [] }))
    done (members ++ sort ltb c'.component ∷ [], c')
]

-- The second pass, over the vertices in reverse order of their finish.
unfoldable pub second_pass :
    Adjacency → List ℕ → List (List ℕ) × Collection → Outcome (List (List ℕ) × Collection)
second_pass incoming [] found = done found
second_pass incoming (root ∷ roots) found =
    collect_root incoming root found >>= second_pass incoming roots

unfoldable pub reverse_onto {ℓ} : {A : Type ℓ} → List A → List A → List A
reverse_onto [] ys = ys
reverse_onto (x ∷ xs) ys = reverse_onto xs (x ∷ ys)

-- The comparator of `members.sort`. Components are not empty.
unfoldable pub least_lt : List ℕ → List ℕ → Bool
least_lt (a ∷ xs) (b ∷ ys) = ltb a b
least_lt _ _ = false

pub record GraphComponents : Type 0 where
  pub members : List (List ℕ)
  pub edge_visits : ℕ
  pub peak_frames : ℕ

unfoldable pub graph_components : Adjacency → Adjacency → Outcome GraphComponents
graph_components outgoing incoming = do
  t ←
      first_pass outgoing outgoing 0 (record {
        seen = zeros outgoing;
        finish = [];
        frames = [];
        edge_visits = 0;
        peak_frames = 0;
      })
  found ← second_pass incoming (reverse_onto t.finish []) (
    [],
    record {
      seen = zeros outgoing;
      pending = [];
      component = [];
      edge_visits = t.edge_visits;
      peak_frames = t.peak_frames;
    },
  )
  done (record {
    members = sort least_lt found.0;
    edge_visits = found.1.edge_visits;
    peak_frames = found.1.peak_frames;
  })
