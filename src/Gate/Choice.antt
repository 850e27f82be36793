-- ===== src/Gate/Choice.antt =====
-- The choice among the candidates.
use vi_xauusd.Prelude.{
  ltb, ◌==◌, if◌then◌else◌, length, any, All, ℕ, ◌≤◌, max, ◌≡◌, refl, ◌∙◌, Bool, true, false, not,
  Option, none, some, List, [], ◌∷◌, map, arith,
}
use vi_xauusd.Execution.{}
use vi_xauusd.Gate.{
  Hard, scenario_invalidated, State, blocked, watch, probe_ready, entry_ready, GateSettings,
  Candidate, Situation, hard_blocks, score_of, state_of,
}

-- What `rank` reads of an evaluation.
pub record Evaluation : Type 0 where
  pub candidate : Candidate
  pub state : State
  pub hard : List Hard
  pub score : ℕ

unfoldable pub evaluate : GateSettings → Situation → Candidate → Evaluation
evaluate g s c = record {
  candidate = c;
  state = state_of g c s;
  hard = hard_blocks g c s;
  score = score_of g c s;
}

abbrev pub rank_of : State → ℕ
rank_of blocked = 0
rank_of watch = 1
rank_of probe_ready = 2
rank_of entry_ready = 3

abbrev pub is_invalidation : Hard → Bool
is_invalidation scenario_invalidated = true
is_invalidation _ = false

abbrev pub stands : Evaluation → ℕ
stands e = if any is_invalidation e.hard then 0 else 1

-- The comparison of the tuples, part by part.
unfoldable pub ranks_below : Evaluation → Evaluation → Bool
ranks_below a b =
    if not (rank_of a.state == rank_of b.state)
    then ltb (rank_of a.state) (rank_of b.state)
    else if not (stands a == stands b)
    then ltb (stands a) (stands b)
    else if not (length a.hard == length b.hard)
    then ltb (length b.hard) (length a.hard)
    else ltb a.score b.score

-- `max(…, key=rank, default=None)`, which keeps the first of equal ones.
unfoldable pub best : Option Evaluation → List Evaluation → Option Evaluation
unfolding ranks_below
best o [] = o
best none (e ∷ es) = best (some e) es
best (some b) (e ∷ es) = best (some (if ranks_below b e then e else b)) es

-- `selected`, with `entryState` of it.
unfoldable pub evaluate_entry_opportunity_gate :
    GateSettings → Situation → List Candidate → Option Evaluation
unfolding best evaluate
evaluate_entry_opportunity_gate g s cs = best none (map (evaluate g s) cs)

unfoldable pub entry_state : Option Evaluation → State
entry_state none = watch
entry_state (some e) = e.state

rank_if :
    (t : Bool) (a b : Evaluation)
    → rank_of (if t then b else a).state ≡ (if t then rank_of b.state else rank_of a.state)
rank_if true a b = refl
rank_if false a b = refl

greater_of :
    (x y : ℕ) (rest : Bool) → (if (if not (x == y) then ltb x y else rest) then y else x) ≡ max x y
greater_of x y rest = ground arith

below_rank :
    (a b : Evaluation)
    → rank_of (if ranks_below a b then b else a).state ≡ max (rank_of a.state) (rank_of b.state)
unfolding ranks_below
below_rank a b = rank_if (ranks_below a b) a b ∙ greater_of (rank_of a.state) (rank_of b.state) _

best_top :
    (b : Evaluation) (es : List Evaluation) (n : ℕ)
    → n ≤ rank_of b.state
    → n ≤ rank_of (entry_state (best (some b) es))
unfolding best entry_state
best_top b [] n h = h
best_top b (e ∷ es) n h =
    best_top (if ranks_below b e then e else b) es n (omega (arith, h, below_rank b e))

best-All :
    (b : Evaluation) (es : List Evaluation)
    → All (λ e. rank_of e.state ≤ rank_of (entry_state (best (some b) es))) es
unfolding best
best-All b [] = tt
best-All b (e ∷ es) = (
  best_top (if ranks_below b e then e else b) es (rank_of e.state) (omega (arith, below_rank b e)),
  best-All (if ranks_below b e then e else b) es,
)

All-evaluate :
    (g : GateSettings) (s : Situation) (n : ℕ) (cs : List Candidate)
    → All (λ e. rank_of e.state ≤ n) (map (evaluate g s) cs)
    → All (λ c. rank_of (state_of g c s) ≤ n) cs
unfolding evaluate
All-evaluate g s n [] h = tt
All-evaluate g s n (c ∷ cs) h = (h.0, All-evaluate g s n cs h.1)

-- No candidate, long or short, has a better tier than the one that the gate chooses, so that a
-- candidate that is ready is never passed over for one that only waits.
pub evaluate-top :
    (g : GateSettings) (s : Situation) (cs : List Candidate)
    → All
        (λ c.
          rank_of (state_of g c s) ≤ rank_of (entry_state (evaluate_entry_opportunity_gate g s cs)))
        cs
unfolding evaluate_entry_opportunity_gate best
evaluate-top g s [] = tt
evaluate-top g s (c ∷ cs) = All-evaluate g s _ (c ∷ cs) (
  best_top (evaluate g s c) (map (evaluate g s) cs) _ (omega arith),
  best-All (evaluate g s c) (map (evaluate g s) cs),
)
