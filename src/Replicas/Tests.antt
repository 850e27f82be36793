-- ===== src/Replicas/Tests.antt =====
-- The single flight and the ownership of the scheduler at concrete inputs.
use vi_xauusd.Prelude.{
  ltb, ◌==◌, if◌then◌else◌, is_some, and_some, ℕ, ◌+◌, ◌≤◌, ◌<◌, ◌≡◌, refl, Bool, true, false,
  Option, none, some, List, [], ◌∷◌, arith,
}
use vi_xauusd.Replicas.SingleFlight.{
  Event, calls, starts, finishes, reaps, start, call, awaited, begin, finish, reap, step, run,
}
use vi_xauusd.Replicas.Ownership.{Redis, System}
use vi_xauusd.Replicas.Ownership.Exclusive.{IsRedis, run-exclusive}
use vi_xauusd.Replicas.SingleFlight.Exclusion.{run-single}
use vi_xauusd.Replicas.Ownership

-- The second call joins the first, and the third finds it done but not reaped.
abbrev three_calls : List Event
three_calls =
    calls 7 "XAUUSD:0"
    ∷ starts 0
    ∷ calls 7 "XAUUSD:0"
    ∷ finishes 0
    ∷ calls 7 "XAUUSD:0"
    ∷ reaps 0
    ∷ calls 7 "XAUUSD:1"
    ∷ []

-- The task that the third call launches.
abbrev second : ℕ
second = 1

run-single_example :
    (second ≡ second)
    × (awaited (run start three_calls) 7 "XAUUSD:0"
        < (call (run start three_calls) 7 "XAUUSD:0").next)
    × ((call (run start three_calls) 7 "XAUUSD:0").done
          (awaited (run start three_calls) 7 "XAUUSD:0")
        ≡ false)
    × ((call (run start three_calls) 7 "XAUUSD:0").key_of
          (awaited (run start three_calls) 7 "XAUUSD:0")
        ≡ "XAUUSD:0")
unfolding run step call begin finish reap
run-single_example =
    run-single 7 7 three_calls "XAUUSD:0" second second
      (refl, (refl, (refl, (refl, (refl, (refl, (refl, tt))))))) (omega arith) (omega arith) refl
      refl refl

three_calls_collapsed : (run start three_calls).collapsed_count ≡ 1
unfolding run step call begin finish reap
three_calls_collapsed = refl

-- On another loop, the task of the first loop is not joined.
two_loops : (run start (calls 7 "XAUUSD:0" ∷ calls 8 "XAUUSD:0" ∷ [])).next ≡ 2
unfolding run step call
two_loops = refl

-- A key and when it expires, if it is there.
abbrev Cell : Type 0
Cell = Option (ℕ × ℕ)

abbrev value_at : Cell → ℕ → Option ℕ
value_at none t = none
value_at (some (k, expiry)) t = if ltb t expiry then some k else none

abbrev set_cell : Cell → ℕ → ℕ → ℕ → Bool × Cell
set_cell c now i ttl = if is_some (value_at c now) then (false, c) else (true, some (i, now + ttl))

abbrev extend_cell : Cell → ℕ → ℕ → ℕ → Bool × Cell
extend_cell c now i ttl =
    if and_some (value_at c now) (λ k. k == i) then (true, some (i, now + ttl)) else (false, c)

abbrev delete_cell : Cell → ℕ → ℕ → Cell
delete_cell c now i = if and_some (value_at c now) (λ k. k == i) then none else c

abbrev cell : Redis Cell
cell = record { value = value_at; set_nx = set_cell; extend = extend_cell; delete = delete_cell }

cell_set :
    (c : Cell) (now i ttl : ℕ)
    → (set_cell c now i ttl).0 ≡ true
    → (value_at c now ≡ none)
      × ((t : ℕ) → now ≤ t → t < now + ttl → value_at (set_cell c now i ttl).1 t ≡ some i)
cell_set none now i ttl h = (refl, λ t from until. ground (arith, until))
cell_set (some (k, e)) now i ttl h = (ground (arith, h), λ t from until. ground (arith, h, until))

cell_set_refused :
    (c : Cell) (now i ttl t : ℕ)
    → (set_cell c now i ttl).0 ≡ false
    → value_at (set_cell c now i ttl).1 t ≡ value_at c t
cell_set_refused none now i ttl t h = absurd (ground (arith, h))
cell_set_refused (some (k, e)) now i ttl t h = ground (arith, h)

cell_extend :
    (c : Cell) (now i ttl : ℕ)
    → (extend_cell c now i ttl).0 ≡ true
    → (value_at c now ≡ some i)
      × ((t : ℕ) → now ≤ t → t < now + ttl → value_at (extend_cell c now i ttl).1 t ≡ some i)
cell_extend none now i ttl h = absurd (ground (arith, h))
cell_extend (some (k, e)) now i ttl h =
    (ground (arith, h), λ t from until. ground (arith, h, until))

cell_extend_refused :
    (c : Cell) (now i ttl t : ℕ)
    → (extend_cell c now i ttl).0 ≡ false
    → value_at (extend_cell c now i ttl).1 t ≡ value_at c t
cell_extend_refused none now i ttl t h = refl
cell_extend_refused (some (k, e)) now i ttl t h = ground (arith, h)

cell_delete :
    (c : Cell) (now i j t : ℕ)
    → value_at c now ≡ some j
    → (j == i) ≡ false
    → value_at (delete_cell c now i) t ≡ value_at c t
cell_delete none now i j t h k = refl
cell_delete (some (k, e)) now i j t h d = ground (arith, h, d)

cell-IsRedis : IsRedis cell
cell-IsRedis = record {
  set_done = cell_set;
  set_refused = cell_set_refused;
  extend_done = cell_extend;
  extend_refused = cell_extend_refused;
  delete_other = cell_delete;
}

abbrev stopped : System Cell
stopped = record { store = none; now = 100; owned = λ i. false; renewed = λ i. 0 }

-- The first owner is gone when the second one takes over.
abbrev handover : List Ownership.Event
handover =
    Ownership.Event.acquires 1
    ∷ Ownership.Event.acquires 2
    ∷ Ownership.Event.waits 40
    ∷ Ownership.Event.renews 1
    ∷ Ownership.Event.releases 1
    ∷ Ownership.Event.waits 10
    ∷ Ownership.Event.acquires 2
    ∷ []

abbrev replica : ℕ
replica = 2

run-exclusive_example :
    (replica ≡ replica)
    × (value_at
          (Ownership.run cell 120 stopped handover).store
          (Ownership.run cell 120 stopped handover).now
        ≡ some replica)
unfolding Ownership.run Ownership.step Ownership.acquire Ownership.renew Ownership.fail
    Ownership.release Ownership.answered
run-exclusive_example =
    run-exclusive cell 120 stopped handover replica replica cell-IsRedis (λ k. refl) refl refl
      (omega arith) (omega arith)
