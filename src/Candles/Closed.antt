-- ===== src/Candles/Closed.antt =====
-- app/services/closed_candle_service.py: the newest candle that is closed at the time of a decision.
-- A time that cannot be read is none.
use vi_xauusd.Prelude.{
  ltb, leb, ◌==◌, if◌then◌else◌, is_some, and_some, Bool-cases, any, All, ℕ, ◌+◌, ◌≤◌, String, ◌≡◌,
  refl, ◌⊎◌, inl, inr, Bool, true, false, not, ◌&&◌, Option, none, some, List, [], ◌∷◌, arith,
  str_eq,
}
use mathlib.Core.Path.{subst}

pub record Bar : Type 0 where
  pub times : Option (ℕ × ℕ)
  pub bar_closed : Bool
  pub bar_price : ℕ
  pub bar_provider : String

pub data Reason : Type 0 where
  parse_error data_gap timestamp_mismatch : Reason

pub record Snapshot : Type 0 where
  pub opened : Option ℕ
  pub closed_at : Option ℕ
  pub price : Option ℕ
  pub has_closed : Bool
  pub available : Bool
  pub error_reason : Option Reason
  pub source : Option String

-- A candidate: its open, its close and its bar.
abbrev pub Candidate : Type 0
Candidate = ℕ × ℕ × Bar

unfoldable pub candidate_of : ℕ → Bar → Option (ℕ × ℕ) → Option Candidate
candidate_of now b none = none
candidate_of now b (some (o, c)) = if b.bar_closed && leb c now then some (o, c, b) else none

-- `max(candidates, key=…)`, which keeps the first of equal ones.
abbrev pub later_of : Option Candidate → Candidate → Candidate
later_of none x = x
later_of (some (o, c, b)) (p, d, e) = if ltb c d then (p, d, e) else (o, c, b)

-- The body of the loop.
abbrev pub round : Option Candidate → Option Candidate → Option Candidate
round best none = best
round best (some x) = some (later_of best x)

unfoldable pub newest : ℕ → Option Candidate → List Bar → Option Candidate
unfolding candidate_of
newest now best [] = best
newest now best (b ∷ bs) = newest now (round best (candidate_of now b b.times)) bs

abbrev pub no_snapshot : Reason → Snapshot
no_snapshot r = record {
  opened = none;
  closed_at = none;
  price = none;
  has_closed = false;
  available = false;
  error_reason = some r;
  source = none;
}

abbrev pub text_of : String → Option String
text_of s = if str_eq s "" then none else some s

unfoldable pub snapshot_of : Option ℕ → Bool → Option Candidate → Snapshot
snapshot_of seconds has_invalid none = no_snapshot (if has_invalid then parse_error else data_gap)
snapshot_of seconds has_invalid (some (o, c, b)) =
    let fits = not (and_some seconds (λ n. not (c == o + n))) in
    record {
      opened = some o;
      closed_at = some c;
      price = some b.bar_price;
      has_closed = true;
      available = fits;
      error_reason = if fits then none else some timestamp_mismatch;
      source = text_of b.bar_provider;
    }

-- `seconds` is the length of the timeframe, where `TIMEFRAME_MINUTES` has it.
unfoldable pub latest : Option ℕ → ℕ → List Bar → Snapshot
unfolding newest snapshot_of
latest seconds now bs =
    snapshot_of seconds (any (λ b. not (is_some b.times)) bs) (newest now none bs)

-- The close of a bar that may count at a time.
abbrev pub IsCounted : ℕ → Bar → ℕ → ℕ → Type 0
IsCounted now b o c = (b.times ≡ some (o, c)) × (b.bar_closed ≡ true) × (c ≤ now)

-- A choice that is no older than a time.
abbrev Reaches : Option Candidate → ℕ → Type 0
Reaches none d = ⊥
Reaches (some (o, c, b)) d = d ≤ c

abbrev IsGood : ℕ → Option Candidate → Type 0
IsGood now none = Unit
IsGood now (some (o, c, b)) = IsCounted now b o c

candidate-IsGood :
    (now : ℕ) (b : Bar) (t : Option (ℕ × ℕ)) → b.times ≡ t → IsGood now (candidate_of now b t)
unfolding candidate_of
candidate-IsGood now b none e = tt
candidate-IsGood now b (some (o, c)) e = elim (Bool-cases (b.bar_closed && leb c now)) [
  | inl h ↦ simp h (e, ground (arith, h), ground (arith, h))
  | inr h ↦ simp h tt
]

later_of-Reaches :
    (best : Option Candidate) (x : Candidate) (d : ℕ)
    → Reaches best d ⊎ Reaches (some x) d
    → Reaches (some (later_of best x)) d
later_of-Reaches none (p, c, e) d (inl h) = absurd h
later_of-Reaches none (p, c, e) d (inr h) = h
later_of-Reaches (some (o, b, a)) (p, c, e) d h = ground (arith, h)

later_of-IsGood :
    (now : ℕ) (best : Option Candidate) (x : Candidate)
    → IsGood now best
    → IsGood now (some x)
    → IsGood now (some (later_of best x))
later_of-IsGood now none x h k = k
later_of-IsGood now (some (o, b, a)) (p, c, e) h k = elim (Bool-cases (ltb b c)) [
  | inl l ↦ simp l k
  | inr l ↦ simp l h
]

round-Reaches :
    (best x : Option Candidate) (d : ℕ) → Reaches best d ⊎ Reaches x d → Reaches (round best x) d
round-Reaches best none d (inl h) = h
round-Reaches best none d (inr h) = absurd h
round-Reaches best (some x) d h = later_of-Reaches best x d h

round-IsGood :
    (now : ℕ) (best x : Option Candidate)
    → IsGood now best
    → IsGood now x
    → IsGood now (round best x)
round-IsGood now best none h k = h
round-IsGood now best (some x) h k = later_of-IsGood now best x h k

counted-Reaches :
    (now : ℕ) (b : Bar) (p d : ℕ) → IsCounted now b p d → Reaches (candidate_of now b b.times) d
unfolding candidate_of
counted-Reaches now b p d h =
    let ok : leb d now ≡ true = ground (arith, h.2) in rw h.0 (simp (h.1, ok) (omega arith))

newest-Reaches :
    (now : ℕ) (best : Option Candidate) (bs : List Bar) (d : ℕ)
    → Reaches best d
    → Reaches (newest now best bs) d
unfolding newest
newest-Reaches now best [] d h = h
newest-Reaches now best (b ∷ bs) d h =
    newest-Reaches now (round best (candidate_of now b b.times)) bs d
      (round-Reaches best (candidate_of now b b.times) d (inl h))

newest_covers :
    (now : ℕ) (best : Option Candidate) (bs : List Bar)
    → All (λ b. (p d : ℕ) → IsCounted now b p d → Reaches (newest now best bs) d) bs
unfolding newest
newest_covers now best [] = tt
newest_covers now best (b ∷ bs) = (
  λ p d h.
      newest-Reaches now (round best (candidate_of now b b.times)) bs d
        (round-Reaches best (candidate_of now b b.times) d (inr (counted-Reaches now b p d h))),
  newest_covers now (round best (candidate_of now b b.times)) bs,
)

newest-IsGood :
    (now : ℕ) (best : Option Candidate) (bs : List Bar)
    → IsGood now best
    → IsGood now (newest now best bs)
unfolding newest
newest-IsGood now best [] h = h
newest-IsGood now best (b ∷ bs) h =
    newest-IsGood now (round best (candidate_of now b b.times)) bs
      (round-IsGood now best _ h (candidate-IsGood now b b.times refl))

All-map : (P Q : Bar → Type 0) (bs : List Bar) → ((b : Bar) → P b → Q b) → All P bs → All Q bs
All-map P Q [] f h = tt
All-map P Q (b ∷ bs) f h = (f b h.0, All-map P Q bs f h.1)

snapshot_times :
    (n : ℕ) (x : Bool) (k : Option Candidate) (o c : ℕ)
    → (snapshot_of (some n) x k).available ≡ true
    → (snapshot_of (some n) x k).opened ≡ some o
    → (snapshot_of (some n) x k).closed_at ≡ some c
    → (c ≡ o + n) × ((b : Bar) × (k ≡ some (o, c, b)))
unfolding snapshot_of
snapshot_times n x none o c h p q = absurd (ground (arith, h))
snapshot_times n x (some (u, v, b)) o c h p q =
    let e : u ≡ o = ground (arith, p) in
    let f : v ≡ c = ground (arith, q) in (ground (arith, h, e, f), (b, λ i. some (e i, f i, b)))

-- A snapshot that is available has exactly the length of its timeframe, ended by the time of the
-- decision, and no closed candle that ended by then is newer.
pub latest_lem :
    (n now : ℕ) (bs : List Bar) (o c : ℕ)
    → (latest (some n) now bs).available ≡ true
    → (latest (some n) now bs).opened ≡ some o
    → (latest (some n) now bs).closed_at ≡ some c
    → (c ≡ o + n) × (c ≤ now) × All (λ b. (p d : ℕ) → IsCounted now b p d → d ≤ c) bs
unfolding latest
latest_lem n now bs o c h p q =
    let found =
      snapshot_times n (any (λ b. not (is_some b.times)) bs) (newest now none bs) o c h p q in
    let reaches : (d : ℕ) → Reaches (newest now none bs) d → d ≤ c =
      λ d r. subst (λ (k : Option Candidate). Reaches k d) found.1.1 r in
    (
      found.0,
      (subst (λ (k : Option Candidate). IsGood now k) found.1.1 (newest-IsGood now none bs tt)).2,
      All-map _ _ bs (λ b f u d m. reaches d (f u d m)) (newest_covers now none bs),
    )
