-- ===== src/Quotes/Buckets.antt =====
-- The cache against the list of the quotes that it accepted.
use vi_xauusd.Prelude.{
  ltb, ◌==◌, if◌then◌else◌, is_some, or_else, Bool-cases, length, ℕ, zero, suc, ◌-◌, ◌≤◌, ◌≡◌, refl,
  ap, ◌∙◌, inl, inr, Bool, true, false, ◌&&◌, Option, none, some, List, [], ◌∷◌, arith,
}
use vi_xauusd.Quotes.{
  Tick, QuoteCache, empty_cache, max_buckets, mid, is_valid, bucket_of, take, greater, lesser,
  close_range, store, is_repeated, add_at, add_time, add, current_bucket_range,
}

-- The accepted quotes, the newest first: the bucket of each, its middle and its own time.
abbrev pub Log : Type 0
Log = List (ℕ × ℕ × ℕ)

abbrev combine : (ℕ → ℕ → ℕ) → Option ℕ → ℕ → ℕ
combine f none m = m
combine f (some x) m = f x m

-- The extreme of the newest quotes that lie in one bucket.
pub extreme : (ℕ → ℕ → ℕ) → ℕ → Log → Option ℕ
extreme f b [] = none
extreme f b ((c, m, t) ∷ log) =
    let rest = extreme f b log in if c == b then some (combine f rest m) else none

-- What the cache should answer.
abbrev pub range_of : Log → Option ℕ
range_of [] = none
range_of ((b, m, t) ∷ log) = some (
    or_else (extreme greater b ((b, m, t) ∷ log)) 0
    - or_else (extreme lesser b ((b, m, t) ∷ log)) 0)

-- Each quote is at least as new as the one before.
abbrev pub IsForward : Log → Type 0
IsForward [] = Unit
IsForward ((b, m, t) ∷ []) = Unit
IsForward ((b, m, t) ∷ (c, n, s) ∷ log) = (s ≤ t) × IsForward ((c, n, s) ∷ log)

abbrev Agrees : QuoteCache → Log → Type 0
Agrees c [] =
    (c.last_tick ≡ none) × (c.bucket_start ≡ none) × (c.bucket_hi ≡ none) × (c.bucket_lo ≡ none)
Agrees c ((b, m, t) ∷ log) =
    (is_some c.last_tick ≡ true)
    × (c.last_time ≡ t)
    × (c.bucket_start ≡ some b)
    × (c.bucket_hi ≡ extreme greater b ((b, m, t) ∷ log))
    × (c.bucket_lo ≡ extreme lesser b ((b, m, t) ∷ log))

pub record Refines (c : QuoteCache) (log : Log) : Type 0 where
  pub agrees : Agrees c log
  pub forward : IsForward log
  pub bounded : length c.closed_ranges ≤ max_buckets

length-take : (n : ℕ) (xs : List ℕ) → length (take n xs) ≤ n
length-take zero xs = omega arith
length-take (suc n) [] = omega arith
length-take (suc n) (x ∷ xs) = omega (arith, length-take n xs)

close_range_bounded :
    (hi lo : Option ℕ) (ranges : List ℕ)
    → length ranges ≤ max_buckets
    → length (close_range hi lo ranges) ≤ max_buckets
unfolding close_range
close_range_bounded none lo ranges h = h
close_range_bounded (some x) none ranges h = h
close_range_bounded (some x) (some y) ranges h = length-take max_buckets ((x - y) ∷ ranges)

store_bounded :
    (c : QuoteCache) (now event_time : ℕ) (t : Tick)
    → length c.closed_ranges ≤ max_buckets
    → length (store c now event_time t).closed_ranges ≤ max_buckets
unfolding store
store_bounded c now event_time t h =
    ground (arith, close_range_bounded c.bucket_hi c.bucket_lo c.closed_ranges)

self_eq : (n : ℕ) → (n == n) ≡ true
self_eq n = ground arith

-- The first quote, and the quotes after it.
store_first :
    (c : QuoteCache) (now event_time : ℕ) (t : Tick)
    → Agrees c []
    → Agrees (store c now event_time t) ((bucket_of now, mid t, event_time) ∷ [])
unfolding store extreme
store_first c now event_time t a =
    simp (a.1, self_eq (bucket_of now)) (refl, refl, refl, refl, refl)

store_next :
    (c : QuoteCache) (now event_time b m s : ℕ) (t : Tick) (log : Log)
    → Agrees c ((b, m, s) ∷ log)
    → Agrees (store c now event_time t) ((bucket_of now, mid t, event_time) ∷ (b, m, s) ∷ log)
unfolding store extreme
store_next c now event_time b m s t log a = elim (Bool-cases (b == bucket_of now)) [
  | inl e ↦
      let same : b ≡ bucket_of now = ground arith in
      let hi : c.bucket_hi ≡ some (combine greater (extreme greater (bucket_of now) log) m) =
        (simp (self_eq b) at a.3)
        ∙ ap (λ k. some (combine greater (extreme greater k log) m)) same in
      let lo : c.bucket_lo ≡ some (combine lesser (extreme lesser (bucket_of now) log) m) =
        (simp (self_eq b) at a.4) ∙ ap (λ k. some (combine lesser (extreme lesser k log) m)) same in
      simp (a.2, e, self_eq (bucket_of now), hi, lo) (refl, refl, refl, refl, refl)
  | inr e ↦ simp (a.2, e, self_eq (bucket_of now)) (refl, refl, refl, refl, refl)
]

store-Refines :
    (c : QuoteCache) (now event_time : ℕ) (t : Tick) (log : Log)
    → Refines c log
    → (is_some c.last_tick && ltb event_time c.last_time) ≡ false
    → Refines (store c now event_time t) ((bucket_of now, mid t, event_time) ∷ log)
store-Refines c now event_time t [] r h = record {
  agrees = store_first c now event_time t r.agrees;
  forward = tt;
  bounded = store_bounded c now event_time t r.bounded;
}
store-Refines c now event_time t ((b, m, s) ∷ log) r h =
    let (present, last, _, _, _) = r.agrees in
    record {
      agrees = store_next c now event_time b m s t log r.agrees;
      forward = (ground (arith, h, present, last), r.forward);
      bounded = store_bounded c now event_time t r.bounded;
    }

-- The log takes the quotes that `add` stores.
pub logged : ℕ → Tick → Option ℕ → Option (QuoteCache × Bool) → Log → Log
logged now t (some event_time) (some (c, true)) log = (bucket_of now, mid t, event_time) ∷ log
logged now t _ _ log = log

abbrev pub after : QuoteCache → Option (QuoteCache × Bool) → QuoteCache
after c none = c
after c (some r) = r.0

-- The calls of `add` one after the other, an exception leaving the cache as it was.
unfoldable pub add_all : List (ℕ × Tick) → QuoteCache × Log → QuoteCache × Log
unfolding logged
add_all [] s = s
add_all ((now, t) ∷ ts) (c, log) =
    add_all ts (after c (add c now t), logged now t t.quote_time (add c now t) log)

add_time-Refines :
    (c : QuoteCache) (now : ℕ) (t : Tick) (o : Option ℕ) (log : Log)
    → Refines c log
    → Refines (after c (add_time c now t o)) (logged now t o (add_time c now t o) log)
unfolding add_time add_at logged
add_time-Refines c now t none log r = r
add_time-Refines c now t (some event_time) log r = elim (Bool-cases (is_valid t)) [
  | inr v ↦ rw v r
  | inl v ↦ elim (Bool-cases (is_some c.last_tick && ltb event_time c.last_time)) [
    | inl late ↦
        simp (v, late) (record { agrees = r.agrees; forward = r.forward; bounded = r.bounded })
    | inr ok ↦ elim (Bool-cases (is_repeated c event_time t)) [
      | inl again ↦
          simp (v, ok, again)
            (record { agrees = r.agrees; forward = r.forward; bounded = r.bounded })
      | inr new ↦ simp (v, ok, new) (store-Refines c now event_time t log r ok)
    ]
  ]
]

-- Whatever quotes arrive, the cache answers as its log of accepted quotes does: the bucket's high and
-- low are those of the newest accepted quotes of one bucket, accepted quotes never go back in time,
-- and at most forty closed ranges are kept.
pub add_all-Refines :
    (ts : List (ℕ × Tick)) (c : QuoteCache) (log : Log)
    → Refines c log
    → Refines (add_all ts (c, log)).0 (add_all ts (c, log)).1
unfolding add_all add
add_all-Refines [] c log r = r
add_all-Refines ((now, t) ∷ ts) c log r =
    add_all-Refines ts (after c (add c now t)) (logged now t t.quote_time (add c now t) log)
      (add_time-Refines c now t t.quote_time log r)

pub range-Refines :
    (c : QuoteCache) (log : Log) → Refines c log → current_bucket_range c ≡ range_of log
unfolding current_bucket_range extreme
range-Refines c [] r = ground (arith, r.agrees)
range-Refines c ((b, m, t) ∷ log) r =
    let (_, _, _, hi, lo) = r.agrees in simp (hi, lo, self_eq b) refl

-- From the empty cache on, whatever quotes arrive and whichever are refused, the range of the bucket
-- is the one of the log of accepted quotes: the greatest minus the least middle among the newest
-- quotes of one bucket. The accepted quotes never go back in time, and at most forty ranges are kept.
pub range-add_all :
    (ts : List (ℕ × Tick))
    → (current_bucket_range (add_all ts (empty_cache, [])).0
        ≡ range_of (add_all ts (empty_cache, [])).1)
      × IsForward (add_all ts (empty_cache, [])).1
      × (length (add_all ts (empty_cache, [])).0.closed_ranges ≤ max_buckets)
range-add_all ts =
    let r =
      add_all-Refines ts empty_cache []
        (record { agrees = (refl, refl, refl, refl); forward = tt; bounded = omega arith }) in
    (
      range-Refines (add_all ts (empty_cache, [])).0 (add_all ts (empty_cache, [])).1 r,
      r.forward,
      r.bounded,
    )
