-- ===== src/Candles/Load.antt =====
-- What was stored is loaded again.
use vi_xauusd.Prelude.{
  ◌==◌, Bool-cases, length, filter, any, All, length-append, All-append, ℕ, zero, suc, ◌-◌, ◌*◌,
  ◌≤◌, ◌<◌, String, ◌≡◌, refl, sym, ap, ◌∙◌, inl, inr, true, false, none, List, [], ◌∷◌, ◌++◌, map,
  arith, eq_iff,
}
use vi_xauusd.Candles.{
  Key, Candle, Row, row_of, find, store_found, store_candles, is_of, is_before, insert_row,
  newest_first, take, reverse, last_of, unseen, load_candles_from_db,
}
use vi_xauusd.Candles.Store.{}

-- Candles of one symbol, timeframe and provider, each later than those before it.
abbrev pub IsSeries : String → String → String → List Candle → Type 0
IsSeries symbol timeframe provider [] = Unit
IsSeries symbol timeframe provider (c ∷ cs) =
    (c.key.symbol ≡ symbol)
    × (c.key.timeframe ≡ timeframe)
    × (c.key.data_provider ≡ provider)
    × All (λ d. c.key.open_time < d.key.open_time) cs
    × IsSeries symbol timeframe provider cs

abbrev rows_of : ℕ → List Candle → List Row
rows_of now cs = map (row_of now) cs

insert_last :
    (r : Row) (rs : List Row)
    → All (λ x. r.candle.key.open_time < x.candle.key.open_time) rs
    → insert_row r rs ≡ rs ++ (r ∷ [])
unfolding insert_row
insert_last r [] h = refl
insert_last r (x ∷ xs) h =
    let later : is_before r x ≡ false = ground (arith, h.0) in
    simp later (ap (λ (ys : List Row). x ∷ ys) (insert_last r xs h.1))

All-reverse : (P : Row → Type 0) (rs : List Row) → All P rs → All P (reverse rs)
All-reverse P [] h = tt
All-reverse P (r ∷ rs) h = All-append P (reverse rs) (r ∷ []) (All-reverse P rs h.1) (h.0, tt)

later_rows :
    (now : ℕ) (c : Candle) (cs : List Candle)
    → All (λ d. c.key.open_time < d.key.open_time) cs
    → All (λ x. c.key.open_time < x.candle.key.open_time) (rows_of now cs)
later_rows now c [] h = tt
later_rows now c (d ∷ cs) h = (h.0, later_rows now c cs h.1)

newest_first-rows :
    (now : ℕ) (s t p : String) (cs : List Candle)
    → IsSeries s t p cs
    → newest_first (rows_of now cs) ≡ reverse (rows_of now cs)
unfolding newest_first
newest_first-rows now s t p [] h = refl
newest_first-rows now s t p (c ∷ cs) h =
    ap (insert_row (row_of now c)) (newest_first-rows now s t p cs h.4)
    ∙ insert_last (row_of now c) (reverse (rows_of now cs)) (
        All-reverse (λ x. c.key.open_time < x.candle.key.open_time) (rows_of now cs)
          (later_rows now c cs h.3))

filter-rows :
    (now : ℕ) (s t p : String) (cs : List Candle)
    → IsSeries s t p cs
    → filter (is_of s t) (rows_of now cs) ≡ rows_of now cs
filter-rows now s t p [] h = refl
filter-rows now s t p (c ∷ cs) h =
    let kept : is_of s t (row_of now c) ≡ true =
      ground (arith, eq_iff c.key.symbol s, eq_iff c.key.timeframe t, h.0, h.1) in
    simp kept (ap (λ (rs : List Row). row_of now c ∷ rs) (filter-rows now s t p cs h.4))

unseen-append :
    (seen : List ℕ) (rs : List Row) (r : Row)
    → any (λ u. u == r.candle.key.open_time) seen ≡ false
    → All (λ x. r.candle.key.open_time < x.candle.key.open_time) rs
    → unseen seen (rs ++ (r ∷ [])) ≡ unseen seen rs ++ (r.candle ∷ [])
unfolding unseen
unseen-append seen [] r new h = simp new refl
unseen-append seen (x ∷ rs) r new h =
    let differs : (x.candle.key.open_time == r.candle.key.open_time) ≡ false =
      ground (arith, h.0) in
    let rest = unseen-append (x.candle.key.open_time ∷ seen) rs r (simp differs new) h.1 in
    elim (Bool-cases (any (λ u. u == x.candle.key.open_time) seen)) [
      | inl e ↦ simp e rest
      | inr e ↦ simp e (ap (λ (cs : List Candle). x.candle ∷ cs) rest)
    ]

unseen-reverse :
    (now : ℕ) (s t p : String) (cs : List Candle)
    → IsSeries s t p cs
    → unseen [] (reverse (rows_of now cs)) ≡ reverse cs
unfolding unseen
unseen-reverse now s t p [] h = refl
unseen-reverse now s t p (c ∷ cs) h =
    unseen-append [] (reverse (rows_of now cs)) (row_of now c) refl (
      All-reverse (λ x. c.key.open_time < x.candle.key.open_time) (rows_of now cs)
        (later_rows now c cs h.3))
    ∙ ap (λ (ds : List Candle). ds ++ (c ∷ [])) (unseen-reverse now s t p cs h.4)

module _ {ℓ} {A : Type ℓ} where
  reverse-append : (xs : List A) (x : A) → reverse (xs ++ (x ∷ [])) ≡ x ∷ reverse xs
  reverse-append [] x = refl
  reverse-append (y ∷ xs) x = ap (λ (ys : List A). ys ++ (y ∷ [])) (reverse-append xs x)

  reverse-reverse : (xs : List A) → reverse (reverse xs) ≡ xs
  reverse-reverse [] = refl
  reverse-reverse (x ∷ xs) =
      reverse-append (reverse xs) x ∙ ap (λ (ys : List A). x ∷ ys) (reverse-reverse xs)

  take_all : (n : ℕ) (xs : List A) → length xs ≤ n → take n xs ≡ xs
  take_all zero [] h = refl
  take_all zero (x ∷ xs) h = absurd (omega (arith, h))
  take_all (suc n) [] h = refl
  take_all (suc n) (x ∷ xs) h = ap (λ (ys : List A). x ∷ ys) (take_all n xs (omega (arith, h)))

  length-reverse : (xs : List A) → length (reverse xs) ≡ length xs
  length-reverse [] = refl
  length-reverse (x ∷ xs) = omega (arith, length-append (reverse xs) (x ∷ []), length-reverse xs)

  last_of_all : (n : ℕ) (xs : List A) → length xs ≤ n → last_of n xs ≡ xs
  last_of_all n xs h =
      let none_over : length xs - n ≡ 0 = omega (arith, h) in rw none_over (ground arith)

  append_nil : (xs : List A) → xs ++ [] ≡ xs
  append_nil [] = refl
  append_nil (x ∷ xs) = ap (λ (ys : List A). x ∷ ys) (append_nil xs)

  append_assoc : (xs ys zs : List A) → (xs ++ ys) ++ zs ≡ xs ++ (ys ++ zs)
  append_assoc [] ys zs = refl
  append_assoc (x ∷ xs) ys zs = ap (λ (ws : List A). x ∷ ws) (append_assoc xs ys zs)

length-rows : (now : ℕ) (cs : List Candle) → length (rows_of now cs) ≡ length cs
length-rows now [] = refl
length-rows now (c ∷ cs) = ap suc (length-rows now cs)

-- The rows all open before the candles.
IsBelow : List Row → List Candle → Type 0
IsBelow rs [] = Unit
IsBelow rs (c ∷ cs) = All (λ r. r.candle.key.open_time < c.key.open_time) rs × IsBelow rs cs

find-below :
    (k : Key) (rs : List Row)
    → All (λ r. r.candle.key.open_time < k.open_time) rs
    → find k rs ≡ none
unfolding find
find-below k [] h = refl
find-below k (r ∷ rs) h = ground (arith, h.0, find-below k rs h.1)

IsBelow-next :
    (now : ℕ) (rs : List Row) (c : Candle) (cs : List Candle)
    → IsBelow rs cs
    → All (λ d. c.key.open_time < d.key.open_time) cs
    → IsBelow (rs ++ (row_of now c ∷ [])) cs
unfolding IsBelow
IsBelow-next now rs c [] b h = tt
IsBelow-next now rs c (d ∷ cs) b h = (
  All-append (λ r. r.candle.key.open_time < d.key.open_time) rs (row_of now c ∷ []) b.0 (h.0, tt),
  IsBelow-next now rs c cs b.1 h.1,
)

store_series :
    (now : ℕ) (s t p : String) (rs : List Row) (cs : List Candle)
    → IsSeries s t p cs
    → IsBelow rs cs
    → ((store_candles now rs cs).0 ≡ rs ++ rows_of now cs)
      × ((store_candles now rs cs).1 ≡ length cs)
unfolding store_candles store_found IsBelow
store_series now s t p rs [] h b = (sym (append_nil rs), refl)
store_series now s t p rs (c ∷ cs) h b =
    let new = find-below c.key rs b.0 in
    let rest =
      store_series now s t p (rs ++ (row_of now c ∷ [])) cs h.4
        (IsBelow-next now rs c cs b.1 h.3) in
    rw new (rest.0 ∙ append_assoc rs (row_of now c ∷ []) (rows_of now cs), omega (arith, rest.1))

IsBelow-nil : (cs : List Candle) → IsBelow [] cs
unfolding IsBelow
IsBelow-nil [] = tt
IsBelow-nil (c ∷ cs) = (tt, IsBelow-nil cs)

load-rows :
    (now limit : ℕ) (s t p : String) (cs : List Candle)
    → IsSeries s t p cs
    → length cs ≤ limit
    → load_candles_from_db t limit s (rows_of now cs) ≡ cs
unfolding load_candles_from_db
load-rows now limit s t p cs h le =
    let count : length (reverse (rows_of now cs)) ≤ limit * 2 =
      omega (arith, length-reverse (rows_of now cs), length-rows now cs, le) in
    rw (filter-rows now s t p cs h) (
      rw (newest_first-rows now s t p cs h) (
        rw (take_all (limit * 2) (reverse (rows_of now cs)) count)
          (rw (unseen-reverse now s t p cs h) (rw (reverse-reverse cs) (last_of_all limit cs le)))))

-- A series of candles that is stored into an empty table is counted, and loaded again as it was, in
-- order, whenever the limit is at least its length.
pub load-store :
    (now limit : ℕ) (symbol timeframe provider : String) (cs : List Candle)
    → IsSeries symbol timeframe provider cs
    → length cs ≤ limit
    → (load_candles_from_db timeframe limit symbol (store_candles now [] cs).0 ≡ cs)
      × ((store_candles now [] cs).1 ≡ length cs)
load-store now limit symbol timeframe provider cs h le =
    let stored = store_series now symbol timeframe provider [] cs h (IsBelow-nil cs) in
    (
      ap (load_candles_from_db timeframe limit symbol) stored.0
          ∙ load-rows now limit symbol timeframe provider cs h le,
      stored.1,
    )
