-- ===== src/Candles/Store.antt =====
-- The table as a register for each key.
use vi_xauusd.Prelude.{
  if◌then◌else◌, is_some, and_some, Bool-cases, filter, All, ℕ, ◌≡◌, refl, sym, ap, ◌∙◌, inl, inr,
  true, false, ◌&&◌, Option, none, some, List, [], ◌∷◌, ◌++◌, arith, eq_iff,
}
use vi_xauusd.Candles.{Key, Candle, Row, row_of, same_key, find, update, store_found, store_candles}

pub same_key_refl : (k : Key) → same_key k k ≡ true
same_key_refl k = ground (
  arith,
  eq_iff k.symbol k.symbol,
  eq_iff k.timeframe k.timeframe,
  eq_iff k.data_provider k.data_provider,
)

same_key_path : (a b : Key) → same_key a b ≡ true → a ≡ b
same_key_path a b h =
    λ i. record { symbol = p.0 i; timeframe = p.1 i; open_time = p.2 i; data_provider = p.3 i }
  where
    p :
        (a.symbol ≡ b.symbol)
        × (a.timeframe ≡ b.timeframe)
        × (a.open_time ≡ b.open_time)
        × (a.data_provider ≡ b.data_provider)
    p = ground (
      arith,
      eq_iff a.symbol b.symbol,
      eq_iff a.timeframe b.timeframe,
      eq_iff a.data_provider b.data_provider,
    )

-- What a key holds after one more candle of that key: a closed candle stays under a closed one.
abbrev pub put : ℕ → Option Row → Candle → Option Row
put now o c = if and_some o (λ r. r.candle.is_closed) && c.is_closed then o else some (row_of now c)

abbrev pub put_all : ℕ → Option Row → List Candle → Option Row
put_all now o [] = o
put_all now o (c ∷ cs) = put_all now (put now o c) cs

find-append :
    (k : Key) (rs : List Row) (r : Row)
    → find k (rs ++ (r ∷ [])) ≡ (
        if is_some (find k rs) then find k rs else if same_key k r.candle.key then some r else none)
unfolding find
find-append k [] r = ground arith
find-append k (x ∷ rs) r = ground (arith, find-append k rs r)

find-update-same :
    (new : Row) (rs : List Row)
    → is_some (find new.candle.key rs) ≡ true
    → find new.candle.key (update new rs) ≡ some new
unfolding find update
find-update-same new [] h = absurd (ground arith)
find-update-same new (r ∷ rs) h =
    ground (arith, find-update-same new rs, same_key_refl new.candle.key)

find-update-other :
    (k : Key) (new : Row) (rs : List Row)
    → same_key k new.candle.key ≡ false
    → find k (update new rs) ≡ find k rs
unfolding find update
find-update-other k new [] h = refl
find-update-other k new (r ∷ rs) h = elim (Bool-cases (same_key new.candle.key r.candle.key)) [
  | inl e ↦
      let other : same_key k r.candle.key ≡ false =
        ap (same_key k) (sym (same_key_path new.candle.key r.candle.key e)) ∙ h in
      simp (e, h, other) refl
  | inr e ↦ ground (arith, e, find-update-other k new rs h)
]

find-store-same :
    (now : ℕ) (rs : List Row) (c : Candle) (o : Option Row)
    → find c.key rs ≡ o
    → find c.key (store_found now rs c o).0 ≡ put now o c
unfolding store_found
find-store-same now rs c none e =
    ground (arith, e, find-append c.key rs (row_of now c), same_key_refl c.key)
find-store-same now rs c (some r) e = elim (Bool-cases (r.candle.is_closed && c.is_closed)) [
  | inl b ↦ simp b e
  | inr b ↦ simp b (find-update-same (row_of now c) rs (ap is_some e))
]

find-store-other :
    (k : Key) (now : ℕ) (rs : List Row) (c : Candle) (o : Option Row)
    → same_key k c.key ≡ false
    → find k (store_found now rs c o).0 ≡ find k rs
unfolding store_found
find-store-other k now rs c none h = ground (arith, h, find-append k rs (row_of now c))
find-store-other k now rs c (some r) h = elim (Bool-cases (r.candle.is_closed && c.is_closed)) [
  | inl b ↦ simp b refl
  | inr b ↦ simp b (find-update-other k (row_of now c) rs h)
]

-- The candles of a key.
abbrev pub of_key : Key → List Candle → List Candle
of_key k cs = filter (λ c. same_key k c.key) cs

-- Whatever is in the table and whatever comes in, each key holds what its own candles make of it, one
-- after another: the newest, but a closed candle is not replaced by another closed one. A batch for
-- other keys changes nothing.
pub find-store_candles :
    (k : Key) (now : ℕ) (rs : List Row) (cs : List Candle)
    → find k (store_candles now rs cs).0 ≡ put_all now (find k rs) (of_key k cs)
unfolding store_candles
find-store_candles k now rs [] = refl
find-store_candles k now rs (c ∷ cs) = elim (Bool-cases (same_key k c.key)) [
  | inl e ↦
      let path = same_key_path k c.key e in
      let here : find k (store_found now rs c (find c.key rs)).0 ≡ put now (find k rs) c =
        rw path (find-store-same now rs c (find c.key rs) refl) in
      simp e (
        find-store_candles k now (store_found now rs c (find c.key rs)).0 cs
        ∙ ap (λ (o : Option Row). put_all now o (of_key k cs)) here)
  | inr e ↦ simp e (
      find-store_candles k now (store_found now rs c (find c.key rs)).0 cs
      ∙ ap (λ (o : Option Row). put_all now o (of_key k cs))
          (find-store-other k now rs c (find c.key rs) e))
]

put_all-closed :
    (now : ℕ) (r : Row) (cs : List Candle)
    → r.candle.is_closed ≡ true
    → All (λ c. c.is_closed ≡ true) cs
    → put_all now (some r) cs ≡ some r
put_all-closed now r [] h all = refl
put_all-closed now r (c ∷ cs) h all = simp (h, all.0) (put_all-closed now r cs h all.1)
