-- ===== src/Candles.antt =====
-- app/services/candle_service.py, app/services/closed_candle_service.py and the table Candle of
-- app/db/models.py. Times are whole seconds, prices ticks; a missing quote is none. `Aggregate` and
-- `Closed` are the two functions on candles alone, here is the store.
mod Tests
pub mod Store
pub mod Load
pub mod Aggregate
pub mod Closed
use vi_xauusd.Prelude.{
  ltb, leb, ◌==◌, if◌then◌else◌, length, drop, filter, any, ℕ, zero, suc, ◌+◌, ◌-◌, ◌*◌, String,
  Bool, ◌&&◌, ◌||◌, Option, none, some, List, [], ◌∷◌, ◌++◌, str_eq,
}

-- The columns of `uq_candle`.
pub record Key : Type 0 where
  pub symbol : String
  pub timeframe : String
  pub open_time : ℕ
  pub data_provider : String

pub record Candle : Type 0 where
  pub key : Key
  pub close_time : ℕ
  pub open_price : ℕ
  pub high : ℕ
  pub low : ℕ
  pub close_price : ℕ
  pub volume : ℕ
  pub bid_close : Option ℕ
  pub ask_close : Option ℕ
  pub spread : Option ℕ
  pub is_closed : Bool

pub record Row : Type 0 where
  pub candle : Candle
  pub received_at : ℕ

abbrev pub row_of : ℕ → Candle → Row
row_of now c = record { candle = c; received_at = now }

abbrev pub same_key : Key → Key → Bool
same_key a b =
    str_eq a.symbol b.symbol
    && str_eq a.timeframe b.timeframe
    && a.open_time == b.open_time
    && str_eq a.data_provider b.data_provider

unfoldable pub find : Key → List Row → Option Row
find k [] = none
find k (r ∷ rs) = let rest = find k rs in if same_key k r.candle.key then some r else rest

unfoldable pub update : Row → List Row → List Row
update new [] = []
update new (r ∷ rs) =
    let rest = update new rs in if same_key new.candle.key r.candle.key then new ∷ rs else r ∷ rest

-- The body of the loop, with the row that the query found.
unfoldable pub store_found : ℕ → List Row → Candle → Option Row → List Row × ℕ
unfolding update
store_found now rows c none = (rows ++ (row_of now c ∷ []), 1)
store_found now rows c (some r) =
    if r.candle.is_closed && c.is_closed then (rows, 0) else (update (row_of now c) rows, 1)

-- The table afterwards and the number of rows written.
unfoldable pub store_candles : ℕ → List Row → List Candle → List Row × ℕ
unfolding store_found find
store_candles now rows [] = (rows, 0)
store_candles now rows (c ∷ cs) =
    let stored = store_found now rows c (find c.key rows) in
    let rest = store_candles now stored.0 cs in (rest.0, stored.1 + rest.1)

abbrev pub is_of : String → String → Row → Bool
is_of symbol timeframe r =
    str_eq r.candle.key.symbol symbol && str_eq r.candle.key.timeframe timeframe

-- `ORDER BY open_time DESC, received_at DESC`
abbrev pub is_before : Row → Row → Bool
is_before a b =
    ltb b.candle.key.open_time a.candle.key.open_time
    || (a.candle.key.open_time == b.candle.key.open_time && leb b.received_at a.received_at)

unfoldable pub insert_row : Row → List Row → List Row
insert_row r [] = r ∷ []
insert_row r (x ∷ xs) = let rest = insert_row r xs in if is_before r x then r ∷ x ∷ xs else x ∷ rest

unfoldable pub newest_first : List Row → List Row
unfolding insert_row
newest_first [] = []
newest_first (r ∷ rs) = insert_row r (newest_first rs)

abbrev pub take {ℓ} : {A : Type ℓ} → ℕ → List A → List A
take zero xs = []
take (suc n) [] = []
take (suc n) (x ∷ xs) = x ∷ take n xs

abbrev pub reverse {ℓ} : {A : Type ℓ} → List A → List A
reverse [] = []
reverse (x ∷ xs) = reverse xs ++ (x ∷ [])

-- `out[-limit:]`; all of it where limit is 0, as in Python.
abbrev pub last_of {ℓ} : {A : Type ℓ} → ℕ → List A → List A
last_of limit xs = if limit == 0 then xs else drop (length xs - limit) xs

-- The loop with `seen`: the first row of each time.
unfoldable pub unseen : List ℕ → List Row → List Candle
unseen seen [] = []
unseen seen (r ∷ rs) =
    let t = r.candle.key.open_time in
    let rest = unseen (t ∷ seen) rs in if any (λ u. u == t) seen then rest else r.candle ∷ rest

unfoldable pub load_candles_from_db : String → ℕ → String → List Row → List Candle
unfolding newest_first unseen
load_candles_from_db timeframe limit symbol rows =
    last_of limit
      (reverse (unseen [] (take (limit * 2) (newest_first (filter (is_of symbol timeframe) rows)))))
