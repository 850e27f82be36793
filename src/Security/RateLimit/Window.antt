-- ===== src/Security/RateLimit/Window.antt =====
-- The sliding window: in no window are there more accepted attempts than allowed.
use vi_xauusd.Prelude.{
  ltb, leb, or_else, Bool-cases, Option-cases, length, length-append, length-filter, ℕ, ◌+◌, ◌≤◌,
  ◌<◌, String, ◌≡◌, refl, ap, inl, inr, none, List, [], ◌∷◌, ◌++◌, arith, eq_refl,
}
use vi_xauusd.Prelude.Dict.{Dict, get, put, get-put_lem}
use vi_xauusd.Security.RateLimit.{
  Verdict, accepted, max_rate_keys, trim_rate_keys, recent, refuse, rate_limit_window,
}
use vi_xauusd.Security.RateLimit.Cooldown.{length-put_present, get-trim-put, length-trim}

-- Calls for one key at the given times, one after the other; the times of the accepted ones.
abbrev add_if_accepted : Verdict → ℕ → List ℕ → List ℕ
add_if_accepted accepted now history = history ++ now ∷ []
add_if_accepted _ now history = history

unfoldable pub accepted_times : String → ℕ → ℕ → Dict (List ℕ) → List ℕ → List ℕ → List ℕ
accepted_times key limit window store history [] = history
accepted_times key limit window store history (now ∷ times) =
    let (verdict, store') = rate_limit_window key limit window now store in
    accepted_times key limit window store' (add_if_accepted verdict now history) times

abbrev pub last_time : ℕ → List ℕ → ℕ
last_time start [] = start
last_time start (t ∷ ts) = last_time t ts

-- The monotonic clock does not go back.
abbrev pub IsMonotonic : ℕ → List ℕ → Type 0
IsMonotonic start [] = Unit
IsMonotonic start (t ∷ ts) = (start ≤ t) × IsMonotonic t ts

recent-append :
    (window now : ℕ) (xs ys : List ℕ)
    → recent window now (xs ++ ys) ≡ recent window now xs ++ recent window now ys
unfolding recent
recent-append window now [] ys = refl
recent-append window now (x ∷ xs) ys = ground (arith, recent-append window now xs ys)

recent-recent :
    (window now later : ℕ) (xs : List ℕ)
    → now ≤ later
    → recent window later (recent window now xs) ≡ recent window later xs
unfolding recent
recent-recent window now later [] h = refl
recent-recent window now later (x ∷ xs) h = ground (arith, recent-recent window now later xs h)

length-recent : (window now : ℕ) (xs : List ℕ) → length (recent window now xs) ≤ length xs
unfolding recent
length-recent window now xs = length-filter (λ t. ltb now (t + window)) xs

-- What the table holds for the key tells the accepted attempts that any later window contains.
record Tracks (key : String) (limit window last : ℕ) (store : Dict (List ℕ)) (history : List ℕ)
    : Type 0 where
  small : length store ≤ max_rate_keys
  same :
      (later : ℕ)
      → last ≤ later
      → recent window later (or_else (get store key) []) ≡ recent window later history
  within : length (recent window last history) ≤ limit

module _ (key : String) (limit window last now : ℕ) (store : Dict (List ℕ)) (history : List ℕ)
    (h : last ≤ now) (t : Tracks key limit window last store history) where
  abbrev stored : List ℕ
  stored = or_else (get store key) []

  abbrev hits : List ℕ
  hits = recent window now stored

  within_now : length (recent window now history) ≤ limit
  within_now = omega (
    arith,
    t.within,
    length-recent window now (recent window last history),
    ap length (recent-recent window last now history h),
  )

  accept-same :
      (later : ℕ)
      → now ≤ later
      → recent window later
          (or_else (get (trim_rate_keys (put store key (hits ++ now ∷ []))) key) [])
        ≡ recent window later (history ++ now ∷ [])
  accept-same later le = rw (get-trim-put store key (hits ++ now ∷ []) t.small) (
      rw (recent-append window later hits (now ∷ [])) (
        rw (recent-append window later history (now ∷ []))
          (rw (recent-recent window now later stored le) (rw (t.same later (omega arith))))))

  accept-Tracks :
      length hits < limit
      → Tracks key limit window now
          (trim_rate_keys (put store key (hits ++ now ∷ [])))
          (history ++ now ∷ [])
  accept-Tracks room = record {
    small = length-trim (put store key (hits ++ now ∷ []));
    same = accept-same;
    within = omega (
      arith,
      ap length (recent-append window now history (now ∷ [])),
      length-append (recent window now history) (recent window now (now ∷ [])),
      length-recent window now (now ∷ []),
      ap length (t.same now h),
      room,
    );
  }

  refuse-small :
      (x : ℕ) (xs : List ℕ) → hits ≡ x ∷ xs → length (put store key (x ∷ xs)) ≤ max_rate_keys
  unfolding recent
  refuse-small x xs e = elim (Option-cases (get store key)) [
    | inl n ↦ ground arith
    | inr (w, s) ↦ omega (arith, length-put_present store key (x ∷ xs) w s, t.small)
  ]

  refuse-Tracks :
      (now_hits : List ℕ)
      → hits ≡ now_hits
      → Tracks key limit window now (refuse key window now now_hits store).1 history
  unfolding refuse
  refuse-Tracks [] e = record {
    small = t.small;
    same = λ later le. t.same later (omega arith);
    within = within_now;
  }
  refuse-Tracks (x ∷ xs) e = record {
    small = refuse-small x xs e;
    same = λ later le.
        rw (get-put_lem store key key (x ∷ xs), eq_refl key)
          (rw (← e) (rw (recent-recent window now later stored le) (t.same later (omega arith))));
    within = within_now;
  }

refuse-add :
    (key : String) (window now : ℕ) (now_hits : List ℕ) (store : Dict (List ℕ)) (history : List ℕ)
    → add_if_accepted (refuse key window now now_hits store).0 now history ≡ history
unfolding refuse
refuse-add key window now [] store history = refl
refuse-add key window now (x ∷ xs) store history = refl

step-Tracks :
    (key : String) (limit window last now : ℕ) (store : Dict (List ℕ)) (history : List ℕ)
    → last ≤ now
    → Tracks key limit window last store history
    → let call = rate_limit_window key limit window now store in
      Tracks key limit window now call.1 (add_if_accepted call.0 now history)
unfolding rate_limit_window
step-Tracks key limit window last now store history h t =
    let hits = recent window now (or_else (get store key) []) in
    elim (Bool-cases (leb limit (length hits))) [
      | inl full ↦ rw full (
          rw (refuse-add key window now hits store history)
            (refuse-Tracks key limit window last now store history h t hits refl))
      | inr room ↦
          rw room (accept-Tracks key limit window last now store history h t (ground arith))
    ]

run-Tracks :
    (key : String) (limit window last : ℕ) (store : Dict (List ℕ)) (history times : List ℕ)
    → IsMonotonic last times
    → Tracks key limit window last store history
    → length
        (recent window (last_time last times) (accepted_times key limit window store history times))
      ≤ limit
unfolding accepted_times
run-Tracks key limit window last store history [] m t = t.within
run-Tracks key limit window last store history (now ∷ times) m t =
    let (verdict, store') = rate_limit_window key limit window now store in
    run-Tracks key limit window now store' (add_if_accepted verdict now history) times m.1
      (step-Tracks key limit window last now store history m.0 t)

-- However often a key that the table does not hold is tried, at times that do not go back, at every
-- moment at most `limit` of the accepted attempts lie inside the window that ends there.
pub accepted_times-IsBounded :
    (key : String) (limit window start : ℕ) (store : Dict (List ℕ)) (times : List ℕ)
    → length store ≤ max_rate_keys
    → get store key ≡ none
    → IsMonotonic start times
    → length
        (recent window (last_time start times) (accepted_times key limit window store [] times))
      ≤ limit
accepted_times-IsBounded key limit window start store times small fresh m =
    run-Tracks key limit window start store [] times m (record {
      small = small;
      same = λ later le. rw fresh;
      within = (unfold recent in omega arith);
    })
