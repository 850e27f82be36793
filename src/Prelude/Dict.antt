-- ===== src/Prelude/Dict.antt =====
-- A Python `dict` with text keys, in insertion order, as an association list: a write to a key that
-- is there keeps its place, a new key goes to the end.
use Prim.Native.Nat.{◌+◌, ◌≤◌}
use Prim.Native.String.{String}
use mathlib.Core.Path.{◌≡◌, refl}
use mathlib.Core.Bool.{Bool}
use mathlib.Core.Option.{Option, none, some}
use mathlib.Core.List.{List, [], ◌∷◌}
use native.Mathlib.Omega.{arith}
use text.Mathlib.Text.{◌==◌}
use text.Mathlib.TextEquality.{eq_iff}
use vi_xauusd.Prelude.Tests.{if◌then◌else◌}
use vi_xauusd.Prelude.Lists.{length}

abbrev pub Dict {ℓ} : Type ℓ → Type ℓ
Dict V = List (String × V)

module _ {ℓ} {V : Type ℓ} where
  -- `d.get(k)`
  unfoldable pub get : Dict V → String → Option V
  get [] k = none
  get ((j, v) ∷ d) k = if j == k then some v else get d k

  -- `d[k] = v`
  unfoldable pub put : Dict V → String → V → Dict V
  put [] k v = (k, v) ∷ []
  put ((j, w) ∷ d) k v = if j == k then (k, v) ∷ d else (j, w) ∷ put d k v

  -- `d.pop(k, None)`
  unfoldable pub pop : Dict V → String → Dict V
  pop [] k = []
  pop ((j, w) ∷ d) k = if j == k then d else (j, w) ∷ pop d k

  pub get-put_lem :
      (d : Dict V) (k j : String) (v : V) → get (put d k v) j ≡ (if k == j then some v else get d j)
  unfolding get put
  get-put_lem [] k j v = refl
  get-put_lem ((i, w) ∷ d) k j v =
      ground (arith, eq_iff i k, eq_iff k j, eq_iff i j, get-put_lem d k j v)

  pub length-put : (d : Dict V) (k : String) (v : V) → length (put d k v) ≤ length d + 1
  unfolding put
  length-put [] k v = omega arith
  length-put ((j, w) ∷ d) k v = ground (arith, length-put d k v)

  -- The keys differ from one another, as those of a `dict` do.
  abbrev pub IsUnique : Dict V → Type ℓ
  IsUnique [] = Unit
  IsUnique ((k, v) ∷ d) = (get d k ≡ none) × IsUnique d

  -- `{k: v for k, v in d.items() if p(v)}`
  unfoldable pub keep : (V → Bool) → Dict V → Dict V
  keep p [] = []
  keep p ((k, v) ∷ d) = let rest = keep p d in if p v then (k, v) ∷ rest else rest

  abbrev pub check : (V → Bool) → Option V → Option V
  check p none = none
  check p (some v) = if p v then some v else none

module _ {ℓ} {V : Type ℓ} where
  pub get-pop :
      (d : Dict V) (k j : String)
      → IsUnique d
      → get (pop d k) j ≡ (if k == j then none else get d j)
  unfolding get pop
  get-pop [] k j u = ground arith
  get-pop ((i, w) ∷ d) k j u =
      ground (arith, eq_iff i k, eq_iff k j, eq_iff i j, get-pop d k j u.1, u.0)

  pub get-keep :
      (p : V → Bool) (d : Dict V) (k : String) → IsUnique d → get (keep p d) k ≡ check p (get d k)
  unfolding get keep
  get-keep p [] k u = refl
  get-keep p ((i, w) ∷ d) k u = ground (arith, eq_iff i k, get-keep p d k u.1, u.0)

  pub put-IsUnique : (d : Dict V) (k : String) (v : V) → IsUnique d → IsUnique (put d k v)
  unfolding get put
  put-IsUnique [] k v u = (refl, tt)
  put-IsUnique ((i, w) ∷ d) k v u =
      ground (arith, eq_iff i k, eq_iff k i, get-put_lem d k i v, put-IsUnique d k v u.1, u.0)

  pub pop-IsUnique : (d : Dict V) (k : String) → IsUnique d → IsUnique (pop d k)
  unfolding get pop
  pop-IsUnique [] k u = tt
  pop-IsUnique ((i, w) ∷ d) k u = ground (arith, get-pop d k i u.1, pop-IsUnique d k u.1, u.0)

  pub keep-IsUnique : (p : V → Bool) (d : Dict V) → IsUnique d → IsUnique (keep p d)
  unfolding keep
  keep-IsUnique p [] u = tt
  keep-IsUnique p ((i, w) ∷ d) u = ground (arith, get-keep p d i u.1, keep-IsUnique p d u.1, u.0)

  pub length-keep : (p : V → Bool) (d : Dict V) → length (keep p d) ≤ length d
  unfolding keep
  length-keep p [] = omega arith
  length-keep p ((i, w) ∷ d) = ground (arith, length-keep p d)
