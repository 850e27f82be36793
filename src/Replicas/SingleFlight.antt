-- ===== src/Replicas/SingleFlight.antt =====
-- app/services/single_flight.py: concurrent calls with one key share one task. The lock makes the look
-- and the launch one step; a task starts, finishes and is reaped in steps of its own. The timeout only
-- ends the wait of one caller, since the task is shielded. An event loop is a number; a call on another
-- loop than the last one forgets what is under way.
pub mod Exclusion
use vi_xauusd.Prelude.{
  ltb, ◌==◌, if◌then◌else◌, or_else, and_some, ℕ, ◌+◌, String, Bool, true, false, not, ◌&&◌, Option,
  none, some, List, [], ◌∷◌, str_eq,
}

-- A task is a number; tasks below `next` have been created.
pub record Flight : Type 0 where
  pub loop : Option ℕ
  pub inflight : String → Option ℕ
  pub next : ℕ
  pub key_of : ℕ → String
  pub started : ℕ → Bool
  pub done : ℕ → Bool
  pub run_count : ℕ
  pub collapsed_count : ℕ

pub data Event : Type 0 where
  calls : ℕ → String → Event
  starts : ℕ → Event
  finishes : ℕ → Event
  reaps : ℕ → Event

-- `SingleFlight()`
abbrev pub start : Flight
start = record {
  loop = none;
  inflight = λ k. none;
  next = 0;
  key_of = λ i. "";
  started = λ i. false;
  done = λ i. false;
  run_count = 0;
  collapsed_count = 0;
}

abbrev pub set_key {ℓ} : {A : Type ℓ} → String → A → (String → A) → String → A
set_key k v f j = if str_eq j k then v else f j

abbrev pub set_at {ℓ} : {A : Type ℓ} → ℕ → A → (ℕ → A) → ℕ → A
set_at i v f j = if j == i then v else f j

-- `asyncio.create_task(self._wrapped(factory))`
abbrev pub launch : Flight → String → Flight
launch s k = record s {
  inflight = set_key k (some s.next) s.inflight;
  next = s.next + 1;
  key_of = set_at s.next k s.key_of;
  started = set_at s.next false s.started;
  done = set_at s.next false s.done;
}

-- `task is None or task.done()`
abbrev pub is_free : Flight → Option ℕ → Bool
is_free s none = true
is_free s (some i) = s.done i

-- `_lock_for_loop`
unfoldable pub lock_for_loop : Flight → ℕ → Flight
lock_for_loop s l =
    if and_some s.loop (λ m. m == l) then s else record s { loop = some l; inflight = λ k. none }

-- The locked part of `run`.
unfoldable pub join : Flight → String → Flight
join s k =
    if is_free s (s.inflight k)
    then launch s k
    else record s { collapsed_count = s.collapsed_count + 1 }

unfoldable pub call : Flight → ℕ → String → Flight
unfolding lock_for_loop join
call s l k = join (lock_for_loop s l) k

-- The task that is found or launched under the lock.
unfoldable pub found_task : Flight → String → ℕ
found_task s k = if is_free s (s.inflight k) then s.next else or_else (s.inflight k) 0

-- The task that a call of `run` waits for.
unfoldable pub awaited : Flight → ℕ → String → ℕ
unfolding lock_for_loop found_task
awaited s l k = found_task (lock_for_loop s l) k

-- `_wrapped`
unfoldable pub begin : Flight → ℕ → Flight
begin s i =
    if ltb i s.next && not (s.started i)
    then record s { started = set_at i true s.started; run_count = s.run_count + 1 }
    else s

unfoldable pub finish : Flight → ℕ → Flight
finish s i = if ltb i s.next && s.started i then record s { done = set_at i true s.done } else s

-- `_reap`, the callback of a task that is done.
unfoldable pub reap : Flight → ℕ → Flight
reap s i =
    if s.done i && and_some (s.inflight (s.key_of i)) (λ j. j == i)
    then record s { inflight = set_key (s.key_of i) none s.inflight }
    else s

unfoldable pub step : Flight → Event → Flight
unfolding call begin finish reap
step s (calls l k) = call s l k
step s (starts i) = begin s i
step s (finishes i) = finish s i
step s (reaps i) = reap s i

unfoldable pub run : Flight → List Event → Flight
run s [] = s
run s (e ∷ es) = run (step s e) es
