-- ===== src/Outbox/Enqueue/Twice.antt =====
-- An event is enqueued once.
use vi_xauusd.Prelude.{length, ◌≡◌, none, some, List}
use vi_xauusd.Outbox.Row.{}
use vi_xauusd.Outbox.Enqueue.Data.{Notice}
use vi_xauusd.Outbox.Enqueue.Merge.{Result}
use vi_xauusd.Outbox.Enqueue.Between.{Between}

-- As many deliveries as before, or an exception.
SameLength : List Notice → Result → Type 0
SameLength ns none = Unit
SameLength ns (some r) = length r.0.notices ≡ length ns
