-- ===== src/Fixtures.antt =====
-- Test data: an event that remembers whether it was notified, one that counts its
-- listeners, and one that numbers them.
use async_lock.Base.{
  ℕ, ◌+◌, ◌-◌, Bool, true, false, ◌≡◌, refl, Option, none, some, arith, ltb, if◌then◌else◌, ◌<◌,
  ◌==◌, usize_max,
}
use async_lock.Event.{EventOps, IsQuietable, IsCounting, IsRegistering}

-- A listener is ready once the event has been notified.
abbrev pub latch : EventOps Bool (Unit {0})
latch = record {
  new = false;
  listen = λ e. (e, tt);
  notify = λ n e. true;
  notify_additional = λ n e. true;
  poll = λ e l. elim e [ true ↦ (true, none, true) | false ↦ (false, l, false) ];
  drop = λ l e. e;
}

abbrev pub Unset : Bool → Type 0
Unset e = e ≡ false

pub latch-IsQuietable : IsQuietable latch Unset
latch-IsQuietable = record {
  new_quiet = refl;
  listen_quiet = λ e h. h;
  poll_quiet = λ e l h. ground arith;
  poll_unready = λ e l h. ground arith;
  poll_keeps = λ e l h. ground arith;
  drop_quiet = λ e l h. h;
}

-- How many listeners wait, and how many are notified and have not been polled since.
pub record Counts : Type 0 where
  pub waiting : ℕ
  pub notified : ℕ

-- As many of the waiting as there are, at most `n`, are notified.
abbrev moves : ℕ → Counts → Counts
moves n e =
    let m = if ltb n e.waiting then n else e.waiting in
    record { waiting = e.waiting - m; notified = e.notified + m }

abbrev counter_poll : Counts → Option (Unit {0}) → Counts × Option (Unit {0}) × Bool
counter_poll e none = (e, none, false)
counter_poll e (some l) =
    if ltb 0 e.notified
    then (record { waiting = e.waiting; notified = e.notified - 1 }, none, true)
    else (e, some l, false)

abbrev counter_drop : Option (Unit {0}) → Counts → Counts
counter_drop none e = e
counter_drop (some l) e =
    if ltb 0 e.waiting
    then (record { waiting = e.waiting - 1; notified = e.notified })
    else (record { waiting = 0; notified = e.notified - 1 })

abbrev pub counter : EventOps Counts (Unit {0})
counter = record {
  new = record { waiting = 0; notified = 0 };
  listen = λ e. (record { waiting = e.waiting + 1; notified = e.notified }, tt);
  notify = λ n e. moves (n - e.notified) e;
  notify_additional = moves;
  poll = counter_poll;
  drop = counter_drop;
}

pub counter-IsCounting : IsCounting counter (λ e. e.waiting) (λ e. e.notified)
counter-IsCounting = record {
  new_counts = (refl, refl);
  listen_counts = λ e. (refl, refl);
  notify_counts = λ n e. ground arith;
  additional_counts = λ n e. ground arith;
  poll_counts = λ e l h. ground arith;
  drop_none = λ e. refl;
  drop_counts = λ e l h. ground arith;
}

-- An event whose listeners are numbers, notified in the order of `listen`: those below `called` are.
pub record Line : Type 0 where
  pub created : ℕ
  pub called : ℕ

abbrev calls_up : ℕ → Line → Line
calls_up n e =
    let reached =
      if n == usize_max
      then e.created
      else if ltb (e.called + n) e.created
      then e.called + n
      else e.created in
    record e { called = if ltb e.called reached then reached else e.called }

abbrev line_poll : Line → Option ℕ → Line × Option ℕ × Bool
line_poll e none = (e, none, false)
line_poll e (some l) = if ltb l e.called then (e, none, true) else (e, some l, false)

abbrev pub line : EventOps Line ℕ
line = record {
  new = record { created = 0; called = 0 };
  listen = λ e. (record e { created = e.created + 1 }, e.created);
  notify = calls_up;
  notify_additional = calls_up;
  poll = line_poll;
  drop = λ l e. e;
}

abbrev pub InLine : Line → ℕ → Type 0
InLine e l = l < e.created

abbrev pub CalledUp : Line → ℕ → Type 0
CalledUp e l = l < e.called

pub line-IsRegistering : IsRegistering line InLine CalledUp
line-IsRegistering = record {
  listen_new = λ e. omega arith;
  listen_fresh = λ e h. omega (arith, h);
  listen_keeps = λ e l h. (omega (arith, h), λ n. n);
  notify_keeps = λ n e l h. (h, λ t. ground arith);
  additional_keeps = λ n e l h. (h, λ t. ground arith);
  notify_all = λ e l h. ground arith;
  additional_all = λ e l h. ground arith;
  poll_keeps = λ e k l d h. ground arith;
  poll_unready = λ e l u. ground arith;
  poll_ready = λ e l r. ground arith;
  poll_notified = λ e l t. ground arith;
  drop_none = λ e. refl;
  drop_keeps = λ e k l d h. (h, λ t. t);
}
