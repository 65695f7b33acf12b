-- ===== src/Subscriber/Consumer/Stop.antt =====
-- `stop` of a subscriber, and the tasks that it cancels and waits for.
use faststream_mq.Base.{ℕ, ◌≡◌, ◌≢◌, Bool, true, false, Option, some, none, List, [], ◌⊎◌}
use mathlib.Core.List.{Memᴰ}
use mathlib.Core.List.Memᴰ
use faststream_mq.Errors.{ok}
use faststream_mq.Subscriber.Consumer.{Consumer, Calls, Settings}

-- What asyncio documents of its tasks. `current` is the task that runs, `is_cancelling` says that a
-- task was asked to end. `gather` with `return_exceptions=True` returns once its tasks have ended:
-- this holds of tasks that are done or were asked to end, none of them the one that waits. It
-- is taken for granted that a task that was asked to end does so.
pub record IsTaskLib {S : Type 0} (c : Calls S) (current : S → Option ℕ)
    (is_cancelling : ℕ → S → Bool) : Type 0 where
  pub asked : (t : ℕ) (s : S) → is_cancelling t (c.cancel_task t s) ≡ true
  pub stays_asked :
      (t u : ℕ) (s : S) → is_cancelling u s ≡ true → is_cancelling u (c.cancel_task t s) ≡ true
  pub stays_done :
      (t u : ℕ) (s : S) → c.is_task_done u s ≡ true → c.is_task_done u (c.cancel_task t s) ≡ true
  pub same_current : (t : ℕ) (s : S) → current (c.cancel_task t s) ≡ current s
  pub joins :
      (tasks : List ℕ) (s : S)
      → ((t : ℕ) → Memᴰ t tasks → (c.is_task_done t s ≡ true) ⊎ (is_cancelling t s ≡ true))
      → ((t : ℕ) → Memᴰ t tasks → current s ≢ some t)
      → (c.join_tasks tasks s).0 ≡ ok tt

-- what `stop` leaves of a subscriber: it runs no more, has no direct message and no test buffer,
-- and one that is not under test has neither a consumer nor tasks
pub record IsStopped {S : Type 0} (x y : Consumer S) : Type 0 where
  pub running : y.running ≡ false
  pub direct : y.direct_message ≡ none
  pub buffer : y.test_messages ≡ none
  pub consumer : x.test_messages ≡ none → (y.consumer ≡ false) × (y.tasks ≡ [])

module _ {S : Type 0} (c : Calls S) (cfg : Settings) (current : S → Option ℕ)
    (is_cancelling : ℕ → S → Bool) (lib : IsTaskLib c current is_cancelling) where
  -- the task has ended, or was asked to
  abbrev Ending : ℕ → S → Type 0
  Ending t s = (c.is_task_done t s ≡ true) ⊎ (is_cancelling t s ≡ true)

  -- what the loop that cancels leaves
  record AllEnding (tasks : List ℕ) (s v : S) : Type 0 where
    ending : (t : ℕ) → Memᴰ t tasks → Ending t v
    stays : (t : ℕ) → Ending t s → Ending t v
    same : current v ≡ current s

  -- what `stop` does last
  abbrev Left : Consumer S → Consumer S → Type 0
  Left x y =
      (y.running ≡ x.running)
      × (y.direct_message ≡ x.direct_message)
      × (y.test_messages ≡ x.test_messages)
      × (y.consumer ≡ false)
      × (y.tasks ≡ [])
