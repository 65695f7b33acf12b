-- ===== src/Subscriber/Consumer/Tests.antt =====
-- The laws of a subscriber that takes messages, on a connection that always has one.
use faststream_mq.Base.{
  ℕ, ◌<◌, arith, ◌≡◌, Bool, refl, true, false, none, some, List, [], ◌∷◌, Option,
}
use mathlib.Core.List.{Memᴰ}
use mathlib.Core.List.Memᴰ
use faststream_mq.Errors.{Result, ok, err, stop_consume}
use faststream_mq.Exec.{if_some, for_some, ◌>>=◌, modify, when, try_except}
use faststream_mq.Connection.Message.{raw_message, acked}
use faststream_mq.Connection.Tests.{received_message}
use faststream_mq.Subscriber.{manual, reject_on_error}
use faststream_mq.Subscriber.Tests.{counting, first_status}
use faststream_mq.Subscriber.Consumer.{
  Consumer, Calls, Settings, get_one, iterate_once, fetch, process_direct,
  ensure_no_unsettled_direct_message, on_world, on_message, new_message, consume, stored,
}
use faststream_mq.Subscriber.Consumer.Loop.{
  at_top, fetching, waiting, is_done, take_turn, receive_next, take_message, LoopReach, loop_here,
  loop_next, checked, turned, woken, changed,
}
use faststream_mq.Subscriber.Consumer.Loop.InTurn.{reach-in_turn}
use faststream_mq.Subscriber.Consumer.Fetch.{status}
use faststream_mq.Subscriber.Consumer.OneUnsettled.{
  here, next, asked, iterated, handed_after, Reach-one_unsettled,
}

abbrev calls : Calls (ℕ × ℕ)
calls = record {
  acknowledger = counting;
  base = first_status;
  startup_connect = λ s. (ok tt, s);
  get_message = λ s. (ok (some received_message), s);
  stop_consumer = λ s. (ok tt, s);
  disconnect = λ s. (ok tt, s);
  process_message = λ s. (err stop_consume, s);
  process_msg = λ s. (ok tt, s);
  is_task_done = λ t s. false;
  cancel_task = λ t s. s;
  join_tasks = λ ts s. (ok tt, s);
  exit_app = λ s. (ok tt, s);
}

abbrev by_hand : Settings
by_hand = record { calls = false; is_test = false; ack_policy = manual; cancelled = false }

abbrev by_policy : Settings
by_policy = record {
  calls = true;
  is_test = false;
  ack_policy = reject_on_error;
  cancelled = false;
}

abbrev running_consumer : Consumer (ℕ × ℕ)
running_consumer = record {
  world = (0, 0);
  running = true;
  consumer = true;
  tasks = 1 ∷ [];
  test_messages = none;
  direct_message = none;
  messages = λ n. received_message;
  next = 0;
}

-- the second round is refused
abbrev first : Result (Option ℕ) × Consumer (ℕ × ℕ)
first = get_one calls by_hand running_consumer

abbrev second : Result (Option ℕ) × Consumer (ℕ × ℕ)
second = iterate_once calls by_hand first.1

abbrev handed : List ℕ
handed = handed_after second.0 (handed_after first.0 [])

handed_first : Memᴰ 0 handed
unfolding get_one iterate_once ensure_no_unsettled_direct_message fetch process_direct on_world
    on_message new_message if_some for_some ◌>>=◌ modify when try_except raw_message
handed_first = Memᴰ.head refl

first_unsettled : status second.1 0 ≡ none
unfolding get_one iterate_once ensure_no_unsettled_direct_message fetch process_direct on_world
    on_message new_message if_some for_some ◌>>=◌ modify when try_except raw_message
first_unsettled = refl

Reach-one_unsettled_example : (◌≡◌ {A = ℕ} 0 0) × (second.1.direct_message ≡ some 0)
Reach-one_unsettled_example =
    Reach-one_unsettled calls by_hand refl running_consumer second.1 handed 0 0
      (next (next here (asked [] running_consumer)) (iterated (handed_after first.0 []) first.1))
      handed_first handed_first first_unsettled first_unsettled

-- every task was asked to end, and the task that runs is another one
abbrev outer_task : ℕ × ℕ → Option ℕ
outer_task s = some 9

all_asked : ℕ → ℕ × ℕ → Bool
all_asked t s = true

-- the handler of this subscriber leaves the message to the user
abbrev leaving : Calls (ℕ × ℕ)
leaving = record calls { process_message = λ s. (ok tt, s) }

abbrev after_turn : Consumer (ℕ × ℕ)
after_turn = (take_turn leaving by_hand running_consumer).1

abbrev after_ack : Consumer (ℕ × ℕ)
after_ack = record after_turn {
  world = (1, 0);
  messages =
      stored 0 (record received_message { settled = some acked; settled_event = true })
        after_turn.messages;
}

next_turn : LoopReach leaving by_hand (at_top, running_consumer) (fetching, after_ack)
unfolding take_turn receive_next take_message consume ◌>>=◌ on_world if_some new_message when
    on_message raw_message try_except
next_turn =
    loop_next
      (loop_next
        (loop_next
          (loop_next (loop_next loop_here (checked running_consumer)) (turned running_consumer))
          (changed (waiting 0) 0
            (record received_message { settled = some acked; settled_event = true }) (1, 0)
            after_turn (λ e. refl)))
        (woken 0 after_ack refl))
      (checked after_ack)

was_taken : 0 < after_ack.next
unfolding take_turn receive_next take_message consume ◌>>=◌ on_world if_some new_message when
    on_message raw_message try_except
was_taken = omega arith

reach-in_turn_example : is_done (after_ack.messages 0) ≡ true
reach-in_turn_example =
    reach-in_turn leaving by_hand running_consumer after_ack 0 refl next_turn (omega arith)
      was_taken
