-- ===== src/Queue/State.antt =====
-- src/mmrelay/message_queue.py: `QueuedMessage` and the fields of `MessageQueue`; its constants are
-- those of src/mmrelay/constants/queue.py, times in milliseconds.
use meshtastic_matrix_relay.Base.{ℕ, String, Bool, false, Option, none, some, List, [], length, not}
use meshtastic_matrix_relay.Py.{Items, Fields}

abbrev pub max_queue_size : ℕ
max_queue_size = 500

abbrev pub minimum_message_delay : ℕ
minimum_message_delay = 2000

abbrev pub default_message_delay : ℕ
default_message_delay = 2500

abbrev pub default_msgs_to_keep : ℕ
default_msgs_to_keep = 500

abbrev pub queue_poll_interval : ℕ
queue_poll_interval = 100

abbrev pub connection_retry_sleep : ℕ
connection_retry_sleep = 1000

abbrev pub queue_full_log_interval : ℕ
queue_full_log_interval = 5000

-- `send_function` names the callable, which is only called.
pub record QueuedMessage : Type 0 where
  pub timestamp : ℕ
  pub send_function : ℕ
  pub args : Items
  pub kwargs : Fields
  pub description : String
  pub mapping_info : Option Fields

-- An `asyncio.Task`: which one, and `done()`.
pub record Task : Type 0 where
  pub ident : ℕ
  pub done : Bool

-- `next_ident` numbers the tasks and executors that are created.
pub record MessageQueue : Type 0 where
  pub queue : List QueuedMessage
  pub processor_task : Option Task
  pub running : Bool
  pub stopping : Bool
  pub last_send_time : ℕ
  pub last_send_mono : ℕ
  pub message_delay : ℕ
  pub executor : Option ℕ
  pub in_flight : Bool
  pub has_current : Bool
  pub dropped_messages : ℕ
  pub last_queue_full_log_time : Option ℕ
  pub stop_failed : Bool
  pub stop_logged : Bool
  pub next_ident : ℕ

-- `MessageQueue()`
abbrev pub init : MessageQueue
init = record {
  queue = [];
  processor_task = none;
  running = false;
  stopping = false;
  last_send_time = 0;
  last_send_mono = 0;
  message_delay = default_message_delay;
  executor = none;
  in_flight = false;
  has_current = false;
  dropped_messages = 0;
  last_queue_full_log_time = none;
  stop_failed = false;
  stop_logged = false;
  next_ident = 0;
}

-- `get_queue_size`
abbrev pub get_queue_size : MessageQueue → ℕ
get_queue_size q = length q.queue

-- `self._processor_task is not None and not self._processor_task.done()`
abbrev pub task_active : MessageQueue → Bool
task_active q = elim q.processor_task [ none ↦ false | some t ↦ not t.done ]
