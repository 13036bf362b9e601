-- ===== src/Messaging/Consumer.antt =====
-- `BaseConsumer`: polls, processes, commits, and sends what cannot be processed to the dead-letter
-- queue. The Kafka client and the subclass's `process_message` are a record of what they do.
use portfolio_analytics_syst.Prelude.{
  ℕ, suc, String, Bool, true, false, Option, none, some, List, [], ◌∷◌, ◌++◌, str_eq, nonempty,
  present, get_or, if◌then◌else◌,
}

pub record Message : Type 0 where
  pub topic : String
  pub key : Option String
  pub value : String
  pub headers : List (String × Option String)

pub data Polled : Type 0 where
  nothing fatal_error transient_error : Polled
  received : Message → Polled

-- The end of `process_message`: it returns, or raises `RetryableConsumerError` or another exception.
pub data Processing : Type 0 where
  returned : Processing
  retryable failed : String → Processing

-- What `process_message` does: it may call `_send_to_dlq_async` itself, with the texts of the errors,
-- before it ends.
pub record Handling : Type 0 where
  pub sends : List String
  pub ending : Processing

pub record Client : Type 0 where
  -- of a message, at the count of the messages processed before it: a redelivery may end otherwise
  pub process_message : ℕ → Message → Handling
  -- the text of an exception of `commit`: the one after the processing, the one after the queue
  pub commit_error : Message → Bool → Option String
  pub dlq_topic : Option String
  -- whether publishing to the queue succeeds, and then writing the row of consumer_dlq_events, at the
  -- count of the calls before
  pub dlq_accepts : ℕ → Message → Bool
  pub dlq_records : ℕ → Message → Bool
  pub generate_correlation_id : ℕ → String

pub record DeadLetter : Type 0 where
  pub correlation_id : String
  pub original_topic : String
  pub original_key : Option String
  pub original_value : String
  pub error_reason : String

pub record Progress : Type 0 where
  -- the messages that reached `process_message`
  pub handled : ℕ
  pub generated : ℕ
  -- the calls of `commit`; in the broker, a committed offset covers the ones before it
  pub committed : List Message
  pub dead_letters : List DeadLetter
  -- the rows of consumer_dlq_events
  pub recorded : ℕ
  -- the counters of the metrics
  pub processed : ℕ
  pub dlqd : ℕ

-- The loop goes on, or ends: at a fatal error of the client, or by an exception.
pub data LoopState : Type 0 where
  consuming shut_down : LoopState
  crashed : String → LoopState

-- The value of the first header `correlation_id`, if it is not empty.
unfoldable pub header_id : List (String × Option String) → Option String
unfolding str_eq
header_id [] = none
header_id ((name, value) ∷ headers) =
    if str_eq name "correlation_id" then value else header_id headers

abbrev pub non_empty_key : Option String → Option String
non_empty_key none = none
non_empty_key (some k) = if nonempty k then some k else none

module _ (client : Client) where
  -- The id of a message, and the number of ids generated so far.
  unfoldable pub correlation_of : Message → ℕ → String × ℕ
  unfolding header_id present
  correlation_of m generated =
      if present (header_id m.headers)
      then (get_or (header_id m.headers) "", generated)
      else (client.generate_correlation_id generated, suc generated)

  abbrev pub dead_letter : Message → String → String → DeadLetter
  dead_letter m correlation_id reason = record {
    correlation_id = correlation_id;
    original_topic = m.topic;
    original_key = non_empty_key m.key;
    original_value = m.value;
    error_reason = reason;
  }

  -- `_send_to_dlq_async`: an exception inside it is logged and goes no further.
  unfoldable pub send_to_dlq : Message → String → String → Progress → Progress
  send_to_dlq m correlation_id reason p =
      let counted : Progress = record p { dlqd = suc p.dlqd } in
      if present client.dlq_topic
      then (if client.dlq_accepts p.dlqd m
          then record counted {
            dead_letters = p.dead_letters ++ dead_letter m correlation_id reason ∷ [];
            recorded = if client.dlq_records p.dlqd m then suc p.recorded else p.recorded;
          }
          else counted)
      else counted

  -- The calls that `process_message` makes.
  unfoldable pub send_all : Message → String → List String → Progress → Progress
  unfolding send_to_dlq
  send_all m correlation_id [] p = p
  send_all m correlation_id (reason ∷ reasons) p =
      send_all m correlation_id reasons (send_to_dlq m correlation_id reason p)

  abbrev pub committed_too : Message → Progress → Progress
  committed_too m p = record p { committed = p.committed ++ m ∷ [] }

  abbrev pub after_dlq : Message → Progress → Option String → Progress × LoopState
  after_dlq m p none = (committed_too m p, consuming)
  after_dlq m p (some text) = (p, crashed text)

  -- The handler of a terminal exception.
  unfoldable pub fail_message : Message → String → String → Progress → Progress × LoopState
  unfolding send_to_dlq
  fail_message m correlation_id reason p =
      after_dlq m (send_to_dlq m correlation_id reason p) (client.commit_error m true)

  abbrev pub after_commit : Message → String → Progress → Option String → Progress × LoopState
  after_commit m correlation_id p none =
      (committed_too m (record p { processed = suc p.processed }), consuming)
  after_commit m correlation_id p (some text) = fail_message m correlation_id text p

  -- The end of the `try` block.
  abbrev pub finish : Message → String → Progress → Processing → Progress × LoopState
  finish m correlation_id p returned = after_commit m correlation_id p (client.commit_error m false)
  finish m correlation_id p (retryable text) = (p, consuming)
  finish m correlation_id p (failed text) = fail_message m correlation_id text p

  unfoldable pub consume_message : Message → Progress → Progress × LoopState
  unfolding correlation_of fail_message send_all
  consume_message m p =
      let (correlation_id, generated) = correlation_of m p.generated in
      let handling = client.process_message p.handled m in
      let begun : Progress = record p { handled = suc p.handled; generated = generated } in
      finish m correlation_id (send_all m correlation_id handling.sends begun) handling.ending

  -- The loop, over the results of its polls; it is still consuming when they are used up.
  unfoldable pub run : List Polled → Progress × LoopState → Progress × LoopState
  unfolding consume_message
  run [] s = s
  run (poll ∷ polls) (p, shut_down) = (p, shut_down)
  run (poll ∷ polls) (p, crashed text) = (p, crashed text)
  run (nothing ∷ polls) (p, consuming) = run polls (p, consuming)
  run (transient_error ∷ polls) (p, consuming) = run polls (p, consuming)
  run (fatal_error ∷ polls) (p, consuming) = (p, shut_down)
  run (received m ∷ polls) (p, consuming) = run polls (consume_message m p)
