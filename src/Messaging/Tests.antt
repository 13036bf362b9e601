-- ===== src/Messaging/Tests.antt =====
-- A run of the consumer loop over four polls, and its theorem there.
use portfolio_analytics_syst.Prelude.{
  String, true, none, some, List, [], ◌∷◌, ◌++◌, ◌≡◌, refl, str_eq, present, if◌then◌else◌,
}
use portfolio_analytics_syst.Messaging.Consumer.{
  Message, Polled, nothing, received, returned, retryable, failed, Client, Progress, consuming, run,
}
use portfolio_analytics_syst.Messaging.Sends.{originals, texts, accepted}
use portfolio_analytics_syst.Messaging.Fates.{messages, commits_of, sent_of, run_fates}

abbrev message : String → Message
message value = record { topic = "raw"; key = none; value = value; headers = [] }

-- The subclass sends "odd" to the queue itself, and returns.
abbrev client : Client
client = record {
  process_message = λ n m.
      if str_eq m.value "bad"
      then record { sends = []; ending = failed "no such portfolio" }
      else if str_eq m.value "late"
      then record { sends = []; ending = retryable "database is down" }
      else if str_eq m.value "odd"
      then record { sends = "invalid" ∷ []; ending = returned }
      else record { sends = []; ending = returned };
  commit_error = λ m b. none;
  dlq_topic = some "dlq";
  dlq_accepts = λ n m. true;
  dlq_records = λ n m. true;
  generate_correlation_id = λ n. "SVC";
}

abbrev polls : List Polled
polls =
    received (message "good")
    ∷ nothing
    ∷ received (message "bad")
    ∷ received (message "late")
    ∷ received (message "odd")
    ∷ []

abbrev start : Progress
start = record {
  handled = 0;
  generated = 0;
  committed = [];
  dead_letters = [];
  recorded = 0;
  processed = 0;
  dlqd = 0;
}

only_the_late_one_is_open :
    commits_of client 0 (messages polls) ≡ message "good" ∷ message "bad" ∷ message "odd" ∷ []
unfolding commits_of str_eq
only_the_late_one_is_open = refl

two_are_queued :
    accepted client 0 (sent_of client 0 (messages polls)) ≡ message "bad" ∷ message "odd" ∷ []
unfolding accepted sent_of str_eq
two_are_queued = refl

queue_is_set : present (some "dlq") ≡ true
unfolding present
queue_is_set = refl

run_fates_example :
    let after = (run client polls (start, consuming)).0 in
    (after.committed ≡ [] ++ commits_of client 0 (messages polls))
    × (originals after.dead_letters
        ≡ [] ++ texts (accepted client 0 (sent_of client 0 (messages polls))))
run_fates_example = run_fates client queue_is_set (λ m b. refl) polls start
