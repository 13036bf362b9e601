-- ===== src/Messaging/Fates.antt =====
-- What becomes of the messages of a run in which the calls of `commit` succeed. An offset that is
-- committed covers the ones before it in the broker, so that a message without a call of its own is
-- delivered again only if no later one is committed first.
use portfolio_analytics_syst.Prelude.{
  ℕ, suc, ◌∙◌, String, Bool, true, false, none, List, [], ◌∷◌, ◌++◌, ◌≡◌, refl, sym, subst, arith,
  present, append_assoc, append-nil, if◌then◌else◌,
}
use portfolio_analytics_syst.Messaging.Consumer.{
  Message, Polled, nothing, fatal_error, transient_error, received, Processing, returned, retryable,
  failed, Client, Progress, LoopState, consuming, correlation_of, send_to_dlq, send_all,
  committed_too, fail_message, finish, consume_message, run,
}
use portfolio_analytics_syst.Messaging.Sends.{
  originals, texts, once_each, accepted, Went, Went-nothing, Went-then, Went-commit,
  send_to_dlq-handled, send_all-handled, send_to_dlq-Went, send_all-Went,
}

-- The messages that are polled before a fatal error.
abbrev pub messages : List Polled → List Message
messages [] = []
messages (nothing ∷ polls) = messages polls
messages (transient_error ∷ polls) = messages polls
messages (fatal_error ∷ polls) = []
messages (received m ∷ polls) = m ∷ messages polls

abbrev pub is_retryable : Processing → Bool
is_retryable returned = false
is_retryable (retryable text) = true
is_retryable (failed text) = false

abbrev pub is_failed : Processing → Bool
is_failed returned = false
is_failed (retryable text) = false
is_failed (failed text) = true

module _ (client : Client) where
  -- The calls of `commit` for messages of which `n` came before: one for each that does not end in a
  -- retryable error.
  unfoldable pub commits_of : ℕ → List Message → List Message
  commits_of n [] = []
  commits_of n (m ∷ ms) =
      (if is_retryable (client.process_message n m).ending then [] else m ∷ [])
      ++ commits_of (suc n) ms

  -- The messages that are sent to the queue: once for each call of the subclass, and once more for a
  -- message that ends in another exception.
  unfoldable pub sent_of : ℕ → List Message → List Message
  sent_of n [] = []
  sent_of n (m ∷ ms) =
      once_each m (client.process_message n m).sends
      ++ ((if is_failed (client.process_message n m).ending then m ∷ [] else [])
          ++ sent_of (suc n) ms)

  module _ (queued : present client.dlq_topic ≡ true)
      (commits_succeed : (m : Message) (b : Bool) → client.commit_error m b ≡ none) where
    -- The end of a message.
    abbrev Ended : Message → Progress → Processing → Progress × LoopState → Type 0
    Ended m p ending s =
        (s.1 ≡ consuming)
        × (s.0.handled ≡ p.handled)
        × Went client (if is_failed ending then m ∷ [] else [])
            (if is_retryable ending then [] else m ∷ []) p s.0

    finish-Ended :
        (m : Message) (id : String) (p : Progress) (ending : Processing)
        → Ended m p ending (finish client m id p ending)
    unfolding fail_message
    finish-Ended m id p returned = rw (commits_succeed m false) (
      refl,
      refl,
      record {
        counts = omega arith;
        commits = refl;
        queues = unfold accepted in sym (append-nil _);
      },
    )
    finish-Ended m id p (retryable text) = (refl, refl, Went-nothing client p)
    finish-Ended m id p (failed text) =
        let sent = send_to_dlq client m id text p in
        rw (commits_succeed m true) (
          refl,
          send_to_dlq-handled client m id text p,
          Went-then client (m ∷ []) [] [] (m ∷ []) p sent (committed_too client m sent)
              (send_to_dlq-Went client queued m id text p) (Went-commit client m sent),
        )

    run_next :
        (polls : List Polled) (s : Progress × LoopState)
        → s.1 ≡ consuming
        → run client polls s ≡ run client polls (s.0, consuming)
    run_next polls s h = rw (sym h) refl

    -- The messages that one message sends and commits.
    abbrev sent_by : ℕ → Message → List Message
    sent_by n m =
        once_each m (client.process_message n m).sends
        ++ (if is_failed (client.process_message n m).ending then m ∷ [] else [])

    abbrev committed_by : ℕ → Message → List Message
    committed_by n m = if is_retryable (client.process_message n m).ending then [] else m ∷ []

    consume_message-Ended :
        (m : Message) (p : Progress)
        → let s = consume_message client m p in
          (s.1 ≡ consuming)
          × (s.0.handled ≡ suc p.handled)
          × Went client (sent_by p.handled m) (committed_by p.handled m) p s.0
    unfolding consume_message
    consume_message-Ended m p =
        let (id, generated) = correlation_of client m p.generated in
        let h = client.process_message p.handled m in
        let begun : Progress = record p { handled = suc p.handled; generated = generated } in
        let sent = send_all client m id h.sends begun in
        let (on, kept, w) = finish-Ended m id sent h.ending in
        let after = (finish client m id sent h.ending).0 in
        let all =
          Went-then client (once_each m h.sends) (if is_failed h.ending then m ∷ [] else []) []
            (if is_retryable h.ending then [] else m ∷ []) begun sent after
            (send_all-Went client queued m id h.sends begun) w in
        (
          on,
          kept ∙ send_all-handled client m id h.sends begun,
          record { counts = all.counts; commits = all.commits; queues = all.queues },
        )

    run-Went :
        (polls : List Polled) (p : Progress)
        → Went client
            (sent_of p.handled (messages polls))
            (commits_of p.handled (messages polls))
            p
            (run client polls (p, consuming)).0
    unfolding run sent_of commits_of
    run-Went [] p = Went-nothing client p
    run-Went (nothing ∷ polls) p = run-Went polls p
    run-Went (transient_error ∷ polls) p = run-Went polls p
    run-Went (fatal_error ∷ polls) p = Went-nothing client p
    run-Went (received m ∷ polls) p =
        let s = consume_message client m p in
        let (on, handled, w) = consume_message-Ended m p in
        let ms = messages polls in
        let rest =
          subst
            (λ (n : ℕ).
              Went client (sent_of n ms) (commits_of n ms) s.0
                (run client polls (s.0, consuming)).0)
            handled (run-Went polls s.0) in
        let all =
          Went-then client (sent_by p.handled m) (sent_of (suc p.handled) ms)
            (committed_by p.handled m) (commits_of (suc p.handled) ms) p s.0
            (run client polls (s.0, consuming)).0 w rest in
        rw
          (
            run_next polls s on,
            sym (
                append_assoc (once_each m (client.process_message p.handled m).sends)
                  (if is_failed (client.process_message p.handled m).ending then m ∷ [] else [])
                  (sent_of (suc p.handled) ms)),
          )
          all

    -- With a queue and commits that succeed: a run calls `commit` once, in order, for each message that
    -- does not end in a retryable error, and sends to the queue, in order, each message once for every
    -- time that the subclass does so itself, and once more if it ends in another exception. The queue
    -- holds what it accepted of them; what it does not accept is committed as well.
    pub run_fates :
        (polls : List Polled) (p : Progress)
        → let after = (run client polls (p, consuming)).0 in
          (after.committed ≡ p.committed ++ commits_of p.handled (messages polls))
          × (originals after.dead_letters
              ≡ originals p.dead_letters
                ++ texts (accepted client p.dlqd (sent_of p.handled (messages polls))))
    run_fates polls p = let w = run-Went polls p in (w.commits, w.queues)
