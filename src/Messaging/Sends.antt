-- ===== src/Messaging/Sends.antt =====
-- What is sent to the dead-letter queue, and what it takes.
use portfolio_analytics_syst.Prelude.{
  ℕ, suc, ◌+◌, length, length-append, ap, ◌∙◌, String, true, List, [], ◌∷◌, ◌++◌, map, ◌≡◌, refl,
  sym, arith, Bool-cases, inl, inr, present, append_assoc, append-nil, map-append_lem,
  if◌then◌else◌,
}
use portfolio_analytics_syst.Messaging.Consumer.{
  Message, Client, DeadLetter, Progress, send_to_dlq, send_all, committed_too,
}

abbrev pub originals : List DeadLetter → List (String × String)
originals = map (λ (d : DeadLetter). (d.original_topic, d.original_value))

abbrev text_of : Message → String × String
text_of m = (m.topic, m.value)

abbrev pub texts : List Message → List (String × String)
texts = map text_of

-- One call of the dead-letter queue for each.
abbrev pub once_each : Message → List String → List Message
once_each m [] = []
once_each m (reason ∷ reasons) = m ∷ once_each m reasons

module _ (client : Client) where
  -- What the queue takes of what is sent, `n` having been sent before.
  unfoldable pub accepted : ℕ → List Message → List Message
  accepted n [] = []
  accepted n (m ∷ ms) =
      if client.dlq_accepts n m then m ∷ accepted (suc n) ms else accepted (suc n) ms

  accepted-append :
      (n : ℕ) (xs ys : List Message)
      → accepted n (xs ++ ys) ≡ accepted n xs ++ accepted (n + length xs) ys
  unfolding accepted
  accepted-append n [] ys = ap (λ k. accepted k ys) (omega arith)
  accepted-append n (x ∷ xs) ys =
      let e : suc n + length xs ≡ n + length (x ∷ xs) = omega arith in
      elim (Bool-cases (client.dlq_accepts n x)) [
        | inl h ↦ rw (h) (
            ap (λ l. x ∷ l)
              (accepted-append (suc n) xs ys ∙ ap (λ k. accepted (suc n) xs ++ accepted k ys) e))
        | inr h ↦
            rw (h)
              (accepted-append (suc n) xs ys ∙ ap (λ k. accepted (suc n) xs ++ accepted k ys) e)
      ]

  -- Some messages are sent, and `commit` is called for some.
  pub record Went (sent committed : List Message) (p q : Progress) : Type 0 where
    pub counts : q.dlqd ≡ p.dlqd + length sent
    pub commits : q.committed ≡ p.committed ++ committed
    pub queues : originals q.dead_letters ≡ originals p.dead_letters ++ texts (accepted p.dlqd sent)

  pub Went-nothing : (p : Progress) → Went [] [] p p
  unfolding accepted
  Went-nothing p = record {
    counts = omega arith;
    commits = sym (append-nil _);
    queues = sym (append-nil _);
  }

  pub Went-then :
      (s t c d : List Message) (p q r : Progress)
      → Went s c p q
      → Went t d q r
      → Went (s ++ t) (c ++ d) p r
  Went-then s t c d p q r f g =
      let before = originals p.dead_letters in
      record {
        counts = rw (length-append s t) (omega (arith, f.counts, g.counts));
        commits = g.commits ∙ ap (λ l. l ++ d) f.commits ∙ append_assoc p.committed c d;
        queues =
            g.queues
            ∙ ap (λ k. originals q.dead_letters ++ texts (accepted k t)) f.counts
            ∙ ap (λ l. l ++ texts (accepted (p.dlqd + length s) t)) f.queues
            ∙ append_assoc before (texts (accepted p.dlqd s)) _
            ∙ ap (λ l. before ++ l)
                (sym (
                  ap texts (accepted-append p.dlqd s t)
                  ∙ map-append_lem text_of (accepted p.dlqd s) _));
      }

  pub Went-commit : (m : Message) (p : Progress) → Went [] (m ∷ []) p (committed_too client m p)
  unfolding accepted
  Went-commit m p = record { counts = omega arith; commits = refl; queues = sym (append-nil _) }

  pub send_to_dlq-handled :
      (m : Message) (id reason : String) (p : Progress)
      → (send_to_dlq client m id reason p).handled ≡ p.handled
  unfolding send_to_dlq
  send_to_dlq-handled m id reason p = elim (Bool-cases (present client.dlq_topic)) [
    | inr e ↦ rw (e) refl
    | inl e ↦ elim (Bool-cases (client.dlq_accepts p.dlqd m)) [
      | inl h ↦ rw (e, h) refl
      | inr h ↦ rw (e, h) refl
    ]
  ]

  pub send_all-handled :
      (m : Message) (id : String) (reasons : List String) (p : Progress)
      → (send_all client m id reasons p).handled ≡ p.handled
  unfolding send_all
  send_all-handled m id [] p = refl
  send_all-handled m id (reason ∷ reasons) p =
      send_all-handled m id reasons (send_to_dlq client m id reason p)
      ∙ send_to_dlq-handled m id reason p

  module _ (queued : present client.dlq_topic ≡ true) where
    pub send_to_dlq-Went :
        (m : Message) (id reason : String) (p : Progress)
        → Went (m ∷ []) [] p (send_to_dlq client m id reason p)
    unfolding send_to_dlq accepted
    send_to_dlq-Went m id reason p = elim (Bool-cases (client.dlq_accepts p.dlqd m)) [
      | inl e ↦ record {
        counts = rw (queued, e) (omega arith);
        commits = rw (queued, e) (sym (append-nil _));
        queues = rw (queued, e) (map-append_lem _ p.dead_letters _);
      }
      | inr e ↦ record {
        counts = rw (queued, e) (omega arith);
        commits = rw (queued, e) (sym (append-nil _));
        queues = rw (queued, e) (sym (append-nil _));
      }
    ]

    pub send_all-Went :
        (m : Message) (id : String) (reasons : List String) (p : Progress)
        → Went (once_each m reasons) [] p (send_all client m id reasons p)
    unfolding send_all
    send_all-Went m id [] p = Went-nothing p
    send_all-Went m id (reason ∷ reasons) p =
        let next = send_to_dlq client m id reason p in
        Went-then (m ∷ []) (once_each m reasons) [] [] p next (send_all client m id reasons next)
          (send_to_dlq-Went m id reason p) (send_all-Went m id reasons next)
