-- ===== src/Bus/Delivery.antt =====
-- Which handlers `_deliver` of rann_agent/orchestration/message_bus.py calls.
use rann_agent.Prelude.{
  ℕ, ◌+◌, String, ◌≡◌, ◌≢◌, eq_iff, ◌⊎◌, inl, inr, refl, sym, ◌∙◌, ap, Bool, false, none, some,
  List, [], ◌∷◌, ◌++◌, str_eq, eq_refl, append_assoc, append-nil, arith, Option-cases, Bool-cases,
  if◌then◌else◌,
}
use rann_agent.Exec.{ok}
use rann_agent.Dict.{lookup, insert, lookup-insert, lookup-delete}
use rann_agent.Json.{Fields}
use rann_agent.Bus.Message.{Message, is_expired}
use rann_agent.Bus.Methods.{
  Subscription, Delivery, Bus, match_subscriptions, deliver_to, deliver, request_of, call, count,
  handle_message, request, message_of, answered, unanswered,
}

-- One call for each subscription.
abbrev pub calls : List Subscription → Message → List (String × Message)
calls [] m = []
calls (s ∷ ss) m = (s.handler, m) ∷ calls ss m

module _ (matches : String → String → Bool) (raises : String → Message → Bool) where
  -- How many of the handlers return, and how many raise.
  abbrev pub returning : List Subscription → Message → ℕ
  returning [] m = 0
  returning (s ∷ ss) m = (if raises s.handler m then 0 else 1) + returning ss m

  abbrev pub raising : List Subscription → Message → ℕ
  raising [] m = 0
  raising (s ∷ ss) m = (if raises s.handler m then 1 else 0) + raising ss m

  -- The statistics with each of these handlers counted.
  abbrev pub counted : List Subscription → Message → Delivery → Delivery
  counted ss m s = record {
    delivered = s.delivered + returning ss m;
    failed = s.failed + raising ss m;
    pending = s.pending;
  }

  counted-none : (m : Message) (s : Delivery) → counted [] m s ≡ s
  counted-none m s = same (s.delivered + 0) (s.failed + 0) (omega arith) (omega arith)
    where
      same :
          (d f : ℕ)
          → d ≡ s.delivered
          → f ≡ s.failed
          → ◌≡◌ {A = Delivery} (record { delivered = d; failed = f; pending = s.pending }) s
      same d f e g = rw (e, g) refl

  counted-cons :
      (x : Subscription) (ss : List Subscription) (m : Message) (s : Delivery)
      → counted ss m (count (raises x.handler m) s) ≡ counted (x ∷ ss) m s
  counted-cons x ss m s = elim (Bool-cases (raises x.handler m)) [
    | inl e ↦ rw e (same _ _ _ _ (omega arith) (omega arith))
    | inr e ↦ rw e (same _ _ _ _ (omega arith) (omega arith))
  ]
    where
      same :
          (d d' f f' : ℕ)
          → d ≡ d'
          → f ≡ f'
          → ◌≡◌ {A = Delivery}
              (record { delivered = d; failed = f; pending = s.pending })
              (record { delivered = d'; failed = f'; pending = s.pending })
      same d d' f f' e g = rw (e, g) refl

  -- Where the topic has statistics, the loop ends, calls every handler once, in order, and counts each.
  deliver_to-known :
      (ss : List Subscription) (m : Message) (b : Bus) (s : Delivery)
      → lookup m.topic b.delivery_stats ≡ some s
      → ((deliver_to matches raises ss m b).0 ≡ ok tt)
        × ((deliver_to matches raises ss m b).1.called ≡ b.called ++ calls ss m)
        × (lookup m.topic (deliver_to matches raises ss m b).1.delivery_stats
            ≡ some (counted ss m s))
        × ((deliver_to matches raises ss m b).1.dead_letter ≡ b.dead_letter)
  unfolding deliver_to
  deliver_to-known [] m b s h =
      (refl, sym (append-nil b.called), h ∙ ap some (sym (counted-none m s)), refl)
  deliver_to-known (x ∷ ss) m b s h =
      let (r, c, n, d) =
        deliver_to-known ss m after (count (raises x.handler m) s)
          (rw (lookup-insert m.topic m.topic _ b.delivery_stats, eq_refl m.topic) refl) in
      rw h (
        r,
        c ∙ append_assoc b.called ((x.handler, m) ∷ []) (calls ss m),
        n ∙ ap some (counted-cons x ss m s),
        d,
      )
    where
      after : Bus
      after = record (call x m b) {
        delivery_stats = insert m.topic (count (raises x.handler m) s) b.delivery_stats;
      }

  -- A message that is neither expired nor the answer to a request, for the subscriptions that match it,
  -- one at least. Where its topic has statistics, each handler is called once, in order, those that
  -- return are added to the delivered ones and those that raise to the failed ones, and the message gets
  -- the time of its delivery. Where the topic has none, only the first handler is called, nothing is
  -- counted, and the message goes to the dead letters as it was.
  pub handle_message-matching :
      (now later : ℕ) (m : Message) (b : Bus) (x : Subscription) (ss : List Subscription)
      → is_expired now m ≡ false
      → request_of m.correlation_id b.requests ≡ none
      → match_subscriptions matches m.topic m.recipient_id b.subscriptions ≡ x ∷ ss
      → (((s : Delivery) × (lookup m.topic b.delivery_stats ≡ some s)
            × (lookup m.topic (handle_message matches raises now later m b).1.delivery_stats
                ≡ some (counted (x ∷ ss) m s)))
          × ((handle_message matches raises now later m b).1.called ≡ b.called ++ calls (x ∷ ss) m)
          × ((handle_message matches raises now later m b).1.dead_letter ≡ b.dead_letter)
          × ((handle_message matches raises now later m b).0
              ≡ record m { delivered_at = some later }))
        ⊎ ((lookup m.topic b.delivery_stats ≡ none)
            × ((handle_message matches raises now later m b).1.called
                ≡ b.called ++ calls (x ∷ []) m)
            × ((handle_message matches raises now later m b).1.delivery_stats ≡ b.delivery_stats)
            × ((handle_message matches raises now later m b).1.dead_letter
                ≡ b.dead_letter ++ (m ∷ []))
            × ((handle_message matches raises now later m b).0 ≡ m))
  unfolding handle_message deliver
  handle_message-matching now later m b x ss fresh new found =
      elim (Option-cases (lookup m.topic b.delivery_stats)) [
        | inr (s, h) ↦
            let (r, c, n, d) = deliver_to-known (x ∷ ss) m b s h in
            inl (rw (fresh, new, found, r) ((s, h, n), c, d, refl))
        | inl h ↦ inr (rw (fresh, new, found, deliver_to, h) (refl, refl, refl, refl, refl))
      ]

  -- The message of a request is the first that answers it: while nothing else has, its delivery calls no
  -- handler, gives the request its own message as the response, and the request waits no longer.
  pub deliver-request :
      (id c topic sender_id : String) (payload : Fields) (now : ℕ) (b : Bus)
      → c ≢ ""
      → ((deliver matches raises
            (request id c topic sender_id payload now b).0
            (request id c topic sender_id payload now b).1).0
          ≡ (ok tt, some (answered (request id c topic sender_id payload now b).0)))
        × ((deliver matches raises
              (request id c topic sender_id payload now b).0
              (request id c topic sender_id payload now b).1).1.called
            ≡ b.called)
        × (lookup c
              (deliver matches raises
                (request id c topic sender_id payload now b).0
                (request id c topic sender_id payload now b).1).1.requests
            ≡ none)
  unfolding deliver request message_of
  deliver-request id c topic sender_id payload now b proper =
      rw (not_empty, lookup-insert c c unanswered b.requests, eq_refl c)
        (refl, refl, rw (lookup-delete c c (insert c unanswered b.requests), eq_refl c) refl)
    where
      not_empty : str_eq c "" ≡ false
      not_empty = ground (arith, eq_iff c "", proper)
