-- ===== src/Bus/Unsubscribed.antt =====
-- What is left after `unsubscribe_all` of rann_agent/orchestration/message_bus.py.
use rann_agent.Prelude.{
  ◌+◌, String, ◌≡◌, inl, inr, refl, ◌∙◌, Bool, not, Option, List, [], ◌∷◌, ◌++◌, length, str_eq,
  filterb, length-append, length-filterb-le, if◌then◌else◌, arith, Bool-cases,
}
use rann_agent.Dict.{Dict}
use rann_agent.Bus.Methods.{
  Subscription, Bus, match_subscriptions, is_for, others, put_subs, drop_subscriber,
  unsubscribe_all,
}

module _ {A : Type 0} (p : A → Bool) where
  filterb-append : (xs ys : List A) → filterb p (xs ++ ys) ≡ filterb p xs ++ filterb p ys
  filterb-append [] ys = refl
  filterb-append (x ∷ xs) ys = elim (Bool-cases (p x)) [
    | inl e ↦ rw (e, filterb-append xs ys) refl
    | inr e ↦ rw (e, filterb-append xs ys) refl
  ]

  filterb_comm : (q : A → Bool) (xs : List A) → filterb p (filterb q xs) ≡ filterb q (filterb p xs)
  filterb_comm q [] = refl
  filterb_comm q (x ∷ xs) = ground (arith, filterb_comm q xs)

-- Every subscription of the bus.
abbrev pub all_subs : Dict (List Subscription) → List Subscription
all_subs [] = []
all_subs ((topic, subs) ∷ d) = subs ++ all_subs d

all_subs-put_subs :
    (topic : String) (subs : List Subscription) (d : Dict (List Subscription))
    → all_subs (put_subs topic subs d) ≡ subs ++ all_subs d
all_subs-put_subs topic [] d = refl
all_subs-put_subs topic (s ∷ ss) d = refl

module _ (matches : String → String → Bool) (subscriber_id : String) where
  match_subscriptions-put_subs :
      (topic : String) (r : Option String) (t : String) (subs : List Subscription)
      (d : Dict (List Subscription))
      → match_subscriptions matches topic r (put_subs t subs d) ≡ (
          if matches topic t
          then filterb (is_for r) subs ++ match_subscriptions matches topic r d
          else match_subscriptions matches topic r d)
  unfolding match_subscriptions
  match_subscriptions-put_subs topic r t [] d = ground arith
  match_subscriptions-put_subs topic r t (s ∷ ss) d = refl

  match_subscriptions-drop :
      (topic : String) (r : Option String) (d : Dict (List Subscription))
      → match_subscriptions matches topic r (drop_subscriber subscriber_id d).1
        ≡ others subscriber_id (match_subscriptions matches topic r d)
  unfolding drop_subscriber match_subscriptions
  match_subscriptions-drop topic r [] = refl
  match_subscriptions-drop topic r ((t, subs) ∷ d) =
      match_subscriptions-put_subs topic r t (others subscriber_id subs)
        (drop_subscriber subscriber_id d).1
      ∙ rw (match_subscriptions-drop topic r d) (elim (Bool-cases (matches topic t)) [
        | inl e ↦
            rw
              (
                e,
                filterb_comm (is_for r) (λ s. not (str_eq s.subscriber_id subscriber_id)) subs,
                filterb-append (λ s. not (str_eq s.subscriber_id subscriber_id))
                    (filterb (is_for r) subs) (match_subscriptions matches topic r d),
              )
              refl
        | inr e ↦ rw e refl
      ])

  all_subs-drop :
      (d : Dict (List Subscription))
      → (drop_subscriber subscriber_id d).0 + length (all_subs (drop_subscriber subscriber_id d).1)
        ≡ length (all_subs d)
  unfolding drop_subscriber
  all_subs-drop [] = refl
  all_subs-drop ((t, subs) ∷ d) =
      rw (all_subs-put_subs t (others subscriber_id subs) (drop_subscriber subscriber_id d).1) (
        omega (
          arith,
          all_subs-drop d,
          length-append (others subscriber_id subs) (all_subs (drop_subscriber subscriber_id d).1),
          length-append subs (all_subs d),
          length-filterb-le (λ s. not (str_eq s.subscriber_id subscriber_id)) subs,
        ))

  -- After unsubscribe_all a message is matched by the subscriptions that matched it before, without
  -- those of the subscriber, in the same order; the answer is by how many subscriptions there are less.
  pub unsubscribe_all-matched :
      (b : Bus)
      → ((topic : String) (r : Option String)
          → match_subscriptions matches topic r (unsubscribe_all subscriber_id b).1.subscriptions
            ≡ others subscriber_id (match_subscriptions matches topic r b.subscriptions))
        × ((unsubscribe_all subscriber_id b).0
              + length (all_subs (unsubscribe_all subscriber_id b).1.subscriptions)
            ≡ length (all_subs b.subscriptions))
  unfolding unsubscribe_all
  unsubscribe_all-matched b =
      (λ topic r. match_subscriptions-drop topic r b.subscriptions, all_subs-drop b.subscriptions)
