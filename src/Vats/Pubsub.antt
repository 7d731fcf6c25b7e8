-- ===== src/Vats/Pubsub.antt =====
-- lib/ag-solo/vats/pubsub.js. A subscriber is known by a number; the eventual sends
-- `E(s).notify(m)` are kept in order.
mod Tests
use cosmic_swingset.Base.{
  nat_beq, if◌then◌else◌, any, any-append, ℕ, ◌≡◌, refl, ◌∙◌, true, Option, none, some, List, [],
  ◌∷◌, ◌++◌, map, arith,
}

pub record Pubsub {ℓ} (M : Type ℓ) : Type ℓ where
  pub last_published : Option M
  pub subscribers : List ℕ
  pub notified : List (ℕ × M)

-- The calls of the two methods.
pub data Event {ℓ} (M : Type ℓ) : Type ℓ where
  subscribed : ℕ → Event M
  published : M → Event M

module _ {ℓ} {M : Type ℓ} where
  abbrev pub make_pubsub : Pubsub M
  make_pubsub = record { last_published = none; subscribers = []; notified = [] }

  pub subscribe : ℕ → Pubsub M → Pubsub M
  subscribe s p = record p {
    subscribers = p.subscribers ++ s ∷ [];
    notified = elim p.last_published [ none ↦ p.notified | some m ↦ p.notified ++ (s, m) ∷ [] ];
  }

  pub publish : M → Pubsub M → Pubsub M
  publish m p = record p {
    last_published = some m;
    notified = p.notified ++ map (λ s. (s, m)) p.subscribers;
  }

  pub run : List (Event M) → Pubsub M → Pubsub M
  unfolding subscribe publish
  run [] p = p
  run (subscribed s ∷ rest) p = run rest (subscribe s p)
  run (published m ∷ rest) p = run rest (publish m p)

  -- The last message that a subscriber was sent, after an earlier one.
  abbrev pub last_sent : ℕ → Option M → List (ℕ × M) → Option M
  last_sent s was [] = was
  last_sent s was ((t, m) ∷ rest) = last_sent s (if nat_beq t s then some m else was) rest

  last_sent-append :
      (s : ℕ) (was : Option M) (xs ys : List (ℕ × M))
      → last_sent s was (xs ++ ys) ≡ last_sent s (last_sent s was xs) ys
  last_sent-append s was [] ys = refl
  last_sent-append s was ((t, m) ∷ xs) ys =
      last_sent-append s (if nat_beq t s then some m else was) xs ys

  last_sent-map :
      (s : ℕ) (was : Option M) (m : M) (ss : List ℕ)
      → last_sent s was (map (λ t. (t, m)) ss) ≡ (if any (λ t. nat_beq t s) ss then some m else was)
  last_sent-map s was m [] = refl
  last_sent-map s was m (t ∷ ss) =
      ground (arith, last_sent-map s was m ss, last_sent-map s (some m) m ss)

  -- Every subscriber was last sent what was last published; before that nothing was sent.
  abbrev IsCurrent : Pubsub M → Type ℓ
  IsCurrent p =
      ((s : ℕ)
        → any (λ t. nat_beq t s) p.subscribers ≡ true
        → last_sent s none p.notified ≡ p.last_published)
      × (p.last_published ≡ none → p.notified ≡ [])

  subscribe-IsCurrent :
      (s : ℕ) (last : Option M) (subs : List ℕ) (sent : List (ℕ × M))
      → IsCurrent (record { last_published = last; subscribers = subs; notified = sent })
      → IsCurrent
          (subscribe s (record { last_published = last; subscribers = subs; notified = sent }))
  unfolding subscribe
  subscribe-IsCurrent s none subs sent (h, k) = (λ t here. rw (k refl), k)
  subscribe-IsCurrent s (some m) subs sent (h, k) = (
    λ t here. ground (
      arith,
      any-append (λ u. nat_beq u t) subs (s ∷ []),
      last_sent-append t none sent ((s, m) ∷ []),
      h t,
    ),
    λ e. cc,
  )

  publish-IsCurrent : (m : M) (p : Pubsub M) → IsCurrent p → IsCurrent (publish m p)
  unfolding publish
  publish-IsCurrent m p (h, k) = (
    λ t here.
        last_sent-append t none p.notified (map (λ s. (s, m)) p.subscribers)
        ∙ last_sent-map t (last_sent t none p.notified) m p.subscribers
        ∙ ground (arith, here),
    λ e. cc,
  )

  run-IsCurrent : (events : List (Event M)) (p : Pubsub M) → IsCurrent p → IsCurrent (run events p)
  unfolding run
  run-IsCurrent [] p h = h
  run-IsCurrent (subscribed s ∷ rest) p h =
      run-IsCurrent rest (subscribe s p)
        (subscribe-IsCurrent s p.last_published p.subscribers p.notified h)
  run-IsCurrent (published m ∷ rest) p h =
      run-IsCurrent rest (publish m p) (publish-IsCurrent m p h)

  -- After any calls of `subscribe` and `publish`, in any order, the last message that a subscriber
  -- was sent is the one that was last published, also for one that came after it.
  pub subscribers_are_current :
      (events : List (Event M)) (s : ℕ)
      → any (λ t. nat_beq t s) (run events make_pubsub).subscribers ≡ true
      → last_sent s none (run events make_pubsub).notified ≡ (run events make_pubsub).last_published
  subscribers_are_current events s h =
      (run-IsCurrent events make_pubsub (λ t here. refl, λ e. refl)).0 s h
