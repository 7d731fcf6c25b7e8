-- ===== src/Launch/Saved.antt =====
-- lib/launch-chain.js: what is on the chain and in the state file after every call.
use mathlib.Core.Path.{subst}
use cosmic_swingset.Launch.{
  Peer, Kernel, Chain, Messages, array, not_array, peer_key, mailbox_key, save_state, publish_peers,
  launch, publish_changed, take_in, deliver, Laws,
}
use cosmic_swingset.Base.{
  Bool-cases, ok, ◌==◌, ==_iff, ==_refl, nat_eq, string_eq, list_eq, ℕ, ◌≡◌, refl, sym, ◌∙◌, ◌≢◌,
  inl, inr, Bool, true, false, none, some, [], ◌∷◌,
}
use cosmic_swingset.Base.Dict.{
  Dict, lookup, insert, lookup-insert_self, lookup-insert_ne, HasDistinctKeys,
}
use cosmic_swingset.Base.Text.{Text}

module _ {K Message : Type 0} (k : Kernel K Message) where
  -- The state file and the chain's `mailbox` hold the kernel as it is.
  abbrev pub IsSaved : Chain K → Type 0
  IsSaved c =
      (c.state_file ≡ some (k.kernel_state c.kernel))
      × (lookup mailbox_key c.mailbox_storage ≡ some (k.stringify_data (k.export_to_data c.kernel)))

  -- Every peer finds its outbox and its ack under its own key.
  abbrev pub IsPublished : Chain K → Type 0
  IsPublished c =
      (peer : Text) (p : Peer)
      → lookup peer (k.export_to_data c.kernel) ≡ some p
      → lookup (peer_key peer) c.mailbox_storage ≡ some (k.stringify_peer p.outbox p.inbound_ack)

  save_state-IsSaved : (c : Chain K) → IsSaved (save_state k c)
  unfolding save_state
  save_state-IsSaved c = (refl, lookup-insert_self mailbox_key _ c.mailbox_storage)

  peer_key-ne-mailbox : (peer : Text) → mailbox_key ≢ peer_key peer
  peer_key-ne-mailbox peer e = cc

  peer_key-injective : (p q : Text) → peer_key p ≡ peer_key q → p ≡ q
  peer_key-injective p q e = cc

  save_state-IsPublished : (c : Chain K) → IsPublished c → IsPublished (save_state k c)
  unfolding save_state
  save_state-IsPublished c h peer p e =
      lookup-insert_ne mailbox_key (peer_key peer) _ c.mailbox_storage (peer_key-ne-mailbox peer)
      ∙ h peer p e

  lookup-cons_ne :
      (peer q : Text) (r : Peer) (d : Dict Text Peer)
      → (q == peer) ≡ false
      → lookup peer ((q, r) ∷ d) ≡ lookup peer d
  unfolding lookup
  lookup-cons_ne peer q r d other = rw other

  lookup-cons_self :
      (peer : Text) (r : Peer) (d : Dict Text Peer) → lookup peer ((peer, r) ∷ d) ≡ some r
  unfolding lookup
  lookup-cons_self peer r d = rw (==_refl peer)

  publish_one :
      (peer q : Text) (r : Peer) (storage : Dict Text Text)
      → (q == peer) ≡ false
      → lookup
          (peer_key peer)
          (insert (peer_key q) (k.stringify_peer r.outbox r.inbound_ack) storage)
        ≡ lookup (peer_key peer) storage
  publish_one peer q r storage other =
      lookup-insert_ne (peer_key q) (peer_key peer) _ storage
        (λ same. let e : q ≡ peer = peer_key-injective q peer same in cc ((==_iff q peer).1 e))

  lookup-publish_peers_ne :
      (peer : Text) (d : Dict Text Peer) (storage : Dict Text Text)
      → lookup peer d ≡ none
      → lookup (peer_key peer) (publish_peers k d storage) ≡ lookup (peer_key peer) storage
  unfolding publish_peers
  lookup-publish_peers_ne peer [] storage h = refl
  lookup-publish_peers_ne peer ((q, r) ∷ d) storage h = elim (Bool-cases (q == peer)) [
    | inl same ↦
        let found : lookup peer ((q, r) ∷ d) ≡ some r =
          subst (λ x. lookup x ((q, r) ∷ d) ≡ some r) ((==_iff q peer).0 same)
            (lookup-cons_self q r d) in
        cc
    | inr other ↦
        lookup-publish_peers_ne peer d
          (insert (peer_key q) (k.stringify_peer r.outbox r.inbound_ack) storage)
          (sym (lookup-cons_ne peer q r d other) ∙ h)
        ∙ publish_one peer q r storage other
  ]

  lookup-publish_peers :
      (peer : Text) (p : Peer) (d : Dict Text Peer) (storage : Dict Text Text)
      → HasDistinctKeys d
      → lookup peer d ≡ some p
      → lookup (peer_key peer) (publish_peers k d storage)
        ≡ some (k.stringify_peer p.outbox p.inbound_ack)
  unfolding publish_peers
  lookup-publish_peers peer p [] storage dist e = absurd (missing e)
    where
      missing : lookup {V = Peer} peer [] ≢ some p
      missing f = unfold lookup in cc
  lookup-publish_peers peer p ((q, r) ∷ d) storage dist e = elim (Bool-cases (q == peer)) [
    | inl same ↦
        let at_q : q ≡ peer = (==_iff q peer).0 same in
        let absent : lookup peer d ≡ none = subst (λ x. lookup x d ≡ none) at_q dist.0 in
        let found : lookup peer ((q, r) ∷ d) ≡ some r =
          subst (λ x. lookup x ((q, r) ∷ d) ≡ some r) at_q (lookup-cons_self q r d) in
        let here : p ≡ r = cc in
        lookup-publish_peers_ne peer d
          (insert (peer_key q) (k.stringify_peer r.outbox r.inbound_ack) storage) absent
        ∙ rw (here, at_q) (lookup-insert_self (peer_key peer) _ storage)
    | inr other ↦
        lookup-publish_peers peer p d
          (insert (peer_key q) (k.stringify_peer r.outbox r.inbound_ack) storage) dist.1
          (sym (lookup-cons_ne peer q r d other) ∙ e)
  ]

  module _ (laws : Laws k) where
    publish_changed-IsPublished :
        (before : K) (c : Chain K)
        → ((peer : Text) (p : Peer)
            → lookup peer (k.export_to_data before) ≡ some p
            → lookup (peer_key peer) c.mailbox_storage
              ≡ some (k.stringify_peer p.outbox p.inbound_ack))
        → IsPublished (publish_changed k (k.stringify_data (k.export_to_data before)) c)
    unfolding publish_changed
    publish_changed-IsPublished before c h =
        elim (Bool-cases (
          k.stringify_data (k.export_to_data c.kernel)
          == k.stringify_data (k.export_to_data before))) [
            | inl same ↦
                let e : k.export_to_data before ≡ k.export_to_data c.kernel =
                  sym (laws.faithful c.kernel before ((==_iff _ _).0 same)) in
                rw (same, publish_changed) (λ peer p found. h peer p (rw e found))
            | inr changed ↦
                rw (changed, publish_changed)
                  (λ peer p found.
                    lookup-publish_peers peer p (k.export_to_data c.kernel) c.mailbox_storage
                      (laws.distinct c.kernel) found)
          ]

    take_in-IsSaved :
        (fresh : Bool) (before : K) (c : Chain K)
        → (fresh ≡ false → IsSaved c)
        → ((peer : Text) (p : Peer)
            → lookup peer (k.export_to_data before) ≡ some p
            → lookup (peer_key peer) c.mailbox_storage
              ≡ some (k.stringify_peer p.outbox p.inbound_ack))
        → (fresh ≡ false → IsPublished c)
        → let after : Chain K = take_in k fresh (k.stringify_data (k.export_to_data before)) c in
          IsSaved after × IsPublished after
    unfolding take_in
    take_in-IsSaved true before c s h p =
        let old : Text = k.stringify_data (k.export_to_data before) in
        let ran : Chain K = record c { kernel = k.run c.kernel } in
        (
          save_state-IsSaved (publish_changed k old ran),
          save_state-IsPublished (publish_changed k old ran)
              (publish_changed-IsPublished before ran h),
        )
    take_in-IsSaved false before c s h p = (s refl, p refl)

    -- Every call of `deliverInbound` that does not throw leaves a chain on which all is saved and
    -- published, if it was so before: the state file and `mailbox` hold the kernel as it is, and
    -- every peer's key holds that peer's outbox and ack.
    pub deliver-IsSaved :
        (sender : Text) (messages : Messages Message) (ack : ℕ) (c c' : Chain K)
        → IsSaved c
        → IsPublished c
        → deliver k sender messages ack c ≡ ok c'
        → IsSaved c' × IsPublished c'
    unfolding deliver
    deliver-IsSaved sender not_array ack c c' s p e = cc
    deliver-IsSaved sender (array messages) ack c c' s p e =
        let r = k.deliver_inbound sender messages ack c.kernel in
        let made : take_in k r.0 (k.stringify_data (k.export_to_data c.kernel))
              (record c { kernel = r.1 })
            ≡ c' =
          cc in
        subst (λ (x : Chain K). IsSaved x × IsPublished x) made
          (take_in-IsSaved r.0 c.kernel (record c { kernel = r.1 })
            (λ stale. rw (laws.quiet sender messages ack c.kernel stale) s) p
            (λ stale. rw (laws.quiet sender messages ack c.kernel stale) p))

  -- A chain that was just launched is saved.
  pub launch-IsSaved : (built : K) (storage : Dict Text Text) → IsSaved (launch k built storage)
  unfolding launch
  launch-IsSaved built storage =
      save_state-IsSaved
        (record { kernel = k.run built; mailbox_storage = storage; state_file = none })
