-- ===== src/Outbound/Numbers.antt =====
-- lib/ag-solo/outbound.js: the messages that `deliver` picks, and the number of the last of them.
use cosmic_swingset.Outbound.{Target, Mailbox, number, last_number, new_messages}
use cosmic_swingset.Base.{ltb, keep, All, ℕ, ◌≤◌, ◌<◌, ◌≡◌, refl, ◌≢◌, Bool, List, [], ◌∷◌, arith}
use cosmic_swingset.Base.Sort.{
  sort_by, IsSorted, All-sort_by, sort_by-IsSorted, IsStrict, IsDistinct, sort_by-IsStrict,
  All-of_sort_by,
}

module _ {B : Type 0} where
  last_number-ge :
      (n : ℕ) (ms : List (ℕ × B))
      → IsSorted number ms
      → All (λ m. n < number m) ms
      → (n ≤ last_number n ms) × All (λ m. number m ≤ last_number n ms) ms
  last_number-ge n [] h a = (omega arith, tt)
  last_number-ge n (m ∷ ms) h a =
      let below : All (λ x. m.0 ≤ number x) ms = h.0 in
      let (lo, all) = last_number-ge' m.0 ms h.1 below in (omega (arith, lo, a.0), (lo, all))
    where
      last_number-ge' :
          (k : ℕ) (xs : List (ℕ × B))
          → IsSorted number xs
          → All (λ x. k ≤ number x) xs
          → (k ≤ last_number k xs) × All (λ x. number x ≤ last_number k xs) xs
      last_number-ge' k [] s b = (omega arith, tt)
      last_number-ge' k (x ∷ xs) s b =
          let (lo, all) = last_number-ge' x.0 xs s.1 s.0 in (omega (arith, lo, b.0), (lo, all))

  All-keep-above : (n : ℕ) (ms : List (ℕ × B)) → All (λ m. n < number m) (keep (λ m. ltb n m.0) ms)
  All-keep-above n [] = tt
  All-keep-above n (m ∷ ms) = ground (arith, All-keep-above n ms)

  All-of_keep :
      (n hi : ℕ) (ms : List (ℕ × B))
      → n ≤ hi
      → All (λ m. number m ≤ hi) (keep (λ m. ltb n m.0) ms)
      → All (λ m. number m ≤ hi) ms
  All-of_keep n hi [] h a = tt
  All-of_keep n hi (m ∷ ms) h a = ground (arith, All-of_keep n hi ms h)

  All-keep :
      (P : ℕ × B → Type 0) (p : ℕ × B → Bool) (xs : List (ℕ × B)) → All P xs → All P (keep p xs)
  All-keep P p [] h = tt
  All-keep P p (x ∷ xs) h = ground (arith, All-keep P p xs h.1)

  IsDistinct-keep :
      (p : ℕ × B → Bool) (ms : List (ℕ × B)) → IsDistinct number ms → IsDistinct number (keep p ms)
  IsDistinct-keep p [] d = tt
  IsDistinct-keep p (m ∷ ms) d =
      ground
        (arith, All-keep (λ (x : ℕ × B). number m ≢ number x) p ms d.0, IsDistinct-keep p ms d.1)

  -- the new value of `highestSent`
  abbrev pub highest_after : Target → Mailbox B → ℕ
  highest_after t mb = last_number t.highest_sent (new_messages t mb)

  pub new_messages-above :
      (t : Target) (mb : Mailbox B) → All (λ m. t.highest_sent < number m) (new_messages t mb)
  unfolding new_messages
  new_messages-above t mb = All-sort_by number _ _ (All-keep-above t.highest_sent mb.outbox)

  new_messages-IsSorted : (t : Target) (mb : Mailbox B) → IsSorted number (new_messages t mb)
  unfolding new_messages
  new_messages-IsSorted t mb = sort_by-IsSorted number _

  pub highest_after-ge : (t : Target) (mb : Mailbox B) → t.highest_sent ≤ highest_after t mb
  highest_after-ge t mb =
      (last_number-ge _ _ (new_messages-IsSorted t mb) (new_messages-above t mb)).0

  pub new_messages-le :
      (t : Target) (mb : Mailbox B) → All (λ m. number m ≤ highest_after t mb) (new_messages t mb)
  new_messages-le t mb =
      (last_number-ge _ _ (new_messages-IsSorted t mb) (new_messages-above t mb)).1

  pub outbox-le : (t : Target) (mb : Mailbox B) → All (λ m. number m ≤ highest_after t mb) mb.outbox
  outbox-le t mb =
      All-of_keep t.highest_sent _ mb.outbox (highest_after-ge t mb)
        (unfold new_messages in All-of_sort_by number _ _ (new_messages-le t mb))

  pub new_messages-IsStrict :
      (t : Target) (mb : Mailbox B)
      → IsDistinct number mb.outbox
      → IsStrict number (new_messages t mb)
  unfolding new_messages
  new_messages-IsStrict t mb d = sort_by-IsStrict number _ (IsDistinct-keep _ mb.outbox d)

  pub new_messages-nil :
      (t : Target) (mb : Mailbox B)
      → All (λ m. number m ≤ t.highest_sent) mb.outbox
      → new_messages t mb ≡ []
  unfolding new_messages
  new_messages-nil t mb h = rw (keep-nothing t.highest_sent mb.outbox h) sort_by-nil
    where
      keep-nothing :
          (n : ℕ) (ms : List (ℕ × B)) → All (λ m. number m ≤ n) ms → keep (λ m. ltb n m.0) ms ≡ []
      keep-nothing n [] k = refl
      keep-nothing n (m ∷ ms) k = ground (arith, keep-nothing n ms k.1)

      sort_by-nil : sort_by {A = ℕ × B} number [] ≡ []
      sort_by-nil = unfold sort_by in refl
