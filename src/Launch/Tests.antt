-- ===== src/Launch/Tests.antt =====
-- A chain over a small kernel: its state is the list of the messages it took.
use mathlib.Core.List.{[]}
use cosmic_swingset.Launch.{Peer, Kernel, Chain, array, save_state, launch, take_in, deliver, Laws}
use cosmic_swingset.Launch.Saved.{IsSaved, IsPublished, deliver-IsSaved, launch-IsSaved}
use cosmic_swingset.Base.{
  nat_eq, string_eq, list_eq, ℕ, ◌≡◌, refl, ap, Bool, true, false, List, ◌∷◌, ◌++◌,
}
use cosmic_swingset.Base.Dict.{Dict, lookup, HasDistinctKeys}
use cosmic_swingset.Base.Text.{Text, codes}

abbrev tiny_deliver : Text → List ℕ → ℕ → Text → Bool × Text
tiny_deliver sender [] ack s = (false, s)
tiny_deliver sender (m ∷ ms) ack s = (true, s ++ m ∷ ms)

-- One peer, `a`, whose outbox is the state, unless that is empty.
abbrev tiny_data : Text → Dict Text Peer
tiny_data [] = []
tiny_data (m ∷ ms) = (codes "a", record { outbox = m ∷ ms; inbound_ack = 0 }) ∷ []

abbrev write : Dict Text Peer → Text
write [] = []
write ((_, p) ∷ _) = p.outbox

abbrev tiny : Kernel Text ℕ
tiny = record {
  deliver_inbound = tiny_deliver;
  run = λ s. s;
  export_to_data = tiny_data;
  stringify_data = write;
  stringify_peer = λ outbox ack. outbox;
  kernel_state = λ s. s;
}

tiny_quiet :
    (sender : Text) (messages : List ℕ) (ack : ℕ) (s : Text)
    → (tiny_deliver sender messages ack s).0 ≡ false
    → (tiny_deliver sender messages ack s).1 ≡ s
tiny_quiet sender [] ack s h = refl
tiny_quiet sender (m ∷ ms) ack s h = cc

tiny_distinct : (s : Text) → HasDistinctKeys (tiny_data s)
unfolding lookup
tiny_distinct [] = tt
tiny_distinct (m ∷ ms) = (refl, tt)

tiny_faithful : (a b : Text) → write (tiny_data a) ≡ write (tiny_data b) → tiny_data a ≡ tiny_data b
tiny_faithful [] [] e = refl
tiny_faithful [] (n ∷ ns) e = cc
tiny_faithful (m ∷ ms) [] e = cc
tiny_faithful (m ∷ ms) (n ∷ ns) e = ap tiny_data e

tiny-Laws : Laws tiny
tiny-Laws = record { quiet = tiny_quiet; distinct = tiny_distinct; faithful = tiny_faithful }

abbrev started : Chain Text
started = launch tiny [] []

started-IsPublished : IsPublished tiny started
unfolding launch save_state lookup
started-IsPublished peer p e = cc

abbrev later : Chain Text
later = take_in tiny true [] (record started { kernel = 1 ∷ 2 ∷ [] })

deliver-IsSaved_example : IsSaved tiny later × IsPublished tiny later
unfolding deliver launch save_state
deliver-IsSaved_example =
    deliver-IsSaved tiny tiny-Laws (codes "a") (array (1 ∷ 2 ∷ [])) 0 started later
      (launch-IsSaved tiny [] []) started-IsPublished refl
