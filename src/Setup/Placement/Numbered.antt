-- ===== src/Setup/Placement/Numbered.antt =====
-- setup/init.js: the numbers that the offsets give to the nodes.
use mathlib.Core.List.{append_assoc}
use mathlib.Core.Path.{subst}
use cosmic_swingset.Setup.Placement.{
  Round, no_choices, play, nodes_of, Row, collate, Thrown, no_nodes, all_nodes, do_init,
}
use cosmic_swingset.Base.{
  leb, not, ◌&&◌, nat_beq, if◌then◌else◌, length, get_elem?, length-append, All, Result, ok, err,
  nat_eq, string_eq, list_eq, ℕ, zero, suc, ◌+◌, ◌<◌, ◌≡◌, refl, sym, ap, ◌∙◌, Bool, true, false,
  Option, none, some, List, [], ◌∷◌, ◌++◌, arith,
}
use cosmic_swingset.Base.Dict.{Dict}
use cosmic_swingset.Base.Text.{Text}

get_elem?-behind :
    (xs ys : List Text) (i : ℕ) → get_elem? (xs ++ ys) (length xs + i) ≡ get_elem? ys i
get_elem?-behind [] ys i = let e : 0 + i ≡ i = omega arith in ap (get_elem? ys) e
get_elem?-behind (x ∷ xs) ys i =
    let e : suc (length xs) + i ≡ suc (length xs + i) = omega arith in
    ap (get_elem? (x ∷ (xs ++ ys))) e ∙ get_elem?-behind xs ys i

get_elem?-within :
    (xs ys : List Text) (i : ℕ) → i < length xs → get_elem? (xs ++ ys) i ≡ get_elem? xs i
get_elem?-within [] ys i h = absurd (omega arith)
get_elem?-within (x ∷ xs) ys zero h = refl
get_elem?-within (x ∷ xs) ys (suc i) h = get_elem?-within xs ys i (omega (arith, h))

-- In a list of all nodes, those of a row stand from its offset on.
abbrev pub IsNumberedIn : List Text → Row → Type 0
IsNumberedIn nodes r =
    (o i : ℕ)
    → r.offset ≡ some o
    → i < length r.datacenters
    → get_elem? nodes (o + i) ≡ get_elem? r.datacenters i

offset-is :
    (nodes : List Text) (n o : ℕ)
    → (elim nodes as (λ x. Option ℕ) [ [] ↦ none | _ ∷ _ ↦ some n ]) ≡ some o
    → o ≡ n
offset-is [] n o h = cc
offset-is (x ∷ xs) n o h = cc

collate-IsNumberedIn :
    (before : List Text) (n : ℕ) (ps : Dict Text (Dict Text ℕ))
    → length before ≡ n
    → All (IsNumberedIn (before ++ all_nodes (collate n ps))) (collate n ps)
unfolding collate
collate-IsNumberedIn before n [] e = tt
collate-IsNumberedIn before n ((name, placement) ∷ rest) e =
    let nodes = nodes_of placement in
    let later : List Text = all_nodes (collate (n + length nodes) rest) in
    (
      λ o i at lt.
          let place : o + i ≡ length before + i = omega (arith, offset-is nodes n o at, e) in
          ap (get_elem? (before ++ (nodes ++ later))) place
          ∙ get_elem?-behind before (nodes ++ later) i
          ∙ get_elem?-within nodes later i lt,
      subst (λ l. All (IsNumberedIn l) (collate (n + length nodes) rest))
          (append_assoc before nodes later)
          (collate-IsNumberedIn (before ++ nodes) (n + length nodes) rest
            (length-append before nodes ∙ omega (arith, e))),
    )

-- whether a number is one of those from the offset of a row on, as many as it has nodes
abbrev pub owns : ℕ → Row → Bool
owns k r = elim r.offset [
  | none ↦ false
  | some o ↦ leb o k && not (leb (o + length r.datacenters) k)
]

-- how many rows have the number
abbrev pub owners : ℕ → List Row → ℕ
owners k [] = 0
owners k (r ∷ rs) = if owns k r then suc (owners k rs) else owners k rs

-- whether a number is one of so many from `n` on, as a number of owners
abbrev pub once_from : ℕ → ℕ → ℕ → ℕ
once_from n count k = if leb n k && not (leb (n + count) k) then 1 else 0

-- the row of nodes that are numbered from `n` on
abbrev row_at : ℕ → Text → List Text → Row
row_at n name nodes = record {
  placement = name;
  offset = elim nodes [ [] ↦ none | _ ∷ _ ↦ some n ];
  datacenters = nodes;
}

row-owners :
    (n k count : ℕ) (name : Text) (nodes : List Text) (rows : List Row)
    → owners k rows ≡ once_from (n + length nodes) count k
    → owners k (row_at n name nodes ∷ rows) ≡ once_from n (length nodes + count) k
row-owners n k count name [] rows h = ground (arith, h)
row-owners n k count name (x ∷ xs) rows h = ground (arith, h)

collate-owners :
    (n k : ℕ) (ps : Dict Text (Dict Text ℕ))
    → owners k (collate n ps) ≡ once_from n (length (all_nodes (collate n ps))) k
unfolding collate
collate-owners n k [] = ground arith
collate-owners n k ((name, placement) ∷ rest) =
    let nodes = nodes_of placement in
    let later = collate (n + length nodes) rest in
    row-owners n k (length (all_nodes later)) name nodes later
      (collate-owners (n + length nodes) k rest)
    ∙ ap (λ c. once_from n c k) (sym (length-append nodes (all_nodes later)))

if-ok :
    {A : Type 0} (b : Bool) (e : Thrown) (x y : A)
    → ◌≡◌ {A = Result Thrown A} (if b then err e else ok x) (ok y)
    → x ≡ y
if-ok true e x y h = cc
if-ok false e x y h = cc

-- Where `doInit` does not abort, the nodes are numbered without gap or overlap: each number below the
-- number of all nodes is one of those from the offset of exactly one placement on, as many as the
-- placement has nodes, and no other number is. In the list of all nodes, those of each placement stand
-- at its numbers.
pub do_init-numbers :
    (rounds : List Round) (rows : List Row)
    → do_init rounds ≡ ok rows
    → ((k : ℕ) → owners k rows ≡ once_from 0 (length (all_nodes rows)) k)
      × All (IsNumberedIn (all_nodes rows)) rows
unfolding do_init
do_init-numbers rounds rows h =
    let all = collate 0 (play rounds no_choices).placements in
    subst
      (λ r.
        ((k : ℕ) → owners k r ≡ once_from 0 (length (all_nodes r)) k)
        × All (IsNumberedIn (all_nodes r)) r)
      (if-ok (nat_beq (length (all_nodes all)) 0) no_nodes all rows h)
      (
        λ k. collate-owners 0 k (play rounds no_choices).placements,
        collate-IsNumberedIn [] 0 (play rounds no_choices).placements refl,
      )
