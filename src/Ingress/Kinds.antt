-- ===== src/Ingress/Kinds.antt =====
-- lib/ag-solo/set-gci-ingress.js: the connections of every type but the chain's.
use mathlib.Core.List.{append_assoc, append-nil}
use mathlib.Core.Path.{subst}
use cosmic_swingset.Ingress.{
  Connection, sdk_kind, replace_or_push, is_duplicate, join, add, add_all, concat_values,
  set_gci_ingress,
}
use cosmic_swingset.Base.{
  if◌then◌else◌, Bool-cases, Option-cases, keep, All, All-append, ◌==◌, ==_iff, nat_eq, string_eq,
  list_eq, ◌≡◌, refl, sym, ◌∙◌, ◌≢◌, inl, inr, Bool, none, some, List, [], ◌∷◌, ◌++◌, arith,
}
use cosmic_swingset.Base.Dict.{
  Dict, lookup, insert, lookup-insert, HasDistinctKeys, insert-HasDistinctKeys,
}
use cosmic_swingset.Base.Text.{Text}

module _ {P : Type 0} where
  abbrev pub of_kind : Text → List (Connection P) → List (Connection P)
  of_kind k = keep (λ (c : Connection P). c.kind == k)

  abbrev IsSame : Text → List (Connection P) → Type 0
  IsSame k = All (λ (c : Connection P). c.kind ≡ k)

  -- the connections under a type have that type
  abbrev IsGrouped : Dict Text (List (Connection P)) → Type 0
  IsGrouped [] = Unit
  IsGrouped ((k, cs) ∷ m) = IsSame k cs × IsGrouped m

  abbrev under : Text → Dict Text (List (Connection P)) → List (Connection P)
  under k m = elim (lookup k m) [ none ↦ [] | some cs ↦ cs ]

  lookup-IsSame :
      (k : Text) (m : Dict Text (List (Connection P))) (cs : List (Connection P))
      → IsGrouped m
      → lookup k m ≡ some cs
      → IsSame k cs
  unfolding lookup
  lookup-IsSame k [] cs g e = cc
  lookup-IsSame k ((j, ds) ∷ m) cs g e = elim (Bool-cases (j == k)) [
    | inl same ↦
        let found : ds ≡ cs = ground (arith, same, e) in
        subst (IsSame k) found (subst (λ i. IsSame i ds) ((==_iff j k).0 same) g.0)
    | inr other ↦ lookup-IsSame k m cs g.1 (ground (arith, other, e))
  ]

  insert-IsGrouped :
      (k : Text) (cs : List (Connection P)) (m : Dict Text (List (Connection P)))
      → IsSame k cs
      → IsGrouped m
      → IsGrouped (insert k cs m)
  unfolding insert
  insert-IsGrouped k cs [] s g = (s, tt)
  insert-IsGrouped k cs ((j, ds) ∷ m) s g = elim (Bool-cases (j == k)) [
    | inl same ↦ rw (same, insert) (subst (λ i. IsSame i cs) (sym ((==_iff j k).0 same)) s, g.1)
    | inr other ↦ rw (other, insert) (g.0, insert-IsGrouped k cs m s g.1)
  ]

  replace_or_push-All :
      (Q : Connection P → Type 0) (p : Connection P → Bool) (c : Connection P)
      (cs : List (Connection P))
      → Q c
      → All Q cs
      → All Q (replace_or_push p c cs)
  replace_or_push-All Q p c [] q h = (q, tt)
  replace_or_push-All Q p c (x ∷ xs) q h = ground (arith, replace_or_push-All Q p c xs q h.1)

  join-IsSame :
      (c : Connection P) (cs : List (Connection P)) → IsSame c.kind cs → IsSame c.kind (join c cs)
  unfolding join
  join-IsSame c cs h = elim (Bool-cases (c.kind == sdk_kind)) [
    | inl e ↦ rw (e, join) (replace_or_push-All _ (is_duplicate c) c cs refl h)
    | inr e ↦ rw (e, join) (All-append _ cs (c ∷ []) h (refl, tt))
  ]

  add-IsGrouped :
      (c : Connection P) (m : Dict Text (List (Connection P))) → IsGrouped m → IsGrouped (add c m)
  unfolding add
  add-IsGrouped c m g = elim (Option-cases (lookup c.kind m)) [
    | inl e ↦ rw (e, add) (insert-IsGrouped c.kind (c ∷ []) m (refl, tt) g)
    | inr (cs, e) ↦
        rw (e, add)
          (insert-IsGrouped c.kind (join c cs) m (join-IsSame c cs (lookup-IsSame c.kind m cs g e))
            g)
  ]

  -- what a new connection does to the connections of a type
  abbrev appended : Text → Connection P → List (Connection P) → List (Connection P)
  appended k c cs = if c.kind == k then cs ++ c ∷ [] else cs

  under-add :
      (k : Text) (c : Connection P) (m : Dict Text (List (Connection P)))
      → k ≢ sdk_kind
      → under k (add c m) ≡ appended k c (under k m)
  unfolding add join
  under-add k c m ne = elim (Option-cases (lookup c.kind m)) [
    | inl e ↦ ground (arith, e, ==_iff c.kind k, lookup-insert c.kind k (c ∷ []) m)
    | inr (cs, e) ↦
        ground
          (arith, e, ==_iff c.kind k, ==_iff c.kind sdk_kind, lookup-insert c.kind k (join c cs) m)
  ]

  of_kind-append :
      (k : Text) (xs ys : List (Connection P)) → of_kind k (xs ++ ys) ≡ of_kind k xs ++ of_kind k ys
  of_kind-append k [] ys = refl
  of_kind-append k (x ∷ xs) ys = ground (arith, of_kind-append k xs ys)

  of_kind-same : (k : Text) (cs : List (Connection P)) → IsSame k cs → of_kind k cs ≡ cs
  of_kind-same k [] h = refl
  of_kind-same k (c ∷ cs) h = ground (arith, ==_iff c.kind k, of_kind-same k cs h.1)

  of_kind-other : (j k : Text) (cs : List (Connection P)) → IsSame j cs → j ≢ k → of_kind k cs ≡ []
  of_kind-other j k [] h ne = refl
  of_kind-other j k (c ∷ cs) h ne = ground (arith, ==_iff c.kind k, of_kind-other j k cs h.1 ne)

  of_kind-absent :
      (k : Text) (m : Dict Text (List (Connection P)))
      → IsGrouped m
      → lookup k m ≡ none
      → of_kind k (concat_values m) ≡ []
  unfolding lookup
  of_kind-absent k [] g e = refl
  of_kind-absent k ((j, cs) ∷ m) g e = elim (Bool-cases (j == k)) [
    | inl same ↦ absurd (ground (arith, same, e))
    | inr other ↦ ground (
      arith,
      other,
      ==_iff j k,
      of_kind-append k cs (concat_values m),
      of_kind-other j k cs g.0,
      of_kind-absent k m g.1,
    )
  ]

  of_kind-concat_values :
      (k : Text) (m : Dict Text (List (Connection P)))
      → IsGrouped m
      → HasDistinctKeys m
      → of_kind k (concat_values m) ≡ under k m
  unfolding lookup
  of_kind-concat_values k [] g d = refl
  of_kind-concat_values k ((j, cs) ∷ m) g d = elim (Bool-cases (j == k)) [
    | inl same ↦
        let e : j ≡ k = (==_iff j k).0 same in
        of_kind-append k cs (concat_values m)
        ∙ ground (
          arith,
          same,
          of_kind-same k cs (subst (λ i. IsSame i cs) e g.0),
          of_kind-absent k m g.1 (subst (λ i. lookup i m ≡ none) e d.0),
          append-nil cs,
        )
    | inr other ↦ ground (
      arith,
      other,
      ==_iff j k,
      of_kind-append k cs (concat_values m),
      of_kind-other j k cs g.0,
      of_kind-concat_values k m g.1 d.1,
    )
  ]

  add-HasDistinctKeys :
      (c : Connection P) (m : Dict Text (List (Connection P)))
      → HasDistinctKeys m
      → HasDistinctKeys (add c m)
  unfolding add
  add-HasDistinctKeys c m d = elim (Option-cases (lookup c.kind m)) [
    | inl e ↦ rw (e, add) (insert-HasDistinctKeys c.kind (c ∷ []) m d)
    | inr (cs, e) ↦ rw (e, add) (insert-HasDistinctKeys c.kind (join c cs) m d)
  ]

  add_all-IsGrouped :
      (cs : List (Connection P)) (m : Dict Text (List (Connection P)))
      → IsGrouped m
      → HasDistinctKeys m
      → IsGrouped (add_all cs m) × HasDistinctKeys (add_all cs m)
  unfolding add_all
  add_all-IsGrouped [] m g d = (g, d)
  add_all-IsGrouped (c ∷ cs) m g d =
      add_all-IsGrouped cs (add c m) (add-IsGrouped c m g) (add-HasDistinctKeys c m d)

  under-add_all :
      (k : Text) (cs : List (Connection P)) (m : Dict Text (List (Connection P)))
      → k ≢ sdk_kind
      → under k (add_all cs m) ≡ under k m ++ of_kind k cs
  unfolding add_all
  under-add_all k [] m ne = sym (append-nil (under k m))
  under-add_all k (c ∷ cs) m ne =
      under-add_all k cs (add c m) ne
      ∙ ground (arith, under-add k c m ne, append_assoc (under k m) (c ∷ []) (of_kind k cs))

  -- The new connection changes no connection of another type than the chain's: of those, the
  -- file lists the same ones as before, in the same order.
  pub set_gci_ingress-keeps :
      (k : Text) (old : List (Connection P)) (new_conn : Connection P)
      → k ≢ sdk_kind
      → new_conn.kind ≡ sdk_kind
      → of_kind k (set_gci_ingress old new_conn) ≡ of_kind k old
  unfolding set_gci_ingress lookup
  set_gci_ingress-keeps k old new_conn ne is_sdk =
      let (g, d) = add_all-IsGrouped old [] tt tt in
      of_kind-concat_values k (add new_conn (add_all old []))
        (add-IsGrouped new_conn (add_all old []) g)
        (add-HasDistinctKeys new_conn (add_all old []) d)
      ∙ under-add k new_conn (add_all old []) ne
      ∙ ground (arith, ==_iff new_conn.kind k, under-add_all k old [] ne)
