-- ===== src/Ui/Validation/Entries.antt =====
-- The hash maps of crates/ui-runtime/src/validation.rs as lists of entries: the keys, and entries that are added.
use rintawa.Prelude.{
  ◌≡◌, ◌∙◌, refl, sym, ap, String-discrete, true, false, not, List, [], ◌∷◌, ◌++◌, map, append-nil,
  append_assoc, any, none, some, ok, guard->>-eq-ok, >>=-eq-ok, fold_result, fold_result-All,
  holds_iff, holds-false, get, insert, get-insert_self, get-insert_ne, if_neg, All, arith,
}
use rintawa.Ui.{UiNodeId, UiNode, UiSurfaceSnapshot, duplicate_node}
use rintawa.Ui.Validation.{Nodes, has_key, add_node, node_map}

module _ {ℓ} {V : Type ℓ} where
  -- No entry is lost or changed.
  abbrev pub Keeps : List (UiNodeId × V) → List (UiNodeId × V) → Type ℓ
  Keeps m m' =
      (k : UiNodeId) (v : V) → get String-discrete k m ≡ some v → get String-discrete k m' ≡ some v

  pub has_key-get :
      (k : UiNodeId) (v : V) (m : List (UiNodeId × V))
      → get String-discrete k m ≡ some v
      → has_key k m ≡ true
  unfolding get has_key any
  has_key-get k v [] h = absurd (cc)
  has_key-get k v ((j, w) ∷ m) h = elim (String-discrete j k) [
    | yes p ↦ rw ((holds_iff (String-discrete j k)).1 p) refl
    | no n ↦
        let ih = has_key-get k v m (sym (if_neg (String-discrete j k) n _ _) ∙ h) in ground arith
  ]

  get-has_key :
      (k : UiNodeId) (m : List (UiNodeId × V))
      → has_key k m ≡ false
      → get String-discrete k m ≡ none
  unfolding get has_key any
  get-has_key k [] h = refl
  get-has_key k ((j, w) ∷ m) h = elim (String-discrete j k) [
    | yes p ↦ let e = (holds_iff (String-discrete j k)).1 p in absurd (ground arith)
    | no n ↦
        let e = holds-false (String-discrete j k) n in
        if_neg (String-discrete j k) n _ _ ∙ get-has_key k m (ground arith)
  ]

  pub insert-Keeps :
      (k : UiNodeId) (v : V) (m : List (UiNodeId × V))
      → has_key k m ≡ false
      → Keeps m (insert String-discrete k v m)
  insert-Keeps k v m new j w h = elim (String-discrete k j) [
    | yes p ↦
        let gone = get-has_key k m new in
        let here : get String-discrete k m ≡ some w = rw p h in absurd (cc)
    | no n ↦ get-insert_ne String-discrete k j v m n ∙ h
  ]

  insert-append :
      (k : UiNodeId) (v : V) (m : List (UiNodeId × V))
      → has_key k m ≡ false
      → insert String-discrete k v m ≡ m ++ (k, v) ∷ []
  unfolding insert has_key any
  insert-append k v [] h = refl
  insert-append k v ((j, w) ∷ m) h = elim (String-discrete j k) [
    | yes p ↦ let e = (holds_iff (String-discrete j k)).1 p in absurd (ground arith)
    | no n ↦
        let e = holds-false (String-discrete j k) n in
        if_neg (String-discrete j k) n _ _
        ∙ ap (λ r. (j, w) ∷ r) (insert-append k v m (ground arith))
  ]

abbrev pub entry : UiNode → UiNodeId × UiNode
entry node = (node.id, node)

add_node-ok :
    (m : Nodes) (n : UiNode) (m' : Nodes)
    → add_node m n ≡ ok m'
    → (has_key n.id m ≡ false) × (m' ≡ insert String-discrete n.id n m)
unfolding add_node
add_node-ok m n m' h =
    let (new, added) =
      guard->>-eq-ok (not (has_key n.id m)) (duplicate_node n.id)
        (ok (insert String-discrete n.id n m)) h in
    (ground arith, cc)

appended :
    (ns : List UiNode) (m m' : Nodes) → fold_result add_node m ns ≡ ok m' → m' ≡ m ++ map entry ns
unfolding fold_result
appended [] m m' h = sym (append-nil m ∙ cc)
appended (n ∷ ns) m m' h =
    let (m1, first, rest) = >>=-eq-ok (add_node m n) (λ t. fold_result add_node t ns) h in
    let (new, e) = add_node-ok m n m1 first in
    appended ns m1 m' rest
    ∙ ap (λ t. t ++ map entry ns) (e ∙ insert-append n.id n m new)
    ∙ append_assoc m (entry n ∷ []) (map entry ns)

found :
    (ns : List UiNode) (m m' : Nodes)
    → fold_result add_node m ns ≡ ok m'
    → Keeps m m' × All (λ n. get String-discrete n.id m' ≡ some n) ns
found ns m m' h =
    fold_result-All Keeps (λ n t. get String-discrete n.id t ≡ some n) add_node (λ t k v e. e)
      (λ a b c ab bc k v e. bc k v (ab k v e)) (λ n a b ab e. ab n.id n e)
      (λ a n b e.
        let (new, added) = add_node-ok a n b e in
        (rw added (insert-Keeps n.id n a new), rw added (get-insert_self String-discrete n.id n a)))
      m ns m' h

-- The map of the nodes has an entry for each node, in their order, and finds each by its identifier.
pub node_map-entries :
    (s : UiSurfaceSnapshot) (nodes : Nodes)
    → node_map s ≡ ok nodes
    → (nodes ≡ map entry s.nodes) × All (λ n. get String-discrete n.id nodes ≡ some n) s.nodes
unfolding node_map
node_map-entries s nodes h = (appended s.nodes [] nodes h, (found s.nodes [] nodes h).1)
