-- ===== src/Ui/Validation/Records.antt =====
-- What the loop over the nodes of crates/ui-runtime/src/validation.rs records: layouts, and the parent of each child.
use rintawa.Prelude.{
  ◌≡◌, ◌∙◌, refl, sym, ap, inl, inr, String-discrete, true, not, List, [], ◌∷◌, map, any, some,
  Bool-cases, ok, ◌>>◌, guard, guard->>-eq-ok, >>=-eq-ok, fold_result, fold_result-All, holds,
  holds_iff, get, insert, get-insert_self, if_pos, if_neg, All, All-mono, In, arith,
}
use rintawa.Ui.{UiNodeId, children, UiNode, node_not_found, multiple_parents}
use rintawa.Ui.Layout.{validate_layout}
use rintawa.Ui.Validation.{Nodes, Parents, has_key, add_child, check_node}
use rintawa.Ui.Validation.Entries.{Keeps, insert-Keeps, entry}

-- What a round of the loop over the nodes establishes of its node.
abbrev pub IsRecorded : UiNodeId × UiNode → Parents → Type 0
IsRecorded e parent_of =
    (validate_layout e.1.id e.1.kind ≡ ok tt)
    × All (λ c. get String-discrete c parent_of ≡ some e.1.id) (children e.1.kind)

add_child-records :
    (nodes : Nodes) (id : UiNodeId) (po : Parents) (child : UiNodeId) (po' : Parents)
    → add_child nodes id po child ≡ ok po'
    → Keeps po po' × (get String-discrete child po' ≡ some id)
unfolding add_child
add_child-records nodes id po child po' h =
    let rest =
      guard (not (has_key child po)) (multiple_parents child)
      >> ok (insert String-discrete child id po) in
    let (there, h1) = guard->>-eq-ok (has_key child nodes) (node_not_found child) rest h in
    let (new, h2) =
      guard->>-eq-ok (not (has_key child po)) (multiple_parents child)
        (ok (insert String-discrete child id po)) h1 in
    let e : insert String-discrete child id po ≡ po' = cc in
    rw (← e) (insert-Keeps child id po (ground arith), get-insert_self String-discrete child id po)

Keeps_trans : (a b c : Parents) → Keeps a b → Keeps b c → Keeps a c
Keeps_trans a b c ab bc k v e = bc k v (ab k v e)

check_node-IsRecorded :
    (nodes : Nodes) (po : Parents) (e : UiNodeId × UiNode) (po' : Parents)
    → check_node nodes po e ≡ ok po'
    → Keeps po po' × IsRecorded e po'
unfolding check_node
check_node-IsRecorded nodes po (key, node) po' h =
    let (done, layout, rest) =
      >>=-eq-ok (validate_layout node.id node.kind)
        (λ done. fold_result (add_child nodes node.id) po (children node.kind)) h in
    let (kept, all) =
      fold_result-All Keeps (λ c t. get String-discrete c t ≡ some node.id)
        (add_child nodes node.id) (λ t k v e. e) Keeps_trans (λ c a b ab e. ab c node.id e)
        (λ a c b e. add_child-records nodes node.id a c b e) po (children node.kind) po' rest in
    (kept, (layout, all))

pub nodes-IsRecorded :
    (nodes : Nodes) (po : Parents)
    → fold_result (check_node nodes) [] nodes ≡ ok po
    → All (λ e. IsRecorded e po) nodes
nodes-IsRecorded nodes po h =
    (fold_result-All Keeps IsRecorded (check_node nodes) (λ t k v e. e) Keeps_trans
      (λ e a b ab r. (
        r.0,
        All-mono (λ c. get String-discrete c a ≡ some e.1.id)
            (λ c. get String-discrete c b ≡ some e.1.id) (children e.1.kind)
            (λ c at. ab c e.1.id at) r.1,
      ))
      (λ a e b h. check_node-IsRecorded nodes a e b h) [] nodes po h).1

pub In-map-entry : (p : UiNode) (ns : List UiNode) → In p ns → In (entry p) (map entry ns)
In-map-entry p [] h = elim h [ ]
In-map-entry p (n ∷ ns) (inl e) = inl (ap entry e)
In-map-entry p (n ∷ ns) (inr at) = inr (In-map-entry p ns at)

pub get-map-entry :
    (id : UiNodeId) (n : UiNode) (ns : List UiNode)
    → get String-discrete id (map entry ns) ≡ some n
    → (n.id ≡ id) × In n ns
unfolding get
get-map-entry id n [] h = absurd (cc)
get-map-entry id n (m ∷ ns) h = elim (String-discrete m.id id) [
  | yes p ↦
      let e : n ≡ m = cc (
        sym (if_pos (String-discrete m.id id) p (some m) (get String-discrete id (map entry ns)))
        ∙ h) in
      (ap (λ (x : UiNode). x.id) e ∙ p, inl e)
  | no k ↦
      let (same, at) = get-map-entry id n ns (sym (if_neg (String-discrete m.id id) k _ _) ∙ h) in
      (same, inr at)
]

pub has_key-map-entry :
    (id : UiNodeId) (ns : List UiNode)
    → has_key id (map entry ns) ≡ true
    → (q : UiNode) × In q ns × (q.id ≡ id)
unfolding has_key any
has_key-map-entry id [] h = absurd (cc)
has_key-map-entry id (m ∷ ns) h = elim (Bool-cases (holds (String-discrete m.id id))) [
  | inl here ↦ (m, inl refl, (holds_iff (String-discrete m.id id)).0 here)
  | inr other ↦ let (q, at, e) = has_key-map-entry id ns (rw other at h) in (q, inr at, e)
]
