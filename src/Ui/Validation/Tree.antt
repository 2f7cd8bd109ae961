-- ===== src/Ui/Validation/Tree.antt =====
-- What crates/ui-runtime/src/validation.rs accepts: the nodes are a tree below the root.
use rintawa.Prelude.{
  ℕ, zero, suc, ◌+◌, ◌≤◌, ◌≡◌, refl, sym, subst, inl, inr, String-discrete, true, not, List, [],
  ◌∷◌, map, length, ==_iff, select, sort_by, some, Option-cases, Bool-cases, ok, Result-cases, get,
  All, All-of_In, All-In, In, ◌==◌, arith,
}
use rintawa.Ui.{UiNodeId, children, UiNode, UiSurfaceSnapshot}
use rintawa.Ui.Layout.{validate_layout}
use rintawa.Ui.Validation.{
  Nodes, Parents, has_key, check_nodes, is_in, and_then, detect_cycles, push_all, children_of,
  unvisited_children, mark, visit, links, check_visited, validate_reachability, validate_snapshot,
}
use rintawa.Ui.Validation.Entries.{has_key-get, entry, node_map-entries}
use rintawa.Ui.Validation.Walks.{unseen-length}
use rintawa.Ui.Validation.Checks.{IsChecked, check_nodes-IsChecked, IsChecked-IsKnown}
use rintawa.Ui.Validation.Seen.{unseen, unseen-push_lt}
use rintawa.Ui.Validation.Orphans.{
  text_leb, sort_by-none, first_orphan-none, unseen-none, select-none, is_in-All, and_then-ok,
}
use rintawa.Ui.Validation.Records.{
  IsRecorded, nodes-IsRecorded, In-map-entry, get-map-entry, has_key-map-entry,
}

-- A way from the root down to an identifier, and the nodes on it, the last one first.
pub data Descent (s : UiSurfaceSnapshot) : List UiNodeId → UiNodeId → Type 0 where
  top : {id : UiNodeId} → id ≡ s.root → Descent s [] id
  below :
      {above : List UiNodeId} {id : UiNodeId} (p : UiNode)
      → Descent s above p.id
      → In p s.nodes
      → In id (children p.kind)
      → Descent s (p.id ∷ above) id

pub record IsTree (s : UiSurfaceSnapshot) : Type 0 where
  pub distinct : (p q : UiNode) → In p s.nodes → In q s.nodes → p.id ≡ q.id → p ≡ q
  pub reached : (p : UiNode) → In p s.nodes → (above : List UiNodeId) × Descent s above p.id
  pub unique : (xs ys : List UiNodeId) (id : UiNodeId) → Descent s xs id → Descent s ys id → xs ≡ ys
  pub present :
      (above : List UiNodeId) (id : UiNodeId)
      → Descent s above id
      → (q : UiNode) × In q s.nodes × (q.id ≡ id)
  pub laid_out : (p : UiNode) → In p s.nodes → validate_layout p.id p.kind ≡ ok tt

module _ (s : UiSurfaceSnapshot) (nodes : Nodes) (po : Parents) (c : IsChecked s nodes po) where
  mapped : nodes ≡ map entry s.nodes
  mapped = (node_map-entries s nodes c.mapped).0

  recorded : (p : UiNode) → In p s.nodes → IsRecorded (entry p) po
  recorded p at =
      All-In (λ e. IsRecorded e po) (entry p) nodes (nodes-IsRecorded nodes po c.parents)
        (subst (In (entry p)) (sym mapped) (In-map-entry p s.nodes at))

  parent :
      (p : UiNode) (id : UiNodeId)
      → In p s.nodes
      → In id (children p.kind)
      → get String-discrete id po ≡ some p.id
  parent p id at child =
      All-In (λ i. get String-discrete i po ≡ some p.id) id (children p.kind) (recorded p at).1
        child

  known-node : (id : UiNodeId) → has_key id nodes ≡ true → (q : UiNode) × In q s.nodes × (q.id ≡ id)
  known-node id h = has_key-map-entry id s.nodes (subst (λ m. has_key id m ≡ true) mapped h)

  top-parentless : (p : UiNode) → In p s.nodes → In s.root (children p.kind) → ⊥
  top-parentless p at child =
      let k = has_key-get s.root p.id po (parent p s.root at child) in let t = c.top in absurd (cc)

  one_parent :
      (p q : UiNode) (id : UiNodeId)
      → In p s.nodes
      → In q s.nodes
      → In id (children p.kind)
      → In id (children q.kind)
      → p.id ≡ q.id
  one_parent p q id at at' child child' =
      let e = parent p id at child in let e' = parent q id at' child' in cc

  Descent-unique :
      (xs ys : List UiNodeId) (id : UiNodeId) → Descent s xs id → Descent s ys id → xs ≡ ys
  Descent-unique xs ys id (Descent.top e) (Descent.top e') = refl
  Descent-unique xs ys id (Descent.top e) (below q d at child) =
      absurd (top-parentless q at (subst (λ i. In i (children q.kind)) e child))
  Descent-unique xs ys id (below p d at child) (Descent.top e) =
      absurd (top-parentless p at (subst (λ i. In i (children p.kind)) e child))
  Descent-unique xs ys id (below {above} p d at child) (below {above = above'} q d' at' child') =
      let e = one_parent p q id at at' child child' in
      let ih = Descent-unique above above' q.id (subst (Descent s above) e d) d' in cc

  Descent-known : (xs : List UiNodeId) (id : UiNodeId) → Descent s xs id → has_key id nodes ≡ true
  Descent-known xs id (Descent.top e) = rw e c.rooted
  Descent-known xs id (below p d at child) =
      IsChecked-IsKnown s nodes po c id p.id (parent p id at child)

  -- An identifier with a way down to it.
  abbrev IsReached : UiNodeId → Type 0
  IsReached id = (above : List UiNodeId) × Descent s above id

  children-IsReached :
      (id : UiNodeId) (visited : List UiNodeId)
      → IsReached id
      → All IsReached (unvisited_children nodes visited id)
  unfolding unvisited_children children_of
  children-IsReached id visited (above, d) = elim (Bool-cases (is_in id visited)) [
    | inl old ↦ rw old tt
    | inr new ↦ elim (Option-cases (get String-discrete id nodes)) [
      | inl nothing ↦ rw (new, nothing, children_of) tt
      | inr (node, found) ↦
          let (same, at) =
            get-map-entry id node s.nodes
              (subst (λ m. get String-discrete id m ≡ some node) mapped found) in
          rw (new, found, children_of)
            (All-of_In IsReached (children node.kind) (λ i child.
              (node.id ∷ above, below node (subst (Descent s above) (sym same) d) at child)))
    ]
  ]

  push_all-IsReached :
      (ids pending : List UiNodeId)
      → All IsReached ids
      → All IsReached pending
      → All IsReached (push_all ids pending)
  unfolding push_all
  push_all-IsReached [] pending h k = k
  push_all-IsReached (id ∷ ids) pending h k = push_all-IsReached ids (id ∷ pending) h.1 (h.0, k)

  -- What was visited can be reached, and is as much as the entries that are seen.
  IsVisited : List UiNodeId → Type 0
  IsVisited visited = All IsReached visited × (length visited + unseen visited nodes ≤ length nodes)

  mark-IsVisited :
      (id : UiNodeId) (visited : List UiNodeId)
      → IsReached id
      → IsVisited visited
      → IsVisited (mark visited id)
  unfolding mark IsVisited
  mark-IsVisited id visited r v = elim (Bool-cases (is_in id visited)) [
    | inl old ↦ rw old v
    | inr new ↦
        let less = unseen-push_lt id visited nodes (Descent-known r.0 id r.1) new in
        let bound = v.1 in rw new ((r, v.0), omega arith)
  ]

  visit-IsVisited :
      (fuel : ℕ) (visited pending : List UiNodeId) {v : List UiNodeId}
      → IsVisited visited
      → All IsReached pending
      → visit fuel nodes visited pending ≡ some v
      → IsVisited v
  unfolding visit
  visit-IsVisited zero visited pending h k e = absurd (cc)
  visit-IsVisited (suc fuel) visited [] h k e = subst IsVisited (cc) h
  visit-IsVisited (suc fuel) visited (id ∷ pending) h k e =
      visit-IsVisited fuel (mark visited id)
        (push_all (unvisited_children nodes visited id) pending) (mark-IsVisited id visited k.0 h)
        (push_all-IsReached (unvisited_children nodes visited id) pending
          (children-IsReached id visited k.0) k.1)
        e

  reachability-IsReached :
      validate_reachability s.root nodes ≡ some (ok tt)
      → (e : UiNodeId × UiNode) → In e nodes
      → IsReached e.0
  unfolding validate_reachability check_visited IsVisited
  reachability-IsReached h e at =
      elim (Option-cases (visit (suc (suc (links nodes))) nodes [] (s.root ∷ []))) [
        | inl out ↦ let k = rw (out, check_visited) at h in absurd (cc)
        | inr (v, found) ↦
            let start = unseen-length [] nodes in
            let (all, bound) =
              visit-IsVisited (suc (suc (links nodes))) [] (s.root ∷ []) {v = v} (tt, omega arith)
                (([], Descent.top refl), tt) found in
            let k = rw (found, check_visited) at h in
            let seen : is_in e.0 v ≡ true = elim (Bool-cases (length v == length nodes)) [
              | inl full ↦
                  let same = (==_iff (length v) (length nodes)).0 full in
                  unseen-none v nodes e (omega arith) at
              | inr part ↦
                  let sorted =
                    first_orphan-none
                      (sort_by text_leb (select (λ id. not (is_in id v)) (map (λ e. e.0) nodes)))
                      (rw part at k) in
                  select-none v nodes e
                    (sort_by-none text_leb (select (λ id. not (is_in id v)) (map (λ e. e.0) nodes))
                      sorted)
                    at
            ] in
            is_in-All IsReached e.0 v seen all
      ]

-- A surface that is accepted is a tree: from the root there is exactly one way down to each of its nodes, it
-- leads over nodes of the surface only, no two nodes have the same identifier, and each node is laid out well.
pub validate_snapshot-IsTree :
    (s : UiSurfaceSnapshot) → validate_snapshot s ≡ some (ok tt) → IsTree s
unfolding validate_snapshot and_then
validate_snapshot-IsTree s h = elim (Result-cases (check_nodes s)) [
  | inr (e, refused) ↦ let k = rw (refused, validate_snapshot) at h in absurd (cc)
  | inl ((nodes, po), checked) ↦
      let c = check_nodes-IsChecked s nodes po checked in
      let (is_map, found) = node_map-entries s nodes c.mapped in
      let walked =
        and_then-ok (detect_cycles nodes po) (validate_reachability s.root nodes)
          (rw (checked, validate_snapshot) at h) in
      record {
        distinct = λ p q at at' e.
            let fp = All-In (λ n. get String-discrete n.id nodes ≡ some n) p s.nodes found at in
            let fq = All-In (λ n. get String-discrete n.id nodes ≡ some n) q s.nodes found at' in
            let fq' : get String-discrete p.id nodes ≡ some q = rw e fq in cc;
        reached = λ p at.
            reachability-IsReached s nodes po c walked (entry p)
              (subst (In (entry p)) (sym is_map) (In-map-entry p s.nodes at));
        unique = λ xs ys id d d'. Descent-unique s nodes po c xs ys id d d';
        present = λ xs id d. known-node s nodes po c id (Descent-known s nodes po c xs id d);
        laid_out = λ p at. (recorded s nodes po c p at).0;
      }
]
