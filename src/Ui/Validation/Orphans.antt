-- ===== src/Ui/Validation/Orphans.antt =====
-- The check for orphans of crates/ui-runtime/src/validation.rs: if it finds none, each node was visited.
use rintawa.Prelude.{
  ◌≡◌, refl, subst, inl, inr, String-discrete, Bool, true, not, List, [], ◌∷◌, map, any, count,
  select, sort_by, insert_by, codes, codes_leb, Option, none, some, Bool-cases, ok, err, holds,
  holds_iff, All, In, arith,
}
use rintawa.Ui.{UiNodeId, UiNode}
use rintawa.Ui.Layout.{Checked}
use rintawa.Ui.Validation.{Nodes, is_in, and_then, first_orphan}
use rintawa.Ui.Validation.Seen.{unseen}

abbrev pub text_leb : UiNodeId → UiNodeId → Bool
text_leb l r = codes_leb (codes l) (codes r)

pub sort_by-none :
    (le : UiNodeId → UiNodeId → Bool) (ids : List UiNodeId) → sort_by le ids ≡ [] → ids ≡ []
unfolding sort_by
sort_by-none le [] h = refl
sort_by-none le (id ∷ ids) h = absurd (inserted (sort_by le ids) h)
  where
    inserted : (ys : List UiNodeId) → insert_by le id ys ≡ [] → ⊥
    inserted [] h = cc
    inserted (y ∷ ys) h = ground arith

pub first_orphan-none : (ids : List UiNodeId) → some (first_orphan ids) ≡ some (ok tt) → ids ≡ []
unfolding first_orphan
first_orphan-none [] h = refl
first_orphan-none (id ∷ ids) h = absurd (cc)

pub unseen-none :
    (v : List UiNodeId) (nodes : Nodes) (e : UiNodeId × UiNode)
    → unseen v nodes ≡ 0
    → In e nodes
    → is_in e.0 v ≡ true
unfolding unseen count
unseen-none v [] e h at = elim at [ ]
unseen-none v (f ∷ nodes) e h (inl same) = rw same (ground arith)
unseen-none v (f ∷ nodes) e h (inr at) = unseen-none v nodes e (ground arith) at

pub select-none :
    (v : List UiNodeId) (nodes : Nodes) (e : UiNodeId × UiNode)
    → select (λ id. not (is_in id v)) (map (λ e. e.0) nodes) ≡ []
    → In e nodes
    → is_in e.0 v ≡ true
unfolding select
select-none v [] e h at = elim at [ ]
select-none v (f ∷ nodes) e h (inl same) = rw same (ground arith)
select-none v (f ∷ nodes) e h (inr at) = select-none v nodes e (ground arith) at

pub is_in-All :
    (P : UiNodeId → Type 0) (id : UiNodeId) (ids : List UiNodeId)
    → is_in id ids ≡ true
    → All P ids
    → P id
unfolding is_in any
is_in-All P id [] h k = absurd (cc)
is_in-All P id (i ∷ ids) h k = elim (Bool-cases (holds (String-discrete i id))) [
  | inl here ↦ subst P ((holds_iff (String-discrete i id)).0 here) k.0
  | inr other ↦ is_in-All P id ids (rw other at h) k.1
]

pub and_then-ok : (a b : Option Checked) → and_then a b ≡ some (ok tt) → b ≡ some (ok tt)
unfolding and_then
and_then-ok none b h = absurd (cc)
and_then-ok (some (ok done)) b h = h
and_then-ok (some (err e)) b h = absurd (cc)
