-- ===== src/Ingest/DeltaPlan/Order.antt =====
-- The order of a pack's entries: the root tree, the trees, the blobs, and each object once.
use mathlib.Core.Path.{subst}
use enroute.Prelude.{
  ℕ, ◌≡◌, refl, sym, ap, ◌∙◌, true, false, not, ◌&&◌, Option, Bool-cases, inl, inr, List, [], ◌∷◌,
  ◌++◌, ◌==◌, if◌then◌else◌, All,
}
use enroute.Packfile.Format.{tree}
use enroute.Prelude.Sets.{has, IsDistinct, has_here}
use enroute.Ingest.DeltaPlan.{
  DeltaEntry, Change, encoded, oids, is_tree, order_loop, is_unchanged, order_entries,
}
use enroute.Ingest.DeltaPlan.Loop.{news, IsOrdered, order_loop-IsOrdered}

abbrev pub root_entry : ℕ → Option ℕ → DeltaEntry
root_entry root base = record { oid = root; kind = tree; base = base; source = encoded }

-- A pack's entries: the root tree first, then trees, then what is no tree; each of the root and the new
-- objects is there, once, and nothing else.
pub record IsPack (root : ℕ) (base : Option ℕ) (cs : List Change) (es : List DeltaEntry)
    : Type 0 where
  pub trees : List DeltaEntry
  pub blobs : List DeltaEntry
  pub is_both : es ≡ (root_entry root base ∷ trees) ++ blobs
  pub all_trees : All (λ e. is_tree e.kind ≡ true) trees
  pub all_blobs : All (λ e. is_tree e.kind ≡ false) blobs
  pub holds : (o : ℕ) → has (oids es) o ≡ has (root ∷ news cs) o
  pub distinct : IsDistinct (oids es)

rooted_holds :
    (root : ℕ) (more : List ℕ) (o : ℕ)
    → (if root == o then true else not (has (root ∷ []) o) && has more o) ≡ has (root ∷ more) o
unfolding has
rooted_holds root more o = elim (Bool-cases (root == o)) [ inl q ↦ rw q refl | inr q ↦ rw q refl ]

rooted-IsPack :
    (root : ℕ) (base : Option ℕ) (cs : List Change) (found : List DeltaEntry × List DeltaEntry)
    → IsOrdered (root ∷ []) cs found
    → IsPack root base cs ((root_entry root base ∷ found.0) ++ found.1)
unfolding has oids IsDistinct
rooted-IsPack root base cs found r = record {
  trees = found.0;
  blobs = found.1;
  is_both = refl;
  all_trees = r.trees;
  all_blobs = r.blobs;
  holds = λ o. ap (λ b. if root == o then true else b) (r.holds o) ∙ rooted_holds root (news cs) o;
  distinct = (
    r.holds root ∙ ap (λ b. not b && has (news cs) root) (has_here root root [] refl),
    r.distinct,
  );
}

order_entries_rooted :
    (root : ℕ) (base : Option ℕ) (cs : List Change)
    → is_unchanged root base cs ≡ false
    → order_entries root base cs
      ≡ (root_entry root base ∷ (order_loop (root ∷ []) cs).0) ++ (order_loop (root ∷ []) cs).1
unfolding order_entries
order_entries_rooted root base cs h = rw h refl

-- Unless the tree is its base's, a commit's entries are its root tree, the changed trees and the changed
-- blobs in this order; each of these objects has one entry, whatever paths it changed at.
pub order_entries-IsPack :
    (root : ℕ) (base : Option ℕ) (cs : List Change)
    → is_unchanged root base cs ≡ false
    → IsPack root base cs (order_entries root base cs)
order_entries-IsPack root base cs h =
    subst (IsPack root base cs) (sym (order_entries_rooted root base cs h))
      (rooted-IsPack root base cs (order_loop (root ∷ []) cs) (order_loop-IsOrdered cs (root ∷ [])))
