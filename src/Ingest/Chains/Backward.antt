-- ===== src/Ingest/Chains/Backward.antt =====
-- Every base that the walk leaves precedes its object, and is not too deep.
use mathlib.Core.Path.{subst}
use enroute.Prelude.{
  none≢some, ℕ, ◌+◌, ◌≤◌, ◌<◌, ◌≡◌, refl, sym, false, none, some, Option-cases, inl, inr, List,
}
use enroute.Prelude.Dict.{get, nat_key}
use enroute.Ingest.DeltaPlan.{DeltaEntry, max_chain, cut}
use enroute.Ingest.Chains.{Walk, could_loop, is_too_deep, depth_of, reached, note, walk_entry}
use enroute.Ingest.Chains.Ranks.{
  IsWalk, Grows, note-Grows, note_fresh, note-IsWalk, cuts, keeps, goes, known_base,
}
use enroute.Ingest.Chains.Tested.{known_depth, in_order}

-- A base precedes its object: it is one that the index gave a depth for, or the object is new and comes
-- later in the walk.
pub data Precedes (older stored_at rank : List (ℕ × ℕ)) (b o : ℕ) : Type 0 where
  is_older : (d : ℕ) → get older b ≡ some d → Precedes older stored_at rank b o
  is_ranked :
      (p q : ℕ)
      → get rank b ≡ some p
      → get rank o ≡ some q
      → p < q
      → get stored_at o ≡ none
      → Precedes older stored_at rank b o

-- The depth of a base, plus one, is within the limit of the entry.
pub data Within (older depth : List (ℕ × ℕ)) (b limit : ℕ) : Type 0 where
  of_older : (d : ℕ) → get older b ≡ some d → d + 1 ≤ limit → Within older depth b limit
  of_walked : (d : ℕ) → get depth b ≡ some d → d + 1 ≤ limit → Within older depth b limit

pub record IsBound (older stored_at : List (ℕ × ℕ)) (w : Walk) (e : DeltaEntry) : Type 0 where
  pub ranked : (q : ℕ) × (get w.rank e.oid ≡ some q)
  pub precedes : (b : ℕ) → e.base ≡ some b → Precedes older stored_at w.rank b e.oid
  pub within : (b : ℕ) → e.base ≡ some b → Within older w.depth b (max_chain e.kind)

Precedes-Grows :
    (older stored_at : List (ℕ × ℕ)) (w v : Walk) (b o : ℕ)
    → Grows w v
    → Precedes older stored_at w.rank b o
    → Precedes older stored_at v.rank b o
Precedes-Grows older stored_at w v b o g (is_older d e) = is_older d e
Precedes-Grows older stored_at w v b o g (is_ranked p q e f h n) =
    is_ranked p q (g.ranks b p e) (g.ranks o q f) h n

Within-Grows :
    (older : List (ℕ × ℕ)) (w v : Walk) (b limit : ℕ)
    → Grows w v
    → Within older w.depth b limit
    → Within older v.depth b limit
Within-Grows older w v b limit g (of_older d e h) = of_older d e h
Within-Grows older w v b limit g (of_walked d e h) = of_walked d (g.depths b d e) h

pub IsBound-Grows :
    (older stored_at : List (ℕ × ℕ)) (w v : Walk) (e : DeltaEntry)
    → Grows w v
    → IsBound older stored_at w e
    → IsBound older stored_at v e
IsBound-Grows older stored_at w v e g h = record {
  ranked = (h.ranked.0, g.ranks e.oid h.ranked.0 h.ranked.1);
  precedes = λ b p. Precedes-Grows older stored_at w v b e.oid g (h.precedes b p);
  within = λ b p. Within-Grows older w v b (max_chain e.kind) g (h.within b p);
}

rank-note_ranked : (w : Walk) (oid n : ℕ) → (q : ℕ) × (get (note w oid n).rank oid ≡ some q)
rank-note_ranked w oid n = elim (Option-cases (get w.rank oid)) [
  | inl h ↦ (w.next_rank, (note_fresh w oid n h).0)
  | inr (q, h) ↦ (q, (note-Grows w oid n).ranks oid q h)
]

kept-Precedes :
    (older stored_at : List (ℕ × ℕ)) (w : Walk) (e : DeltaEntry) (n b d : ℕ)
    → IsWalk w
    → e.base ≡ some b
    → could_loop stored_at w e ≡ false
    → depth_of older w b ≡ some d
    → Precedes older stored_at (note w e.oid n).rank b e.oid
kept-Precedes older stored_at w e n b d h f c k = elim (known_depth older w b d k) [
  | inl x ↦
      let p = h.ranked b d x in
      let o = in_order stored_at w e b p.0 f p.1 c in
      elim o.1 [
        | inl u ↦
            is_ranked p.0 w.next_rank ((note-Grows w e.oid n).ranks b p.0 p.1)
              (note_fresh w e.oid n u).0 (h.below b p.0 p.1) o.0
        | inr (q, v, l) ↦
            is_ranked p.0 q ((note-Grows w e.oid n).ranks b p.0 p.1)
              ((note-Grows w e.oid n).ranks e.oid q v) l o.0
      ]
  | inr x ↦ is_older d x
]

kept-Within :
    (older : List (ℕ × ℕ)) (w : Walk) (oid n b d limit : ℕ)
    → depth_of older w b ≡ some d
    → d + 1 ≤ limit
    → Within older (note w oid n).depth b limit
kept-Within older w oid n b d limit k l = elim (known_depth older w b d k) [
  | inl x ↦ of_walked d ((note-Grows w oid n).depths b d x) l
  | inr x ↦ of_older d x l
]

cut_base : (e : DeltaEntry) (b : ℕ) → (cut e).base ≡ some b → ⊥
unfolding cut
cut_base e b h = none≢some refl h

pub cut_oid : (e : DeltaEntry) → (cut e).oid ≡ e.oid
unfolding cut
cut_oid e = refl

cut-IsBound :
    (older stored_at : List (ℕ × ℕ)) (w : Walk) (e : DeltaEntry)
    → IsBound older stored_at (note w e.oid 0) (cut e)
cut-IsBound older stored_at w e = record {
  ranked = rw (cut_oid e) (rank-note_ranked w e.oid 0);
  precedes = λ b h. absurd (cut_base e b h);
  within = λ b h. absurd (cut_base e b h);
}

kept-IsBound :
    (older stored_at : List (ℕ × ℕ)) (w : Walk) (e : DeltaEntry) (n : ℕ)
    → IsWalk w
    → could_loop stored_at w e ≡ false
    → is_too_deep older w e ≡ false
    → IsBound older stored_at (note w e.oid n) e
kept-IsBound older stored_at w e n h c k = record {
  ranked = rank-note_ranked w e.oid n;
  precedes = λ b f.
      let d = known_base older w e b f k in kept-Precedes older stored_at w e n b d.0 h f c d.1;
  within = λ b f.
      let d = known_base older w e b f k in
      kept-Within older w e.oid n b d.0 (max_chain e.kind) d.1 d.2;
}

-- What the walk makes of itself and of an entry.
pub record IsStep (older stored_at : List (ℕ × ℕ)) (w : Walk) (one : Walk × DeltaEntry)
    : Type 0 where
  pub walk : IsWalk one.0
  pub grows : Grows w one.0
  pub bound : IsBound older stored_at one.0 one.1

pub walk_entry-IsStep :
    (older stored_at : List (ℕ × ℕ)) (w : Walk) (e : DeltaEntry)
    → IsWalk w
    → IsStep older stored_at w (walk_entry older stored_at w e)
walk_entry-IsStep older stored_at w e h = elim (goes older stored_at w e) [
  | cuts q ↦ subst (IsStep older stored_at w) (sym q) (record {
    walk = note-IsWalk w e.oid 0 h;
    grows = note-Grows w e.oid 0;
    bound = cut-IsBound older stored_at w e;
  })
  | keeps c k q ↦ subst (IsStep older stored_at w) (sym q) (record {
    walk = note-IsWalk w e.oid (reached older w e.base) h;
    grows = note-Grows w e.oid (reached older w e.base);
    bound = kept-IsBound older stored_at w e (reached older w e.base) h c k;
  })
]
