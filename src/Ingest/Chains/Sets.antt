-- ===== src/Ingest/Chains/Sets.antt =====
-- What the sets of a plan hold: the objects of its packs, and the bases that it does not carry.
use mathlib.Core.Bool.{true≢false}
use mathlib.Core.Path.{subst}
use enroute.Prelude.{
  none≢some, some_eq, ℕ, zero, suc, ◌≡◌, refl, sym, ap, ◌∙◌, Bool, true, false, not, ◌&&◌, none,
  some, Option-cases, Bool-cases, inl, inr, List, [], ◌∷◌, ◌++◌, ◌==◌, if◌then◌else◌, get_elem?,
}
use enroute.Prelude.Dict.{get, nat_key}
use enroute.Ingest.DeltaPlan.{oids, DeltaEntry}
use enroute.Prelude.Sets.{has, has_cons, has_here, has_there, has_nothing, has_front, has_back}
use enroute.Ingest.Chains.{values, older_bases}

pub has-oids :
    (es : List DeltaEntry) (i : ℕ) (e : DeltaEntry)
    → get_elem? es i ≡ some e
    → has (oids es) e.oid ≡ true
unfolding oids
has-oids [] i e g = absurd (none≢some refl g)
has-oids (x ∷ es) zero e g = has_here x.oid e.oid (oids es) (ap (λ y. y.oid) (some_eq x e g))
has-oids (x ∷ es) (suc i) e g = has_there x.oid e.oid (oids es) (has-oids es i e g)

oids_append : (es fs : List DeltaEntry) → oids (es ++ fs) ≡ oids es ++ oids fs
unfolding oids
oids_append [] fs = refl
oids_append (e ∷ es) fs = rw (oids_append es fs) refl

pub has-values :
    (packs : List (ℕ × List DeltaEntry)) (c o : ℕ) (es : List DeltaEntry)
    → get packs c ≡ some es
    → has (oids es) o ≡ true
    → has (oids (values packs)) o ≡ true
unfolding values get
has-values [] c o es g h = absurd (none≢some refl g)
has-values (pack ∷ packs) c o es g h = elim (Bool-cases (pack.0 == c)) [
  | inl q ↦ rw (oids_append pack.1 (values packs)) (
      has_front (oids pack.1) (oids (values packs)) o
        (subst (λ fs. has (oids fs) o ≡ true) (some_eq es pack.1 (sym g ∙ found q)) h))
  | inr q ↦ rw (oids_append pack.1 (values packs)) (
      has_back (oids pack.1) (oids (values packs)) o
        (has-values packs c o es (sym (passed q) ∙ g) h))
]
  where
    found : (pack.0 == c) ≡ true → get (pack ∷ packs) c ≡ some pack.1
    found q = rw q refl

    passed : (pack.0 == c) ≡ false → get (pack ∷ packs) c ≡ get packs c
    passed q = rw q refl

older_bases_nil : (carried seen : List ℕ) → older_bases carried seen [] ≡ []
unfolding older_bases
older_bases_nil carried seen = refl

older_bases_whole :
    (e : DeltaEntry) (es : List DeltaEntry) (carried seen : List ℕ)
    → e.base ≡ none
    → older_bases carried seen (e ∷ es) ≡ older_bases carried seen es
unfolding older_bases
older_bases_whole e es carried seen f = rw (f, older_bases) refl

older_bases_based :
    (e : DeltaEntry) (es : List DeltaEntry) (carried seen : List ℕ) (b : ℕ)
    → e.base ≡ some b
    → older_bases carried seen (e ∷ es) ≡ (
        if not (has carried b) && not (has seen b)
        then b ∷ older_bases carried (b ∷ seen) es
        else older_bases carried seen es)
unfolding older_bases
older_bases_based e es carried seen b f = rw (f, older_bases) refl

apart_either :
    (x y : Bool) (a b : ℕ) (carried more rest : List ℕ)
    → has carried a ≡ x
    → (has more b ≡ true → has carried b ≡ false)
    → (has rest b ≡ true → has carried b ≡ false)
    → has (if not x && not y then a ∷ more else rest) b ≡ true
    → has carried b ≡ false
apart_either true y a b carried more rest e f g h = g h
apart_either false true a b carried more rest e f g h = g h
apart_either false false a b carried more rest e f g h = elim (has_cons a b more h) [
  | inl q ↦ ap (λ k. has carried k) (sym q) ∙ e
  | inr k ↦ f k
]

-- An older base is not one that the push carries.
pub older-apart :
    (es : List DeltaEntry) (carried seen : List ℕ) (b : ℕ)
    → has (older_bases carried seen es) b ≡ true
    → has carried b ≡ false
older-apart [] carried seen b h =
    absurd (true≢false (sym h ∙ ap (λ s. has s b) (older_bases_nil carried seen) ∙ has_nothing b))
older-apart (e ∷ es) carried seen b h = elim (Option-cases e.base) [
  | inl f ↦
      older-apart es carried seen b
        (ap (λ s. has s b) (sym (older_bases_whole e es carried seen f)) ∙ h)
  | inr (a, f) ↦
      apart_either (has carried a) (has seen a) a b carried _ _ refl
        (older-apart es carried (a ∷ seen) b) (older-apart es carried seen b)
        (ap (λ s. has s b) (sym (older_bases_based e es carried seen a f)) ∙ h)
]
