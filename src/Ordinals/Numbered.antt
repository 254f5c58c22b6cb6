-- ===== src/Ordinals/Numbered.antt =====
-- What ComputeMethodOrdinals and ComputeFieldTags return.
use fidl.Prelude.{
  ℕ, ◌-◌, ◌^◌, ◌<◌, ◌≡◌, sym, ap, ◌∙◌, refl, arith, Bool, true, false, Option, none, some, List, [],
  ◌∷◌, ◌++◌, leb, ◌==◌, Bool-cases, inl, inr, if◌then◌else◌, All, ==_refl,
}
use fidl.Prelude.Int.{ℤ, pos, negsuc}
use fidl.Ordinals.{
  Declared, ok, err, ordinal_duplicate, ordinal_range, ByOrdinal, lookup, all_ordinals, put_entry,
  method_ordinal,
}
use fidl.Ordinals.Slots.{Yields}
use fidl.Ordinals.Entries.{is_in, IsDistinct, IsDistinct-snoc}

abbrev pub all_declared : ByOrdinal → List Declared
all_declared [] = []
all_declared ((ordinal, d) ∷ entries) = d ∷ all_declared entries

-- A declaration with an ordinal of its own has got it, and none is as great as `bound`.
abbrev pub IsOwn : ℕ → ℕ × Declared → Type 0
IsOwn bound e = ((n : ℕ) → e.1.declared_ordinal ≡ pos n → e.0 ≡ n) × (e.0 < bound)

-- what the loops keep, once they have passed the declarations `ds`
pub record IsEntries (bound : ℕ) (ds : List Declared) (entries : ByOrdinal) : Type 0 where
  pub distinct : IsDistinct (all_ordinals entries)
  pub found : All (λ e. lookup e.0 entries ≡ some e.1) entries
  pub declared : all_declared entries ≡ ds
  pub own : All (IsOwn bound) entries

all_ordinals-snoc :
    (entries : ByOrdinal) (o : ℕ) (d : Declared)
    → all_ordinals (entries ++ (o, d) ∷ []) ≡ all_ordinals entries ++ o ∷ []
all_ordinals-snoc [] o d = refl
all_ordinals-snoc ((k, e) ∷ entries) o d =
    ap {B = List ℕ} (λ r. k ∷ r) (all_ordinals-snoc entries o d)

all_declared-snoc :
    (entries : ByOrdinal) (o : ℕ) (d : Declared)
    → all_declared (entries ++ (o, d) ∷ []) ≡ all_declared entries ++ d ∷ []
all_declared-snoc [] o d = refl
all_declared-snoc ((k, e) ∷ entries) o d =
    ap {B = List Declared} (λ r. e ∷ r) (all_declared-snoc entries o d)

lookup-snoc-some :
    (entries : ByOrdinal) (k o : ℕ) (d e : Declared)
    → lookup k entries ≡ some e
    → lookup k (entries ++ (o, d) ∷ []) ≡ some e
lookup-snoc-some [] k o d e h = absurd (cc)
lookup-snoc-some ((j, f) ∷ entries) k o d e h = elim (Bool-cases (k == j)) [
  | inl q ↦ rw q (sym (rw q refl) ∙ h)
  | inr q ↦ rw q (lookup-snoc-some entries k o d e (sym (rw q refl) ∙ h))
]

lookup-snoc-none :
    (entries : ByOrdinal) (o : ℕ) (d : Declared)
    → lookup o entries ≡ none
    → lookup o (entries ++ (o, d) ∷ []) ≡ some d
lookup-snoc-none [] o d h = rw (==_refl o) refl
lookup-snoc-none ((j, f) ∷ entries) o d h = elim (Bool-cases (o == j)) [
  | inl q ↦ absurd (let a : some f ≡ none = sym (rw q refl) ∙ h in cc)
  | inr q ↦ rw q (lookup-snoc-none entries o d (sym (rw q refl) ∙ h))
]

lookup-none-is_in :
    (entries : ByOrdinal) (o : ℕ) → lookup o entries ≡ none → is_in o (all_ordinals entries) ≡ false
lookup-none-is_in [] o h = refl
lookup-none-is_in ((j, f) ∷ entries) o h = elim (Bool-cases (o == j)) [
  | inl q ↦ absurd (let a : some f ≡ none = sym (rw q refl) ∙ h in cc)
  | inr q ↦ rw q (lookup-none-is_in entries o (sym (rw q refl) ∙ h))
]

All-entries-snoc :
    (P : ℕ × Declared → Type 0) (xs : ByOrdinal) (x : ℕ × Declared)
    → All P xs
    → P x
    → All P (xs ++ x ∷ [])
All-entries-snoc P [] x h k = (k, tt)
All-entries-snoc P (y ∷ ys) x h k = (h.0, All-entries-snoc P ys x h.1 k)

All-entries-map :
    (P Q : ℕ × Declared → Type 0) (xs : ByOrdinal)
    → ((x : ℕ × Declared) → P x → Q x)
    → All P xs
    → All Q xs
All-entries-map P Q [] f h = tt
All-entries-map P Q (x ∷ xs) f h = (f x h.0, All-entries-map P Q xs f h.1)

IsDistinct-over : (xs ys : List ℕ) → xs ≡ ys → IsDistinct xs → IsDistinct ys
IsDistinct-over xs ys e h = rw (← e) h

IsEntries-snoc :
    (bound o : ℕ) (d : Declared) (ds : List Declared) (entries : ByOrdinal)
    → IsEntries bound ds entries
    → IsOwn bound (o, d)
    → lookup o entries ≡ none
    → IsEntries bound (ds ++ d ∷ []) (entries ++ (o, d) ∷ [])
IsEntries-snoc bound o d ds entries i w h = record {
  distinct =
      IsDistinct-over _ _ (sym (all_ordinals-snoc entries o d))
        (IsDistinct-snoc (all_ordinals entries) o i.distinct (lookup-none-is_in entries o h));
  found =
      All-entries-snoc _ entries (o, d)
        (All-entries-map _ _ entries (λ e f. lookup-snoc-some entries e.0 o d e.1 f) i.found)
        (lookup-snoc-none entries o d h);
  declared = all_declared-snoc entries o d ∙ ap (λ (xs : List Declared). xs ++ d ∷ []) i.declared;
  own = All-entries-snoc _ entries (o, d) i.own w;
}

pub put_entry-Yields :
    (bound o : ℕ) (d : Declared) (ds : List Declared) (entries : ByOrdinal)
    → IsEntries bound ds entries
    → IsOwn bound (o, d)
    → Yields (IsEntries bound (ds ++ d ∷ [])) (put_entry o d entries)
unfolding put_entry
put_entry-Yields bound o d ds entries i w = go (lookup o entries) refl
  where
    go :
        (e : Option Declared)
        → lookup o entries ≡ e
        → Yields (IsEntries bound (ds ++ d ∷ [])) (elim e [
          | some existing ↦ err (ordinal_duplicate o d existing)
          | none ↦ ok (entries ++ (o, d) ∷ [])
        ])
    go (some existing) h = tt
    go none h = IsEntries-snoc bound o d ds entries i w h

pub method_ordinal-Yields :
    (z : ℤ) (next : ℕ) (d : Declared)
    → d.declared_ordinal ≡ z
    → next < 2 ^ 32
    → Yields (λ o. IsOwn (2 ^ 32) (o, d)) (method_ordinal z next d)
unfolding method_ordinal
method_ordinal-Yields (negsuc k) next d e h = ((λ n q. absurd (let a = sym e ∙ q in cc)), h)
method_ordinal-Yields (pos k) next d e h = go (leb (2 ^ 32 - 1) k) (λ f. ground (arith, f))
  where
    go :
        (b : Bool)
        → (b ≡ false → k < 2 ^ 32)
        → Yields (λ o. IsOwn (2 ^ 32) (o, d)) (if b then err (ordinal_range k d) else ok k)
    go true f = tt
    go false f = ((λ n q. (let a = sym e ∙ q in cc)), f refl)
