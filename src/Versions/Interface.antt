-- ===== src/Versions/Interface.antt =====
-- What computeInterfaceVersion returns.
use fidl.Prelude.{
  ℕ, ◌≤◌, ◌≡◌, sym, ap, ◌∙◌, refl, arith, ◌⊎◌, inl, inr, Bool, true, false, ◌||◌, Option, none,
  some, List, [], ◌∷◌, ◌++◌, ltb, ◌==◌, if◌then◌else◌, All, ==_refl,
}
use fidl.Versions.{
  MinVersionError, StructVersion, VersionedMethod, VersionResult, versions, refused, panicked,
  min_version_attribute, check_min_version, last_version, raise_version, ◌>>=◌, version_methods,
  compute_interface_version,
}
use fidl.Versions.Yield.{
  Yields, Yields-map, check_min_version-le, min_version_attribute-missing, IsAscending,
}

abbrev pub IsNonempty : Option (List StructVersion) → Type 0
IsNonempty none = Unit
IsNonempty (some []) = ⊥
IsNonempty (some (e ∷ es)) = Unit

-- Parameter structs have a version, as computeVersionInfo gives them one.
abbrev pub HasVersions : VersionedMethod → Type 0
HasVersions method = IsNonempty method.parameters × IsNonempty method.response_parameters

abbrev pub is_in : ℕ → List ℕ → Bool
is_in v [] = false
is_in v (w ∷ ws) = v == w || is_in v ws

-- `v` is the greatest of `start` and `vs`.
abbrev pub IsGreatest : ℕ → List ℕ → ℕ → Type 0
IsGreatest start vs v = (start ≤ v) × All (λ w. w ≤ v) vs × ((v ≡ start) ⊎ (is_in v vs ≡ true))

abbrev pub params_version : Option (List StructVersion) → List ℕ
params_version none = []
params_version (some info) = elim (last_version info) [ none ↦ [] | some v ↦ v ∷ [] ]

abbrev pub min_version_of : VersionedMethod → ℕ
min_version_of method = (min_version_attribute method.method_attributes).value

-- what a method asks for: its minVersion, and the last versions of its parameter structs
abbrev pub method_versions : VersionedMethod → List ℕ
method_versions method =
    min_version_of method ∷ params_version method.parameters
    ++ params_version method.response_parameters

abbrev pub all_versions : List VersionedMethod → List ℕ
all_versions [] = []
all_versions (method ∷ methods) = method_versions method ++ all_versions methods

abbrev pub method_min_versions : List VersionedMethod → List ℕ
method_min_versions [] = []
method_min_versions (method ∷ methods) = min_version_of method ∷ method_min_versions methods

All-append : (P : ℕ → Type 0) (xs ys : List ℕ) → All P xs → All P ys → All P (xs ++ ys)
All-append P [] ys h k = k
All-append P (x ∷ xs) ys h k = (h.0, All-append P xs ys h.1 k)

All-le : (xs : List ℕ) (a b : ℕ) → a ≤ b → All (λ w. w ≤ a) xs → All (λ w. w ≤ b) xs
All-le [] a b h k = tt
All-le (x ∷ xs) a b h k = ((let q = k.0 in omega (arith, h, q)), All-le xs a b h k.1)

is_in-append : (v : ℕ) (xs ys : List ℕ) → is_in v (xs ++ ys) ≡ (is_in v xs || is_in v ys)
is_in-append v [] ys = refl
is_in-append v (x ∷ xs) ys = ground (arith, is_in-append v xs ys)

IsGreatest-append :
    (a b c : ℕ) (xs ys : List ℕ) → IsGreatest a xs b → IsGreatest b ys c → IsGreatest a (xs ++ ys) c
IsGreatest-append a b c xs ys (l, all, e) (k, each, d) =
    let i = is_in-append c xs ys in
    (
      omega (arith, l, k),
      All-append _ xs ys (All-le xs b c k all) each,
      elim d [
        | inr q ↦ inr (ground (arith, i, q))
        | inl q ↦ elim e [
          | inl r ↦ inl (q ∙ r)
          | inr r ↦ inr (i ∙ (let s : is_in c xs ≡ true = rw q r in ground (arith, s)))
        ]
      ],
    )

IsGreatest-one : (v w : ℕ) → IsGreatest v (w ∷ []) (if ltb v w then w else v)
IsGreatest-one v w = (ground arith, (ground arith, tt), ground (arith, ==_refl w))

last_version-some :
    (e : StructVersion) (es : List StructVersion) → (v : ℕ) × (last_version (e ∷ es) ≡ some v)
unfolding last_version
last_version-some e [] = (e.version_number, refl)
last_version-some e (f ∷ es) = last_version-some f es

raised-Yields :
    (o : Option ℕ) (v : ℕ)
    → (w : ℕ) × (o ≡ some w)
    → Yields
        (IsGreatest v (elim o [ none ↦ [] | some u ↦ u ∷ [] ]))
        (elim o [ none ↦ panicked | some u ↦ versions (if ltb v u then u else v) ])
raised-Yields none v (w, e) = absurd (cc)
raised-Yields (some u) v (w, e) = IsGreatest-one v u

raise_version-Yields :
    (params : Option (List StructVersion)) (v : ℕ)
    → IsNonempty params
    → Yields (IsGreatest v (params_version params)) (raise_version params v)
unfolding raise_version
raise_version-Yields none v h = (omega arith, tt, inl refl)
raise_version-Yields (some []) v h = absurd h
raise_version-Yields (some (e ∷ es)) v h =
    raised-Yields (last_version (e ∷ es)) v (last_version-some e es)

Yields-bind :
    {A B : Type 0} (P : A → Type 0) (Q : B → Type 0) (r : VersionResult A) (f : A → VersionResult B)
    → Yields P r
    → ((a : A) → P a → Yields Q (f a))
    → Yields Q (r >>= f)
Yields-bind P Q (versions a) f h k = k a h
Yields-bind P Q (refused e) f h k = tt
Yields-bind P Q panicked f h k = h

Yields-check :
    {A : Type 0} (P : A → Type 0) (o : Option MinVersionError) (r : VersionResult A)
    → (o ≡ none → Yields P r)
    → Yields P (elim o [ some e ↦ refused e | none ↦ r ])
Yields-check P (some e) r f = tt
Yields-check P none r f = f refl

append_assoc : (xs ys zs : List ℕ) → (xs ++ ys) ++ zs ≡ xs ++ (ys ++ zs)
append_assoc [] ys zs = refl
append_assoc (x ∷ xs) ys zs = ap {B = List ℕ} (λ r. x ∷ r) (append_assoc xs ys zs)

append-nil : (xs : List ℕ) → xs ++ [] ≡ xs
append-nil [] = refl
append-nil (x ∷ xs) = ap {B = List ℕ} (λ r. x ∷ r) (append-nil xs)

abbrev IsInterface : ℕ → ℕ → List ℕ → List VersionedMethod → ℕ × List ℕ → Type 0
IsInterface previous version mins methods r =
    IsGreatest version (all_versions methods) r.0
    × (r.1 ≡ mins ++ method_min_versions methods)
    × IsAscending previous (method_min_versions methods)

version_methods-Yields :
    (methods : List VersionedMethod) (previous version : ℕ) (mins : List ℕ)
    → All HasVersions methods
    → Yields
        (IsInterface previous version mins methods)
        (version_methods methods previous version mins)
unfolding version_methods
version_methods-Yields [] previous version mins all =
    ((omega arith, tt, inl refl), sym (append-nil mins), tt)
version_methods-Yields (method ∷ methods) previous version mins all =
    let m = min_version_attribute method.method_attributes in
    let first = if ltb version m.value then m.value else version in
    Yields-check _ (check_min_version m previous) _ (λ c.
      Yields-bind (IsGreatest first (params_version method.parameters)) _
        (raise_version method.parameters first) _
        (raise_version-Yields method.parameters first all.0.0)
        (λ v gv.
          Yields-bind (IsGreatest v (params_version method.response_parameters)) _
            (raise_version method.response_parameters v) _
            (raise_version-Yields method.response_parameters v all.0.1)
            (λ w gw.
              Yields-map _ _ (version_methods methods m.value w (mins ++ m.value ∷ []))
                (λ r (g, e, a). (
                  IsGreatest-append version w r.0 (method_versions method) (all_versions methods)
                      (IsGreatest-append version first w (m.value ∷ []) _
                        (IsGreatest-one version m.value)
                        (IsGreatest-append first v w (params_version method.parameters) _ gv gw))
                      g,
                  e ∙ append_assoc mins (m.value ∷ []) (method_min_versions methods),
                  (
                    check_min_version-le m previous
                        (min_version_attribute-missing method.method_attributes) c,
                    a,
                  ),
                ))
                (version_methods-Yields methods m.value w (mins ++ m.value ∷ []) all.1))))

-- For methods whose parameter structs have a version, the computation does not panic. Where no method is
-- refused, each method's minVersion is the value of its attribute, or 0, these never fall, and the
-- interface's version is the greatest of 0, the minVersions and the last versions of the parameter structs.
pub compute_interface_version-Yields :
    (methods : List VersionedMethod)
    → All HasVersions methods
    → Yields
        (λ r.
          IsGreatest 0 (all_versions methods) r.0
          × (r.1 ≡ method_min_versions methods)
          × IsAscending 0 (method_min_versions methods))
        (compute_interface_version methods)
unfolding compute_interface_version
compute_interface_version-Yields methods all = version_methods-Yields methods 0 0 [] all
