-- ===== src/Versions/Yield.antt =====
-- What computeVersionInfo returns.
use fidl.Prelude.{
  ℕ, suc, ◌+◌, ◌%◌, ◌^◌, ◌<◌, ◌≤◌, ◌≡◌, sym, ap, ◌∙◌, refl, arith, ◌⊎◌, inl, inr, Bool, true, false,
  not, ◌&&◌, Option, none, some, List, [], ◌∷◌, ◌++◌, ◌==◌, if◌then◌else◌, length, All, ==_refl,
}
use fidl.Versions.{
  Attribute, MinVersion, MinVersionError, VersionedField, StructVersion, VersionLoop, VersionResult,
  versions, refused, panicked, not_nullable, min_version_attribute, check_min_version,
  compute_payload_size_so_far, take_version, version_fields, compute_version_info, find_min_version,
}
use fidl.Versions.Info.{
  IsEntry, IsRising, has_version, all_min_versions, all_sizes, All-snoc, All-map, IsRising-snoc,
  has_version-snoc, all_min_versions-snoc, all_sizes-snoc, IsLoop,
}
use fidl.Versions.Loop.{
  entry, raised, kept, take_version-cases, everything-snoc, entry-IsEntry, IsEntry-snoc,
  length-snoc,
}

listed-snoc :
    (m p : ℕ) (es : List StructVersion) (e : StructVersion)
    → e.version_number ≡ p
    → (has_version m es ≡ true) ⊎ (m ≡ p)
    → has_version m (es ++ e ∷ []) ≡ true
listed-snoc m p es e q (inl h) = let a = has_version-snoc m es e in ground (arith, a, h)
listed-snoc m p es e q (inr h) = let a = has_version-snoc m es e in ground (arith, a, ==_refl m)

mins-snoc :
    (ps : List (ℕ × ℕ)) (ms : List ℕ) (value size : ℕ)
    → ms ≡ all_min_versions ps
    → ms ++ value ∷ [] ≡ all_min_versions (ps ++ (value, size) ∷ [])
mins-snoc ps ms value size e =
    ap (λ (xs : List ℕ). xs ++ value ∷ []) e ∙ sym (all_min_versions-snoc ps value size)

All-over : (P : ℕ → Type 0) (xs ys : List ℕ) → xs ≡ ys → All P xs → All P ys
All-over P xs ys e h = rw (← e) h

raised-IsLoop :
    (ps : List (ℕ × ℕ)) (s : VersionLoop) (n value size : ℕ)
    → IsLoop ps s
    → n ≡ length (all_sizes ps)
    → s.previous_min_version < value
    → IsLoop (ps ++ (value, size) ∷ []) (raised n value size s)
raised-IsLoop ps s n value size i e l = record {
  mins = mins-snoc ps s.min_versions value size i.mins;
  everything = λ v h. everything-snoc ps s value size v i (omega (arith, l)) h;
  entries =
      All-snoc _ s.version_info (entry n s)
        (All-map _ _ s.version_info
          (λ x h. (omega (arith, h.0, l), IsEntry-snoc ps value size x (omega (arith, h.0, l)) h.1))
          i.entries)
        (l, IsEntry-snoc ps value size (entry n s) l (entry-IsEntry ps s n i e));
  rising =
      IsRising-snoc s.version_info (entry n s) i.rising
        (All-map _ _ s.version_info (λ x h. h.0) i.entries);
  listed = (
    inl (listed-snoc 0 s.previous_min_version s.version_info (entry n s) refl i.listed.0),
    All-over _ (all_min_versions ps ++ value ∷ []) _ (sym (all_min_versions-snoc ps value size)) (
        All-snoc _ (all_min_versions ps) value
          (All-map _ _ (all_min_versions ps)
            (λ m h. inl (listed-snoc m s.previous_min_version s.version_info (entry n s) refl h))
            i.listed.1)
          (inr refl)),
  );
}

kept-IsLoop :
    (ps : List (ℕ × ℕ)) (s : VersionLoop) (value size : ℕ)
    → IsLoop ps s
    → value ≡ s.previous_min_version
    → IsLoop (ps ++ (value, size) ∷ []) (kept value size s)
kept-IsLoop ps s value size i e = record {
  mins = mins-snoc ps s.min_versions value size i.mins;
  everything = λ v h. everything-snoc ps s value size v i (omega (arith, e)) (omega (arith, e, h));
  entries =
      All-map _ _ s.version_info
        (λ x h. (h.0, IsEntry-snoc ps value size x (omega (arith, h.0, e)) h.1)) i.entries;
  rising = i.rising;
  listed = (
    i.listed.0,
    All-over _ (all_min_versions ps ++ value ∷ []) _ (sym (all_min_versions-snoc ps value size))
        (All-snoc _ (all_min_versions ps) value i.listed.1 (inr e)),
  );
}

take_version-IsLoop :
    (ps : List (ℕ × ℕ)) (s : VersionLoop) (i value : ℕ) (field : VersionedField)
    → IsLoop ps s
    → i ≡ length (all_sizes ps)
    → i < 2 ^ 32
    → s.previous_min_version ≤ value
    → IsLoop (ps ++ (value, compute_payload_size_so_far field) ∷ []) (take_version i value field s)
take_version-IsLoop ps s i value field l e small h =
    let size = compute_payload_size_so_far field in
    take_version-cases i value field s (λ t. IsLoop (ps ++ (value, size) ∷ []) t)
      (λ k. raised-IsLoop ps s (i % 2 ^ 32) value size l (omega (arith, e, small)) k)
      (λ k. kept-IsLoop ps s value size l (omega (arith, k, h)))

-- A missing attribute has value 0.
find_min_version-missing :
    (attributes : List Attribute)
    → (find_min_version attributes).found ≡ false
    → (find_min_version attributes).value ≡ 0
unfolding find_min_version
find_min_version-missing [] h = refl
find_min_version-missing (a ∷ attributes) h = ground (arith, find_min_version-missing attributes)

pub min_version_attribute-missing :
    (attributes : Option (List Attribute))
    → (min_version_attribute attributes).found ≡ false
    → (min_version_attribute attributes).value ≡ 0
unfolding min_version_attribute
min_version_attribute-missing none h = refl
min_version_attribute-missing (some attributes) h = find_min_version-missing attributes h

pub check_min_version-le :
    (m : MinVersion) (previous : ℕ)
    → (m.found ≡ false → m.value ≡ 0)
    → check_min_version m previous ≡ none
    → previous ≤ m.value
unfolding check_min_version
check_min_version-le m previous f h = ground (arith, f, h)

-- A field as its minVersion and the payload size up to it.
abbrev pub field_pair : VersionedField → ℕ × ℕ
field_pair field =
    ((min_version_attribute field.attributes).value, compute_payload_size_so_far field)

abbrev pub field_pairs : List VersionedField → List (ℕ × ℕ)
field_pairs [] = []
field_pairs (field ∷ fields) = field_pair field ∷ field_pairs fields

-- What a result promises where no field is refused.
abbrev pub Yields : {A : Type 0} → (A → Type 0) → VersionResult A → Type 0
Yields P (versions a) = P a
Yields P (refused e) = Unit
Yields P panicked = ⊥

Yields-checks :
    {A : Type 0} (P : A → Type 0) (o : Option MinVersionError) (b : Bool) (r : VersionResult A)
    → (o ≡ none → Yields P r)
    → Yields P (elim o [ some e ↦ refused e | none ↦ if b then refused not_nullable else r ])
Yields-checks P (some e) b r f = tt
Yields-checks P none true r f = tt
Yields-checks P none false r f = f refl

append-snoc :
    (ps : List (ℕ × ℕ)) (p : ℕ × ℕ) (qs : List (ℕ × ℕ)) → (ps ++ p ∷ []) ++ qs ≡ ps ++ (p ∷ qs)
append-snoc [] p qs = refl
append-snoc (q ∷ ps) p qs = ap {B = List (ℕ × ℕ)} (λ r. q ∷ r) (append-snoc ps p qs)

append-nil : (ps : List (ℕ × ℕ)) → ps ++ [] ≡ ps
append-nil [] = refl
append-nil (p ∷ ps) = ap {B = List (ℕ × ℕ)} (λ r. p ∷ r) (append-nil ps)

Yields-over :
    (ps qs : List (ℕ × ℕ)) (r : VersionResult VersionLoop)
    → ps ≡ qs
    → Yields (IsLoop ps) r
    → Yields (IsLoop qs) r
Yields-over ps qs r e h = rw (← e) h

version_fields-Yields :
    (i : ℕ) (fields : List VersionedField) (s : VersionLoop) (ps : List (ℕ × ℕ))
    → IsLoop ps s
    → i ≡ length (all_sizes ps)
    → i + length fields < 2 ^ 32
    → Yields (IsLoop (ps ++ field_pairs fields)) (version_fields i fields s)
unfolding version_fields
version_fields-Yields i [] s ps l e small = rw (append-nil ps) l
version_fields-Yields i (field ∷ fields) s ps l e small =
    let m = min_version_attribute field.attributes in
    let size = compute_payload_size_so_far field in
    Yields-checks _ (check_min_version m s.previous_min_version)
      (not (m.value == 0) && not field.allowed) _
      (λ c.
        let h =
          check_min_version-le m s.previous_min_version
            (min_version_attribute-missing field.attributes) c in
        let next = take_version-IsLoop ps s i m.value field l e (omega (arith, small)) h in
        Yields-over _ _ _ (append-snoc ps (field_pair field) (field_pairs fields)) (
          version_fields-Yields (suc i) fields (take_version i m.value field s)
            (ps ++ field_pair field ∷ []) next (omega (arith, e, all_sizes_length))
            (omega (arith, small))))
  where
    all_sizes_length : length (all_sizes (ps ++ field_pair field ∷ [])) ≡ length (all_sizes ps) + 1
    all_sizes_length =
        ap (λ (xs : List ℕ). length xs)
          (all_sizes-snoc ps (field_pair field).0 (field_pair field).1)
        ∙ length-snoc (all_sizes ps) (field_pair field).1

length-field_pairs :
    (fields : List VersionedField) → length (all_sizes (field_pairs fields)) ≡ length fields
length-field_pairs [] = refl
length-field_pairs (field ∷ fields) = omega (arith, length-field_pairs fields)

-- What the version info says of the fields, in order.
pub record IsVersionInfo (ps : List (ℕ × ℕ)) (info : List StructVersion) : Type 0 where
  pub entries : All (IsEntry ps) info
  pub rising : IsRising info
  pub starts : has_version 0 info ≡ true
  pub listed : All (λ m. has_version m info ≡ true) (all_min_versions ps)

IsLoop-start :
    (s : VersionLoop)
    → s.min_versions ≡ []
    → s.version_info ≡ []
    → s.previous_min_version ≡ 0
    → s.payload_size_so_far ≡ 8
    → IsLoop [] s
IsLoop-start s a b c d = record {
  mins = a;
  everything = λ v h. (refl, sym d);
  entries = rw b tt;
  rising = rw b tt;
  listed = (inr (sym c), tt);
}

IsLoop-end :
    (ps : List (ℕ × ℕ)) (s : VersionLoop) (n : ℕ)
    → IsLoop ps s
    → n ≡ length (all_sizes ps)
    → IsVersionInfo ps (s.version_info ++ entry n s ∷ [])
IsLoop-end ps s n i e = record {
  entries =
      All-snoc _ s.version_info (entry n s) (All-map _ _ s.version_info (λ x h. h.1) i.entries)
        (entry-IsEntry ps s n i e);
  rising =
      IsRising-snoc s.version_info (entry n s) i.rising
        (All-map _ _ s.version_info (λ x h. h.0) i.entries);
  starts = listed-snoc 0 s.previous_min_version s.version_info (entry n s) refl i.listed.0;
  listed =
      All-map _ _ (all_min_versions ps)
        (λ m h. listed-snoc m s.previous_min_version s.version_info (entry n s) refl h) i.listed.1;
}

Yields-end :
    {A B : Type 0} (P : A → Type 0) (Q : B → Type 0) (r : VersionResult A) (f : A → B)
    → ((a : A) → P a → Q (f a))
    → Yields P r
    → Yields Q
        (elim r [ refused e ↦ refused e | panicked ↦ panicked | versions a ↦ versions (f a) ])
Yields-end P Q (versions a) f h k = h a k
Yields-end P Q (refused e) f h k = tt
Yields-end P Q panicked f h k = k

-- They never fall, and are at least `m`.
abbrev pub IsAscending : ℕ → List ℕ → Type 0
IsAscending m [] = Unit
IsAscending m (n ∷ ns) = (m ≤ n) × IsAscending n ns

take_version-previous :
    (i value : ℕ) (field : VersionedField) (s : VersionLoop)
    → s.previous_min_version ≤ value
    → (take_version i value field s).previous_min_version ≡ value
unfolding take_version
take_version-previous i value field s h = ground arith

IsAscending-over : (m n : ℕ) (ns : List ℕ) → m ≡ n → IsAscending m ns → IsAscending n ns
IsAscending-over m n ns e h = rw (← e) h

pub Yields-map :
    {A : Type 0} (P Q : A → Type 0) (r : VersionResult A)
    → ((a : A) → P a → Q a)
    → Yields P r
    → Yields Q r
Yields-map P Q (versions a) h k = h a k
Yields-map P Q (refused e) h k = tt
Yields-map P Q panicked h k = k

pub Yields-both :
    {A : Type 0} (P Q : A → Type 0) (r : VersionResult A)
    → Yields P r
    → Yields Q r
    → Yields (λ a. P a × Q a) r
Yields-both P Q (versions a) h k = (h, k)
Yields-both P Q (refused e) h k = tt
Yields-both P Q panicked h k = h

version_fields-IsAscending :
    (i : ℕ) (fields : List VersionedField) (s : VersionLoop)
    → Yields
        (λ t. IsAscending s.previous_min_version (all_min_versions (field_pairs fields)))
        (version_fields i fields s)
unfolding version_fields
version_fields-IsAscending i [] s = tt
version_fields-IsAscending i (field ∷ fields) s =
    let m = min_version_attribute field.attributes in
    Yields-checks _ (check_min_version m s.previous_min_version)
      (not (m.value == 0) && not field.allowed) _
      (λ c.
        let h =
          check_min_version-le m s.previous_min_version
            (min_version_attribute-missing field.attributes) c in
        let e = take_version-previous i m.value field s h in
        Yields-map _ _ (version_fields (suc i) fields (take_version i m.value field s))
          (λ t a. (h, IsAscending-over _ m.value _ e a))
          (version_fields-IsAscending (suc i) fields (take_version i m.value field s)))

-- For a struct with fewer than 2^32 fields, where no field is refused: each field's minVersion is the value of
-- its attribute, or 0, and these never fall; the version info rises strictly from version 0, and has each
-- minVersion; each of its entries counts the fields up to its version, and has the largest payload size of
-- these, at least a header's.
pub compute_version_info-Yields :
    (fields : List VersionedField)
    → length fields < 2 ^ 32
    → Yields
        (λ r.
          IsVersionInfo (field_pairs fields) r.0
          × (r.1 ≡ all_min_versions (field_pairs fields))
          × IsAscending 0 r.1)
        (compute_version_info fields)
unfolding compute_version_info
compute_version_info-Yields fields small =
    let start : VersionLoop = record {
      previous_min_version = 0;
      payload_size_so_far = 8;
      version_info = [];
      min_versions = [];
    } in
    Yields-end
      (λ s. IsLoop (field_pairs fields) s × IsAscending 0 (all_min_versions (field_pairs fields))) _
      (version_fields 0 fields start) _
      (λ s (i, a). (
        IsLoop-end (field_pairs fields) s (length fields % 2 ^ 32) i
            (omega (arith, small, length-field_pairs fields)),
        i.mins,
        ascending_over (sym i.mins) a,
      ))
      (Yields-both _ _ (version_fields 0 fields start)
        (version_fields-Yields 0 fields start [] (IsLoop-start start refl refl refl refl) refl
          (omega (arith, small)))
        (version_fields-IsAscending 0 fields start))
  where
    ascending_over : {ms ns : List ℕ} → ms ≡ ns → IsAscending 0 ms → IsAscending 0 ns
    ascending_over e h = rw (← e) h
