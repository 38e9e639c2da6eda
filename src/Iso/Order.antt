-- ===== src/Iso/Order.antt =====
-- std::sort and std::string's order, as IsoImage uses them: the sorting function is a parameter, any that
-- gives the same entries in the order of their paths.
use psprism.Base.{ap, ℕ, ◌≡◌, refl, subst, ◌∙◌, arith, Bool, true, false, ◌&&◌, ◌||◌}
use psprism.Base.{ltb, ◌==◌, if◌then◌else◌, List, [], ◌∷◌, All, Bool-cases, inl, inr}
use psprism.Base.Text.{same_text}
use psprism.Base.Sorting.{count}
use psprism.Iso.Types.{IsoEntry}

-- The order of two strings.
unfoldable pub less_text : List ℕ → List ℕ → Bool
less_text [] [] = false
less_text [] (y ∷ ys) = true
less_text (x ∷ xs) [] = false
less_text (x ∷ xs) (y ∷ ys) = ltb x y || (x == y && less_text xs ys)

abbrev pub IsOrdered : List IsoEntry → Type 0
IsOrdered [] = Unit
IsOrdered (e ∷ es) = All (λ (f : IsoEntry). less_text f.path e.path ≡ false) es × IsOrdered es

pub record EntrySorting : Type 1 where
  pub sort : List IsoEntry → List IsoEntry
  pub ordered : (entries : List IsoEntry) → IsOrdered (sort entries)
  pub same :
      (entries : List IsoEntry) (p : IsoEntry → Bool) → count p (sort entries) ≡ count p entries

pub less_text-irreflexive : (x : List ℕ) → less_text x x ≡ false
unfolding less_text
less_text-irreflexive [] = refl
less_text-irreflexive (c ∷ cs) = ground (arith, less_text-irreflexive cs)

-- Two texts of which neither is before the other are the same.
pub less_text-same :
    (x y : List ℕ) → less_text x y ≡ false → less_text y x ≡ false → same_text x y ≡ true
unfolding less_text same_text
less_text-same [] [] h k = refl
less_text-same [] (y ∷ ys) h k = absurd cc
less_text-same (x ∷ xs) [] h k = absurd cc
less_text-same (x ∷ xs) (y ∷ ys) h k =
    let e : x ≡ y = ground (arith, h, k) in
    ground (arith, e, less_text-same xs ys (ground (arith, e, h)) (ground (arith, e, k)))

pub same_text-eq : (x y : List ℕ) → same_text x y ≡ true → x ≡ y
unfolding same_text
same_text-eq [] [] h = refl
same_text-eq [] (y ∷ ys) h = absurd cc
same_text-eq (x ∷ xs) [] h = absurd cc
same_text-eq (x ∷ xs) (y ∷ ys) h =
    let e : x ≡ y = ground (arith, h) in
    ap (λ c. c ∷ xs) e ∙ ap (λ cs. y ∷ cs) (same_text-eq xs ys (ground (arith, h)))

pub less_text-differs : (x y : List ℕ) → less_text x y ≡ true → same_text x y ≡ false
less_text-differs x y h = elim (Bool-cases (same_text x y)) [
  | inl e ↦ absurd (
      ground
        (arith, less_text-irreflexive y, subst (λ t. less_text t y ≡ true) (same_text-eq x y e) h))
  | inr e ↦ e
]

-- A text between two others is after the first or before the second.
less_text-between :
    (x y z : List ℕ) → less_text x z ≡ true → less_text x y ≡ false → less_text y z ≡ true
unfolding less_text
less_text-between [] [] (z ∷ zs) h k = refl
less_text-between [] (y ∷ ys) (z ∷ zs) h k = absurd cc
less_text-between (x ∷ xs) [] (z ∷ zs) h k = refl
less_text-between (x ∷ xs) (y ∷ ys) (z ∷ zs) h k = ground (arith, h, k, less_text-between xs ys zs)
less_text-between [] y [] h k = absurd cc
less_text-between (x ∷ xs) y [] h k = absurd cc

less_text-asymmetric : (x y : List ℕ) → less_text x y ≡ true → less_text y x ≡ false
unfolding less_text
less_text-asymmetric [] [] h = refl
less_text-asymmetric [] (y ∷ ys) h = refl
less_text-asymmetric (x ∷ xs) [] h = absurd cc
less_text-asymmetric (x ∷ xs) (y ∷ ys) h = ground (arith, h, less_text-asymmetric xs ys)

unfoldable insert_entry : IsoEntry → List IsoEntry → List IsoEntry
insert_entry e [] = e ∷ []
insert_entry e (f ∷ fs) =
    let rest = insert_entry e fs in if less_text f.path e.path then f ∷ rest else e ∷ f ∷ fs

unfoldable pub sort_entries : List IsoEntry → List IsoEntry
unfolding insert_entry
sort_entries [] = []
sort_entries (e ∷ es) = insert_entry e (sort_entries es)

-- No entry of a list is before a path.
abbrev AllFrom : List ℕ → List IsoEntry → Type 0
AllFrom low es = All (λ (f : IsoEntry). less_text f.path low ≡ false) es

AllFrom-trans :
    (low : List ℕ) (e : IsoEntry) (es : List IsoEntry)
    → less_text e.path low ≡ false
    → AllFrom e.path es
    → AllFrom low es
AllFrom-trans low e [] h a = tt
AllFrom-trans low e (f ∷ fs) h (a, rest) =
    (ground (arith, less_text-between f.path e.path low, h, a), AllFrom-trans low e fs h rest)

AllFrom-insert_entry :
    (low : List ℕ) (e : IsoEntry) (es : List IsoEntry)
    → less_text e.path low ≡ false
    → AllFrom low es
    → AllFrom low (insert_entry e es)
unfolding insert_entry
AllFrom-insert_entry low e [] h a = (h, tt)
AllFrom-insert_entry low e (f ∷ fs) h (a, rest) = elim (Bool-cases (less_text f.path e.path)) [
  | inl k ↦ rw (k, insert_entry) (a, AllFrom-insert_entry low e fs h rest)
  | inr k ↦ rw (k, insert_entry) (h, (a, rest))
]

IsOrdered-insert_entry :
    (e : IsoEntry) (es : List IsoEntry) → IsOrdered es → IsOrdered (insert_entry e es)
unfolding insert_entry
IsOrdered-insert_entry e [] o = (tt, tt)
IsOrdered-insert_entry e (f ∷ fs) (a, o) = elim (Bool-cases (less_text f.path e.path)) [
  | inl k ↦
      let later : less_text e.path f.path ≡ false = less_text-asymmetric f.path e.path k in
      rw (k, insert_entry) (AllFrom-insert_entry f.path e fs later a, IsOrdered-insert_entry e fs o)
  | inr k ↦ rw (k, insert_entry) ((k, AllFrom-trans e.path f fs k a), (a, o))
]

count-insert_entry :
    (p : IsoEntry → Bool) (e : IsoEntry) (es : List IsoEntry)
    → count p (insert_entry e es) ≡ count p (e ∷ es)
unfolding insert_entry count
count-insert_entry p e [] = refl
count-insert_entry p e (f ∷ fs) = ground (arith, count-insert_entry p e fs)

pub sort_entries-IsOrdered : (es : List IsoEntry) → IsOrdered (sort_entries es)
unfolding sort_entries
sort_entries-IsOrdered [] = tt
sort_entries-IsOrdered (e ∷ es) =
    IsOrdered-insert_entry e (sort_entries es) (sort_entries-IsOrdered es)

pub count-sort_entries :
    (es : List IsoEntry) (p : IsoEntry → Bool) → count p (sort_entries es) ≡ count p es
unfolding sort_entries count
count-sort_entries [] p = refl
count-sort_entries (e ∷ es) p =
    count-insert_entry p e (sort_entries es) ∙ omega (arith, count-sort_entries es p)

-- A sorting function as the parameter asks for.
abbrev pub by_path : EntrySorting
by_path = record {
  sort = sort_entries;
  ordered = sort_entries-IsOrdered;
  same = count-sort_entries;
}
