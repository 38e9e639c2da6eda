-- ===== src/CodeMap/Ranges.antt =====
-- Lists of ranges that are in order and apart, and the search for the last one that begins at or
-- before an address.
use psprism.Base.{
  ℕ, ◌≤◌, ◌<◌, ◌≡◌, refl, subst, sym, ◌∙◌, ◌⊎◌, arith, Bool, true, false, ◌&&◌, ◌||◌, ltb, leb,
}
use psprism.Base.{List, [], ◌∷◌, Option, none, some, Bool-cases, inl, inr}
use psprism.Base.Sorting.{any, count}
use psprism.CodeMap.Lookup.{last_from}

module _ {ℓ} {A : Type ℓ} (begin end : A → ℕ) where
  -- Does a range hold an address?
  abbrev pub covers : ℕ → A → Bool
  covers address r = leb (begin r) address && ltb address (end r)

  -- Ranges from a bound on, none of them reversed, each at or after the end of the one before.
  abbrev pub ApartFrom : ℕ → List A → Type 0
  ApartFrom low [] = Unit
  ApartFrom low (r ∷ rs) = (low ≤ begin r) × (begin r ≤ end r) × ApartFrom (end r) rs

  abbrev pub hits : ℕ → Option A → Bool
  hits address none = false
  hits address (some r) = covers address r

  abbrev EndsBy : ℕ → Option A → Type 0
  EndsBy low none = Unit
  EndsBy low (some r) = end r ≤ low

  count_below :
      (address low : ℕ) (rs : List A)
      → address < low
      → ApartFrom low rs
      → count (covers address) rs ≡ 0
  unfolding count
  count_below address low [] h apart = refl
  count_below address low (r ∷ rs) h apart =
      ground (arith, count_below address (end r) rs (omega arith) apart.2)

  -- Ranges that are apart hold an address at most once.
  pub count-ApartFrom :
      (address low : ℕ) (rs : List A) → ApartFrom low rs → count (covers address) rs ≤ 1
  unfolding count
  count-ApartFrom address low [] apart = omega arith
  count-ApartFrom address low (r ∷ rs) apart = elim (Bool-cases (ltb address (end r))) [
    | inl e ↦ ground (arith, count_below address (end r) rs (ground arith) apart.2)
    | inr e ↦ ground (arith, count-ApartFrom address (end r) rs apart.2)
  ]

  any_below :
      (address low : ℕ) (rs : List A)
      → address < low
      → ApartFrom low rs
      → any (covers address) rs ≡ false
  unfolding any
  any_below address low [] h apart = refl
  any_below address low (r ∷ rs) h apart =
      ground (arith, any_below address (end r) rs (omega arith) apart.2)

  hits_after :
      (address low : ℕ) (before : Option A)
      → low ≤ address
      → EndsBy low before
      → hits address before ≡ false
  hits_after address low none h ends = refl
  hits_after address low (some r) h ends = ground arith

  last_from-hits :
      (address low : ℕ) (before : Option A) (rs : List A)
      → EndsBy low before
      → ApartFrom low rs
      → hits address (last_from begin address before rs)
        ≡ (hits address before || any (covers address) rs)
  unfolding last_from any
  last_from-hits address low before [] ends apart = ground arith
  last_from-hits address low before (r ∷ rs) ends apart =
      elim (Bool-cases (ltb address (begin r))) [
        | inl e ↦ rw e (ground (arith, any_below address (end r) rs (ground arith) apart.2))
        | inr e ↦
            rw (e, hits_after address low before (ground arith) ends)
              (last_from-hits address (end r) (some r) rs (omega arith) apart.2)
      ]

  abbrev BeginsBy : ℕ → Option A → Type 0
  BeginsBy address none = Unit
  BeginsBy address (some r) = begin r ≤ address

  last_from-BeginsBy :
      (address : ℕ) (before : Option A) (rs : List A)
      → BeginsBy address before
      → BeginsBy address (last_from begin address before rs)
  unfolding last_from
  last_from-BeginsBy address before [] h = h
  last_from-BeginsBy address before (r ∷ rs) h = elim (Bool-cases (ltb address (begin r))) [
    | inl e ↦ rw e h
    | inr e ↦ rw e (last_from-BeginsBy address (some r) rs (ground arith))
  ]

  -- The range found begins at or before the address.
  pub last_from-begin :
      (address : ℕ) (rs : List A) {r : A}
      → last_from begin address none rs ≡ some r
      → begin r ≤ address
  last_from-begin address rs h = subst (BeginsBy address) h (last_from-BeginsBy address none rs tt)

  -- The range found holds the address exactly if any range does.
  pub last_from-any :
      (address low : ℕ) (rs : List A)
      → ApartFrom low rs
      → hits address (last_from begin address none rs) ≡ any (covers address) rs
  last_from-any address low rs apart = last_from-hits address low none rs tt apart

  -- The range found is in the list: what holds of it holds of some range there.
  last_from-origin :
      (address : ℕ) (p : A → Bool) (before : Option A) (rs : List A) {r : A}
      → last_from begin address before rs ≡ some r
      → p r ≡ true
      → (before ≡ some r) ⊎ (any p rs ≡ true)
  unfolding last_from any
  last_from-origin address p before [] h holds = inl h
  last_from-origin address p before (x ∷ xs) h holds = elim (Bool-cases (ltb address (begin x))) [
    | inl e ↦ inl (sym (rw (e, last_from) refl) ∙ h)
    | inr e ↦ elim (last_from-origin address p (some x) xs (rw e at h) holds) [
      | inl same ↦ inr (ground (arith, same, holds))
      | inr found ↦ inr (ground (arith, found))
    ]
  ]

  pub last_from-mem :
      (address : ℕ) (p : A → Bool) (rs : List A) {r : A}
      → last_from begin address none rs ≡ some r
      → p r ≡ true
      → any p rs ≡ true
  last_from-mem address p rs h holds = elim (last_from-origin address p none rs h holds) [
    | inl same ↦ absurd (ground (arith, same))
    | inr found ↦ found
  ]
