-- ===== src/Iso/Records.antt =====
-- The loop over the records of a directory ends, and visiting a directory leaves fewer to visit.
use psprism.Base.Outcomes.{done, throws, endless, wild, ◌>>=◌}
use psprism.Base.{
  ℕ, zero, suc, ◌+◌, ◌*◌, ◌/◌, ◌≤◌, ◌<◌, ◌≡◌, ◌≢◌, refl, sym, subst, arith, Bool, true, false,
}
use psprism.Base.{ltb, ◌==◌, ◌||◌, if◌then◌else◌, List, [], ◌∷◌, length, drop, Bool-cases, inl, inr}
use psprism.Base.Sets.{insert, has, has-insert}
use psprism.Elf.Bytes.{byte_at}
use psprism.Iso.Types.{Run, invalid_directory_record}
use psprism.Iso.Names.{metadata_u32, record_name, read_range}
use psprism.Iso.Directory.{Found, named_record, read_record, records_from, sector_size}

-- The numbers below a bound that a set lacks.
abbrev pub unvisited : ℕ → List ℕ → ℕ
unvisited zero visited = 0
unvisited (suc bound) visited = (if has bound visited then 0 else 1) + unvisited bound visited

unvisited-insert_le :
    (bound key : ℕ) (visited : List ℕ)
    → unvisited bound (insert key visited) ≤ unvisited bound visited
unvisited-insert_le zero key visited = omega arith
unvisited-insert_le (suc bound) key visited =
    ground (arith, has-insert bound key visited, unvisited-insert_le bound key visited)

pub unvisited-insert :
    (bound key : ℕ) (visited : List ℕ)
    → key < bound
    → has key visited ≡ false
    → unvisited bound (insert key visited) < unvisited bound visited
unvisited-insert zero key visited h e = absurd (omega arith)
unvisited-insert (suc bound) key visited h e = elim (Bool-cases (bound == key)) [
  | inl f ↦
      let same : bound ≡ key = ground (arith, f) in
      subst (λ k. unvisited (suc bound) (insert k visited) < unvisited (suc bound) visited) same
        (ground (
          arith,
          has-insert bound bound visited,
          unvisited-insert_le bound bound visited,
          subst (λ k. has k visited ≡ false) (sym same) e,
        ))
  | inr f ↦ ground (
    arith,
    f,
    has-insert bound key visited,
    unvisited-insert bound key visited (ground (arith, f, h)) e,
  )
]

abbrev pub Ended {ℓ} : {A : Type ℓ} → Run A → Type ℓ
Ended r = (r ≢ endless) × (r ≢ wild)

pub bind-Ended {ℓ κ} :
    {A : Type ℓ} {B : Type κ} (r : Run A) (f : A → Run B)
    → Ended r
    → ((a : A) → r ≡ done a → Ended (f a))
    → Ended (r >>= f)
bind-Ended (done a) f h g = g a refl
bind-Ended (throws e) f h g = (λ q. cc, λ q. cc)
bind-Ended endless f h g = absurd (h.0 refl)
bind-Ended wild f h g = absurd (h.1 refl)

pub metadata_u32-Ended : (bytes : List ℕ) (offset : ℕ) → Ended (metadata_u32 bytes offset)
unfolding metadata_u32
metadata_u32-Ended bytes offset = ground arith

record_name-Ended : (bytes : List ℕ) (size : ℕ) → Ended (record_name bytes size)
unfolding record_name
record_name-Ended bytes size = ground arith

pub read_range-Ended : (file : List ℕ) (offset size : ℕ) → Ended (read_range file offset size)
unfolding read_range
read_range-Ended file offset size = ground arith

-- A range that is read lies inside the file.
pub read_range-inside :
    (file : List ℕ) (offset size : ℕ) {bytes : List ℕ}
    → read_range file offset size ≡ done bytes
    → offset + size ≤ length file
unfolding read_range
read_range-inside file offset size h = ground (arith, h)

named_record-Ended :
    (directory bytes : List ℕ) (cursor : ℕ) (found : Found) (name : List ℕ)
    → Ended (named_record directory bytes cursor found name)
unfolding named_record
named_record-Ended directory bytes cursor found [] = (λ q. cc, λ q. cc)
named_record-Ended directory bytes cursor found (c ∷ cs) =
    bind-Ended (metadata_u32 bytes (cursor + 2)) _ (metadata_u32-Ended bytes (cursor + 2))
      (λ extent e.
        bind-Ended (metadata_u32 bytes (cursor + 10)) _ (metadata_u32-Ended bytes (cursor + 10))
          (λ size f. (λ q. cc, λ q. cc)))

read_record-Ended :
    (directory bytes : List ℕ) (cursor : ℕ) (found : Found)
    → Ended (read_record directory bytes cursor found)
unfolding read_record
read_record-Ended directory bytes cursor found =
    bind-Ended (record_name (drop cursor bytes) (byte_at bytes cursor))
      (named_record directory bytes cursor found)
      (record_name-Ended (drop cursor bytes) (byte_at bytes cursor))
      (λ name e. named_record-Ended directory bytes cursor found name)

pub if-Ended {ℓ} :
    {A : Type ℓ} (b : Bool) (x y : Run A)
    → Ended x
    → (b ≡ false → Ended y)
    → Ended (if b then x else y)
if-Ended true x y h k = h
if-Ended false x y h k = k refl

pub records_from-Ended :
    (fuel : ℕ) (directory bytes : List ℕ) (cursor : ℕ) (found : Found)
    → length bytes ≤ cursor + fuel
    → Ended (records_from fuel directory bytes cursor found)
unfolding records_from
records_from-Ended zero directory bytes cursor found h =
    let e : ltb cursor (length bytes) ≡ false = ground (arith, h) in rw e (λ q. cc, λ q. cc)
records_from-Ended (suc fuel) directory bytes cursor found h =
    let size = byte_at bytes cursor in
    elim (Bool-cases (ltb cursor (length bytes))) [
      | inr e ↦ rw (e, records_from) (λ q. cc, λ q. cc)
      | inl e ↦ elim (Bool-cases (size == 0)) [
        | inl f ↦
            rw (e, f, records_from)
              (records_from-Ended fuel directory bytes ((cursor / sector_size + 1) * sector_size)
                found (omega (arith, h)))
        | inr f ↦
            let nonzero : 1 ≤ size = ground (arith, f) in
            rw (e, f, records_from)
              (if-Ended (ltb (length bytes) (cursor + size) || ltb size 34)
                (throws invalid_directory_record)
                (read_record directory bytes cursor found
                  >>= records_from fuel directory bytes (cursor + size))
                (λ q. cc, λ q. cc)
                (λ g.
                  bind-Ended (read_record directory bytes cursor found)
                    (records_from fuel directory bytes (cursor + size))
                    (read_record-Ended directory bytes cursor found)
                    (λ found' r.
                      records_from-Ended fuel directory bytes (cursor + size) found'
                        (omega (arith, h, nonzero)))))
      ]
    ]
