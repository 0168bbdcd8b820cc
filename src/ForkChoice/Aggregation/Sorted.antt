-- ===== src/ForkChoice/Aggregation/Sorted.antt =====
-- Votes sorted by their validators.
use gean.Base.{
  ℕ, suc, ◌+◌, ◌≤◌, ◌<◌, ◌≡◌, ◌≢◌, refl, ap, List, [], ◌∷◌, All, Bool, false, ◌||◌, Bool-cases, inl,
  inr, leb, ◌==◌, length, arith,
}
use gean.Types.Slot.{u64_mod}
use gean.Types.Containers.{SignedAttestation}
use gean.ForkChoice.Aggregation.{insert_by_id, sort_by_id, last_id}

-- Votes of different validators.
unfoldable pub OfDistinct : List SignedAttestation → Type 0
OfDistinct [] = Unit
OfDistinct (sa ∷ atts) =
    All (λ (x : SignedAttestation). x.validator_id ≢ sa.validator_id) atts × OfDistinct atts

-- By validator, from `lo` on, each greater than the one before.
unfoldable pub Ascending : ℕ → List SignedAttestation → Type 0
Ascending lo [] = Unit
Ascending lo (x ∷ xs) = (lo ≤ x.validator_id) × Ascending (suc x.validator_id) xs

insert_by_id-All :
    (P : SignedAttestation → Type 0) (sa : SignedAttestation) (xs : List SignedAttestation)
    → P sa
    → All P xs
    → All P (insert_by_id sa xs)
unfolding insert_by_id
insert_by_id-All P sa [] h k = (h, tt)
insert_by_id-All P sa (x ∷ xs) h k = elim (Bool-cases (leb sa.validator_id x.validator_id)) [
  | inl e ↦ rw e (h, k)
  | inr e ↦ rw e (k.0, insert_by_id-All P sa xs h k.1)
]

pub sort_by_id-All :
    (P : SignedAttestation → Type 0) (xs : List SignedAttestation)
    → All P xs
    → All P (sort_by_id xs)
unfolding sort_by_id
sort_by_id-All P [] h = tt
sort_by_id-All P (x ∷ xs) h = insert_by_id-All P x (sort_by_id xs) h.0 (sort_by_id-All P xs h.1)

insert_by_id-Ascending :
    (lo : ℕ) (sa : SignedAttestation) (xs : List SignedAttestation)
    → lo ≤ sa.validator_id
    → All (λ (x : SignedAttestation). x.validator_id ≢ sa.validator_id) xs
    → Ascending lo xs
    → Ascending lo (insert_by_id sa xs)
unfolding insert_by_id Ascending
insert_by_id-Ascending lo sa [] h other a = (h, tt)
insert_by_id-Ascending lo sa (x ∷ xs) h other a =
    let differs = other.0 in
    elim (Bool-cases (leb sa.validator_id x.validator_id)) [
      | inl e ↦ rw e (h, (ground (arith, differs), a.1))
      | inr e ↦
          rw e (a.0, insert_by_id-Ascending (suc x.validator_id) sa xs (ground arith) other.1 a.1)
    ]

pub sort_by_id-Ascending :
    (xs : List SignedAttestation) → OfDistinct xs → Ascending 0 (sort_by_id xs)
unfolding sort_by_id OfDistinct Ascending
sort_by_id-Ascending [] h = tt
sort_by_id-Ascending (x ∷ xs) h =
    insert_by_id-Ascending 0 x (sort_by_id xs) (omega arith)
      (sort_by_id-All (λ y. y.validator_id ≢ x.validator_id) xs h.0) (sort_by_id-Ascending xs h.1)

unfoldable pub has_id : ℕ → List SignedAttestation → Bool
has_id j [] = false
has_id j (x ∷ xs) = x.validator_id == j || has_id j xs

pub has_id-Ascending :
    (lo j : ℕ) (xs : List SignedAttestation) → j < lo → Ascending lo xs → has_id j xs ≡ false
unfolding has_id Ascending
has_id-Ascending lo j [] h a = refl
has_id-Ascending lo j (x ∷ xs) h a =
    let rest = has_id-Ascending (suc x.validator_id) j xs (omega (arith, a.0)) a.1 in
    let other : (x.validator_id == j) ≡ false = ground (arith, a.0) in rw (other, rest)

-- A validator whose index can be followed by another.
abbrev pub IsIndex : SignedAttestation → Type 0
IsIndex sa = sa.validator_id + 1 < u64_mod

-- The last identifier is the greatest.
pub last_id-le :
    (id : ℕ) (xs : List SignedAttestation)
    → Ascending (suc id) xs
    → (id < last_id id xs + 1)
      × All (λ (x : SignedAttestation). x.validator_id < last_id id xs + 1) xs
unfolding last_id Ascending
last_id-le id [] a = (omega arith, tt)
last_id-le id (x ∷ xs) a =
    let (top, rest) = last_id-le x.validator_id xs a.1 in (omega (arith, a.0, top), (top, rest))

pub last_id-IsIndex :
    (id : ℕ) (xs : List SignedAttestation)
    → id + 1 < u64_mod
    → All IsIndex xs
    → last_id id xs + 1 < u64_mod
unfolding last_id
last_id-IsIndex id [] h k = h
last_id-IsIndex id (x ∷ xs) h k = last_id-IsIndex x.validator_id xs k.0 k.1

length-insert_by_id :
    (sa : SignedAttestation) (xs : List SignedAttestation)
    → length (insert_by_id sa xs) ≡ suc (length xs)
unfolding insert_by_id
length-insert_by_id sa [] = refl
length-insert_by_id sa (x ∷ xs) =
    let rest = length-insert_by_id sa xs in
    elim (Bool-cases (leb sa.validator_id x.validator_id)) [
      | inl e ↦ rw e refl
      | inr e ↦ rw e (ap suc rest)
    ]

pub sort_by_id_nonempty : (xs : List SignedAttestation) → xs ≢ [] → sort_by_id xs ≢ []
unfolding sort_by_id
sort_by_id_nonempty [] h e = h refl
sort_by_id_nonempty (x ∷ xs) h e =
    absurd (omega (arith, ap length e, length-insert_by_id x (sort_by_id xs)))
