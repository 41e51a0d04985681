-- ===== src/Prelude/Sorting.antt =====
-- `ORDER BY` and Go's `sort`: the rows in ascending order. Equal rows are told apart by nothing, so that
-- insertion sort gives the list that any correct sort gives.
use Prim.Native.Nat.{suc}
use mathlib.Core.Path.{◌≡◌, refl, ap, ◌∙◌}
use mathlib.Core.Logic.{inl, inr}
use mathlib.Core.Bool.{Bool, false}
use mathlib.Core.List.{List, [], ◌∷◌, ◌++◌, map}
use mathlib.Core.List.Permᴰ.{Permᴰ}
use mathlib.Core.List.Permᴰ
use native.Mathlib.Omega.{arith}
use inventory_access_poc.Prelude.Tests.{if◌then◌else◌, Bool-cases}
use inventory_access_poc.Prelude.Equality.{Eq, contains}
use inventory_access_poc.Prelude.Order.{Ord}
use inventory_access_poc.Prelude.Lists.{All, keep, length}

module _ {ℓ} {A : Type ℓ} ⦃o : Ord A⦄ where
  -- A row goes behind the rows that come before it.
  unfoldable pub insert_sorted : A → List A → List A
  insert_sorted a [] = a ∷ []
  insert_sorted a (b ∷ bs) =
      let rest = insert_sorted a bs in if o.before b a then b ∷ rest else a ∷ b ∷ bs

  unfoldable pub sort : List A → List A
  unfolding insert_sorted
  sort [] = []
  sort (a ∷ rest) = insert_sorted a (sort rest)

  -- No later row comes before an earlier one.
  abbrev pub NoneBefore : A → List A → Type 0
  NoneBefore a = All (λ b. o.before b a ≡ false)

  abbrev pub IsOrdered : List A → Type 0
  IsOrdered [] = Unit
  IsOrdered (a ∷ rest) = NoneBefore a rest × IsOrdered rest

  NoneBefore-weaken :
      (a b : A) (rest : List A) → o.before b a ≡ false → NoneBefore b rest → NoneBefore a rest
  NoneBefore-weaken a b [] h k = tt
  NoneBefore-weaken a b (c ∷ rest) h k =
      (ground (arith, o.connected a b, o.trans c a b, k.0, h), NoneBefore-weaken a b rest h k.1)

  NoneBefore-insert_sorted :
      (a b : A) (rest : List A)
      → o.before b a ≡ false
      → NoneBefore a rest
      → NoneBefore a (insert_sorted b rest)
  unfolding insert_sorted
  NoneBefore-insert_sorted a b [] h k = (h, tt)
  NoneBefore-insert_sorted a b (c ∷ rest) h k =
      ground (arith, NoneBefore-insert_sorted a b rest h k.1)

  insert_sorted-IsOrdered :
      (a : A) (rest : List A) → IsOrdered rest → IsOrdered (insert_sorted a rest)
  unfolding insert_sorted
  insert_sorted-IsOrdered a [] s = (tt, tt)
  insert_sorted-IsOrdered a (b ∷ rest) s = elim (Bool-cases (o.before b a)) [
    | inl later ↦ rw later (
      NoneBefore-insert_sorted b a rest (ground (arith, o.irrefl a, o.trans a b a)) s.0,
      insert_sorted-IsOrdered a rest s.1,
    )
    | inr here ↦ rw here ((here, NoneBefore-weaken a b rest here s.0), s)
  ]

  pub sort-IsOrdered : (l : List A) → IsOrdered (sort l)
  unfolding sort
  sort-IsOrdered [] = tt
  sort-IsOrdered (a ∷ rest) = insert_sorted-IsOrdered a (sort rest) (sort-IsOrdered rest)

  insert_sorted-perm : (a : A) (l : List A) → Permᴰ (insert_sorted a l) (a ∷ l)
  unfolding insert_sorted
  insert_sorted-perm a [] = Permᴰ.refl (a ∷ [])
  insert_sorted-perm a (b ∷ l) = elim (Bool-cases (o.before b a)) [
    | inl later ↦
        rw later (Permᴰ.trans (Permᴰ.cons refl (insert_sorted-perm a l)) (Permᴰ.swap refl refl))
    | inr here ↦ rw here (Permᴰ.refl (a ∷ b ∷ l))
  ]

  -- Sorting loses and repeats nothing.
  pub sort-perm : (l : List A) → Permᴰ (sort l) l
  unfolding sort
  sort-perm [] = Permᴰ.refl []
  sort-perm (a ∷ rest) =
      Permᴰ.trans (insert_sorted-perm a (sort rest)) (Permᴰ.cons refl (sort-perm rest))

  insert_sorted_comm :
      (a b : A) (l : List A)
      → insert_sorted a (insert_sorted b l) ≡ insert_sorted b (insert_sorted a l)
  unfolding insert_sorted
  insert_sorted_comm a b [] = ground (arith, o.connected a b, o.trans a b a, o.irrefl a)
  insert_sorted_comm a b (c ∷ l) = ground (
    arith,
    insert_sorted_comm a b l,
    o.connected a b,
    o.irrefl a,
    o.trans a b a,
    o.trans a b c,
    o.trans b a c,
    o.trans c a b,
    o.trans c b a,
    o.trans a c b,
    o.trans b c a,
  )

  -- The order of the rows that are sorted does not matter.
  pub sort-eq_of_perm : {l₁ l₂ : List A} → Permᴰ l₁ l₂ → sort l₁ ≡ sort l₂
  unfolding sort
  sort-eq_of_perm Permᴰ.nil = refl
  sort-eq_of_perm (Permᴰ.cons {a} {b} {l₁} {l₂} e d) = rw (e, sort-eq_of_perm d)
  sort-eq_of_perm (Permᴰ.swap {a} {b} {a'} {b'} {l} e f) =
      rw (e, f) (insert_sorted_comm b' a' (sort l))
  sort-eq_of_perm (Permᴰ.trans d e) = sort-eq_of_perm d ∙ sort-eq_of_perm e

  -- Sorting a part first does not matter either.
  pub sort-append-sort : (xs ys : List A) → sort (sort xs ++ ys) ≡ sort (xs ++ ys)
  sort-append-sort xs ys = sort-eq_of_perm (Permᴰ.append_right ys (sort-perm xs))

module _ {ℓ} {A : Type ℓ} where
  pub length-perm : {l₁ l₂ : List A} → Permᴰ l₁ l₂ → length l₁ ≡ length l₂
  length-perm Permᴰ.nil = refl
  length-perm (Permᴰ.cons e d) = ap suc (length-perm d)
  length-perm (Permᴰ.swap e f) = refl
  length-perm (Permᴰ.trans d e) = length-perm d ∙ length-perm e

  pub contains-perm :
      ⦃e : Eq A⦄ (x : A) {l₁ l₂ : List A} → Permᴰ l₁ l₂ → contains l₁ x ≡ contains l₂ x
  contains-perm x Permᴰ.nil = refl
  contains-perm x (Permᴰ.cons {a} {b} {l₁} {l₂} q d) = rw (q, contains-perm x d) refl
  contains-perm x (Permᴰ.swap {a} {b} {a'} {b'} {l} q r) = rw (q, r) (ground arith)
  contains-perm x (Permᴰ.trans d d') = contains-perm x d ∙ contains-perm x d'

  pub keep-perm : (p : A → Bool) {l₁ l₂ : List A} → Permᴰ l₁ l₂ → Permᴰ (keep p l₁) (keep p l₂)
  keep-perm p Permᴰ.nil = Permᴰ.nil
  keep-perm p (Permᴰ.cons {a} {b} e d) = elim (Bool-cases (p b)) [
    | inl t ↦ rw (e, t) (Permᴰ.cons refl (keep-perm p d))
    | inr t ↦ rw (e, t) (keep-perm p d)
  ]
  keep-perm p (Permᴰ.swap {a' = a} {b' = b} {l} e f) = elim (Bool-cases (p a)) [
    | inl t ↦ elim (Bool-cases (p b)) [
      | inl u ↦ rw (e, f, t, u) (Permᴰ.swap refl refl)
      | inr u ↦ rw (e, f, t, u) (Permᴰ.refl (a ∷ keep p l))
    ]
    | inr t ↦ elim (Bool-cases (p b)) [
      | inl u ↦ rw (e, f, t, u) (Permᴰ.refl (b ∷ keep p l))
      | inr u ↦ rw (e, f, t, u) (Permᴰ.refl (keep p l))
    ]
  ]
  keep-perm p (Permᴰ.trans d e) = Permᴰ.trans (keep-perm p d) (keep-perm p e)

module _ {ℓ κ} {A : Type ℓ} {B : Type κ} where
  -- Only the number of elements matters to a list of one repeated value.
  pub map_const-perm : (b : B) {l₁ l₂ : List A} → Permᴰ l₁ l₂ → map (λ _. b) l₁ ≡ map (λ _. b) l₂
  map_const-perm b Permᴰ.nil = refl
  map_const-perm b (Permᴰ.cons e d) = ap (λ l. b ∷ l) (map_const-perm b d)
  map_const-perm b (Permᴰ.swap e f) = refl
  map_const-perm b (Permᴰ.trans d e) = map_const-perm b d ∙ map_const-perm b e
