-- ===== src/Identity/Parsing.antt =====
-- The header `user;account`: what is read back from it, and what a found identity says of it.
use inventory_access_poc.Prelude.{
  ℕ, ◌≡◌, ◌≢◌, refl, ap, ◌∙◌, subst, inl, inr, true, false, some, List, [], ◌∷◌, ◌++◌, All, ◌==◌,
  nat_eq, arith, Option-cases,
}
use inventory_access_poc.Prelude.Int.{ℤ}
use inventory_access_poc.Prelude.Bytes.{Text}
use inventory_access_poc.Prelude.Decimal.{parse_int, format_int}
use inventory_access_poc.Prelude.Decimal.RoundTrip.{
  FitsInt64, IsNumeral, parse_int-format_int, format_int-IsNumeral,
}
use inventory_access_poc.Identity.{
  Identity, no_identity, extend, split, of_parsed, of_parts, identity_of,
}

-- No part of a text is cut at a byte that does not occur in it.
abbrev pub Lacks : ℕ → Text → Type 0
Lacks sep = All (λ c. c ≢ sep)

split_one : (sep : ℕ) (s : Text) → Lacks sep s → split sep s ≡ s ∷ []
unfolding split
split_one sep [] h = refl
split_one sep (c ∷ s) h = ground (arith, split_one sep s h.1)

split_two :
    (sep : ℕ) (s r : Text) → Lacks sep s → Lacks sep r → split sep (s ++ (sep ∷ r)) ≡ s ∷ r ∷ []
unfolding split
split_two sep [] r h k = ground (arith, split_one sep r k)
split_two sep (c ∷ s) r h k = ground (arith, split_two sep s r h.1 k)

numeral-Lacks : (s : Text) → All IsNumeral s → Lacks b';' s
numeral-Lacks [] h = tt
numeral-Lacks (c ∷ s) h = ((λ e. omega arith), numeral-Lacks s h.1)

-- A user name with no semicolon and an account of 64 bits, written as `user;account`, are read back
-- as they were.
pub identity_of-format :
    (user : Text) (account : ℤ)
    → Lacks b';' user
    → FitsInt64 account
    → identity_of (user ++ (b';' ∷ format_int account))
      ≡ record { user = user; rh_account = account; found = true }
unfolding identity_of of_parts of_parsed
identity_of-format user account h fits = rw (
  split_two b';' user (format_int account) h
      (numeral-Lacks (format_int account) (format_int-IsNumeral account)),
  parse_int-format_int account fits,
)

join_parts : ℕ → List Text → Text
join_parts sep [] = []
join_parts sep (p ∷ []) = p
join_parts sep (p ∷ q ∷ ps) = p ++ (sep ∷ join_parts sep (q ∷ ps))

join_parts-extend :
    (sep c : ℕ) (parts : List Text) → join_parts sep (extend c parts) ≡ c ∷ join_parts sep parts
unfolding join_parts
join_parts-extend sep c [] = refl
join_parts-extend sep c (p ∷ []) = refl
join_parts-extend sep c (p ∷ q ∷ ps) = refl

split-ne-nil : (sep : ℕ) (s : Text) → (p : Text) × (ps : List Text) × (split sep s ≡ p ∷ ps)
unfolding split
split-ne-nil sep [] = ([], [], refl)
split-ne-nil sep (c ∷ s) =
    let (p, ps, e) = split-ne-nil sep s in
    elim (nat_eq.dec c sep) [
      | yes q ↦ ([], split sep s, ground arith)
      | no q ↦ (c ∷ p, ps, rw e (ground arith))
    ]

-- To join the parts again gives the text that was cut.
join_parts-split : (sep : ℕ) (s : Text) → join_parts sep (split sep s) ≡ s
unfolding split join_parts
join_parts-split sep [] = refl
join_parts-split sep (c ∷ s) =
    let (p, ps, e) = split-ne-nil sep s in
    elim (nat_eq.dec c sep) [
      | yes q ↦ rw e (ground (arith, rw e at (join_parts-split sep s)))
      | no q ↦
          let differs : (c == sep) ≡ false = ground arith in
          rw differs
            (join_parts-extend sep c (split sep s) ∙ ap (λ r. c ∷ r) (join_parts-split sep s))
    ]

-- What an identity says of the text that it was read from.
abbrev pub Describes : Text → Identity → Type 0
Describes s i =
    (i.found ≡ true
      → (account : Text) × (s ≡ i.user ++ (b';' ∷ account))
        × (parse_int account ≡ some i.rh_account))
    × (i.found ≡ false → i ≡ no_identity)

of_parts-Describes : (ps : List Text) → Describes (join_parts b';' ps) (of_parts ps)
unfolding of_parts of_parsed join_parts
of_parts-Describes [] = (λ p. cc, λ p. refl)
of_parts-Describes (u ∷ []) = (λ p. cc, λ p. refl)
of_parts-Describes (u ∷ a ∷ []) = elim (Option-cases (parse_int a)) [
  | inl bad ↦ rw (bad, of_parsed) (λ p. cc, λ p. refl)
  | inr (n, e) ↦ rw (e, of_parsed) (λ p. (a, refl, e), λ p. cc)
]
of_parts-Describes (u ∷ a ∷ b ∷ ps) = (λ p. cc, λ p. refl)

-- An identity that is found was read from `user;account`, where the text behind the semicolon is the
-- decimal number of the account; from any other text the empty user and account 0 are returned.
pub identity_of-Describes : (s : Text) → Describes s (identity_of s)
unfolding identity_of
identity_of-Describes s =
    subst (λ r. Describes r (of_parts (split b';' s))) (join_parts-split b';' s)
      (of_parts-Describes (split b';' s))
