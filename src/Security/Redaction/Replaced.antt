-- ===== src/Security/Redaction/Replaced.antt =====
-- bridge_security.py: what a replacement leaves of a text.
use suno_studio.Prelude.{
  ℕ, zero, suc, ◌-◌, ◌≡◌, refl, true, false, ◌&&◌, List, [], ◌∷◌, All, ◌⊎◌, eqb, length, arith, inl,
  inr, Bool-cases,
}
use suno_studio.Security.Redaction.{starts_with, within, replace_after}

abbrev pub NoStar : List ℕ → Type 0
NoStar p = All (λ c. eqb c b'*' ≡ false) p

-- What starts with no asterisk in the text that is put in starts the key too.
masked-start :
    (p : List ℕ) (a b : ℕ) (key more text : List ℕ)
    → NoStar p
    → starts_with p (a ∷ b ∷ b'*' ∷ more) ≡ true
    → starts_with (a ∷ b ∷ key) text ≡ true
    → starts_with p text ≡ true
unfolding starts_with
masked-start [] a b key more text h e y = refl
masked-start (x ∷ p) a b key more [] h e y = absurd (cc y)
masked-start (x ∷ []) a b key more (c ∷ text) h e y = ground arith
masked-start (x ∷ z ∷ p) a b key more (c ∷ []) h e y = ground arith
masked-start (x ∷ z ∷ []) a b key more (c ∷ d ∷ text) h e y = ground arith
masked-start (x ∷ z ∷ w ∷ p) a b key more (c ∷ d ∷ text) h e y = let star = h.1.1.0 in ground arith

-- The same, one character later.
masked-second :
    (x : ℕ) (p : List ℕ) (a b : ℕ) (key more : List ℕ) (c : ℕ) (text : List ℕ)
    → NoStar (x ∷ p)
    → starts_with (x ∷ p) (b ∷ b'*' ∷ more) ≡ true
    → starts_with (a ∷ b ∷ key) (c ∷ text) ≡ true
    → starts_with (x ∷ p) text ≡ true
unfolding starts_with
masked-second x p a b key more c [] h e y = ground arith
masked-second x [] a b key more c (d ∷ text) h e y = ground arith
masked-second x (z ∷ p) a b key more c (d ∷ text) h e y = let star = h.1.0 in ground arith

within-start : (p text : List ℕ) → starts_with p text ≡ true → within p text ≡ true
unfolding within
within-start p [] h = h
within-start p (c ∷ text) h = rw h

within-later :
    (p : List ℕ) (c : ℕ) (text : List ℕ) → within p text ≡ true → within p (c ∷ text) ≡ true
unfolding within
within-later p c text h = ground arith

module _ (a b : ℕ) (key : List ℕ) where
  abbrev word : List ℕ
  word = a ∷ b ∷ key

  pub replace_after-found :
      (c : ℕ) (text : List ℕ)
      → starts_with word (c ∷ text) ≡ true
      → replace_after 0 word (c ∷ text)
        ≡ a ∷ b ∷ b'*' ∷ b'*' ∷ b'*' ∷ replace_after (length word - 1) word text
  unfolding replace_after
  replace_after-found c text h = rw h

  pub replace_after-other :
      (c : ℕ) (text : List ℕ)
      → starts_with word (c ∷ text) ≡ false
      → replace_after 0 word (c ∷ text) ≡ c ∷ replace_after 0 word text
  unfolding replace_after
  replace_after-other c text h = rw h

  -- A start of a text that was replaced in, without an asterisk, is a start of the text.
  pub starts_with-replaced :
      (p text : List ℕ)
      → NoStar p
      → starts_with p (replace_after 0 word text) ≡ true
      → starts_with p text ≡ true
  unfolding starts_with replace_after
  starts_with-replaced [] text h e = refl
  starts_with-replaced (x ∷ p) [] h e = e
  starts_with-replaced (x ∷ p) (c ∷ text) h e = elim (Bool-cases (starts_with word (c ∷ text))) [
    | inl y ↦ masked-start (x ∷ p) a b key _ (c ∷ text) h (rw (replace_after-found c text y) at e) y
    | inr n ↦
        let e2 : (eqb x c && starts_with p (replace_after 0 word text)) ≡ true =
          rw (replace_after-other c text n) at e in
        ground (arith, starts_with-replaced p text h.1)
  ]

  -- What is put in adds no occurrence of a text without an asterisk.
  within-masked :
      (x : ℕ) (p : List ℕ) (c : ℕ) (text more : List ℕ)
      → NoStar (x ∷ p)
      → starts_with word (c ∷ text) ≡ true
      → within (x ∷ p) (a ∷ b ∷ b'*' ∷ b'*' ∷ b'*' ∷ more) ≡ true
      → (within (x ∷ p) (c ∷ text) ≡ true) ⊎ (within (x ∷ p) more ≡ true)
  unfolding within
  within-masked x p c text more h y e =
      elim (Bool-cases (starts_with (x ∷ p) (a ∷ b ∷ b'*' ∷ b'*' ∷ b'*' ∷ more))) [
        | inl first ↦
            inl (
              within-start (x ∷ p) (c ∷ text) (masked-start (x ∷ p) a b key _ (c ∷ text) h first y))
        | inr not_first ↦ elim (Bool-cases (starts_with (x ∷ p) (b ∷ b'*' ∷ b'*' ∷ b'*' ∷ more))) [
          | inl second ↦ inl (
              within-later (x ∷ p) c text
                (within-start (x ∷ p) text (masked-second x p a b key _ c text h second y)))
          | inr not_second ↦
              inr (unfold starts_with in rw (h.0) at (rw (not_first, not_second) at e))
        ]
      ]

  pub within-replaced :
      (skip x : ℕ) (p text : List ℕ)
      → NoStar (x ∷ p)
      → within (x ∷ p) (replace_after skip word text) ≡ true
      → within (x ∷ p) text ≡ true
  unfolding within replace_after
  within-replaced skip x p [] h e = e
  within-replaced (suc skip) x p (c ∷ text) h e =
      within-later (x ∷ p) c text (within-replaced skip x p text h e)
  within-replaced zero x p (c ∷ text) h e = elim (Bool-cases (starts_with word (c ∷ text))) [
    | inl y ↦ elim (within-masked x p c text _ h y (rw (replace_after-found c text y) at e)) [
      | inl here ↦ here
      | inr later ↦ within-later (x ∷ p) c text (within-replaced (length word - 1) x p text h later)
    ]
    | inr n ↦ elim (Bool-cases (starts_with (x ∷ p) (c ∷ replace_after 0 word text))) [
      | inl first ↦
          within-start (x ∷ p) (c ∷ text)
            (starts_with-replaced (x ∷ p) (c ∷ text) h (rw (replace_after-other c text n) first))
      | inr not_first ↦
          within-later (x ∷ p) c text (
            within-replaced 0 x p text h (rw not_first at (rw (replace_after-other c text n) at e)))
    ]
  ]
