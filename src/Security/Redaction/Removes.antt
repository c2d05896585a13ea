-- ===== src/Security/Redaction/Removes.antt =====
-- bridge_security.py: no key is left in a text that was redacted.
use mathlib.Core.Logic.Or
use mathlib.Core.List.{Mem, Perm, mem-cons, mem-cons_self, mem-cons_of_mem, not-mem-nil}
use mathlib.Core.List.Perm
use suno_studio.Prelude.{
  ℕ, zero, suc, ◌-◌, ◌≡◌, refl, ap, ◌∙◌, Bool, true, false, not, ◌&&◌, List, [], ◌∷◌, any, All, eqb,
  length, arith, inl, inr, Bool-cases,
}
use suno_studio.Security.Redaction.Replaced.{
  NoStar, replace_after-found, replace_after-other, starts_with-replaced, within-replaced,
}
use suno_studio.Security.Redaction.{
  redact_keys, starts_with, within, replace_after, replace_each, redact_text,
}

-- A key that is longer than what is kept of it, without an asterisk.
data IsKey : List ℕ → Type 0 where
  long : (a b c : ℕ) (key : List ℕ) → NoStar (a ∷ b ∷ c ∷ key) → IsKey (a ∷ b ∷ c ∷ key)

module _ (a b c : ℕ) (key : List ℕ) (h : NoStar (a ∷ b ∷ c ∷ key)) where
  abbrev whole : List ℕ
  whole = a ∷ b ∷ c ∷ key

  -- The key itself is not in what is put in.
  within-masked_self :
      (more : List ℕ) → within whole (a ∷ b ∷ b'*' ∷ b'*' ∷ b'*' ∷ more) ≡ within whole more
  unfolding within starts_with
  within-masked_self more =
      let (first, (second, (third, rest))) = h in rw (first, second, third) (ground arith)

  within_self : (skip : ℕ) (text : List ℕ) → within whole (replace_after skip whole text) ≡ false
  unfolding within replace_after starts_with
  within_self skip [] = refl
  within_self (suc skip) (d ∷ text) = within_self skip text
  within_self zero (d ∷ text) = elim (Bool-cases (starts_with whole (d ∷ text))) [
    | inl y ↦
        ap (within whole) (replace_after-found a b (c ∷ key) d text y)
        ∙ within-masked_self _
        ∙ within_self (length whole - 1) text
    | inr n ↦ elim (Bool-cases (starts_with whole (d ∷ replace_after 0 whole text))) [
      | inl first ↦ absurd (
          cc (
            starts_with-replaced a b (c ∷ key) whole (d ∷ text) h
                (rw (replace_after-other a b (c ∷ key) d text n) first),
            n,
          ))
      | inr not_first ↦
          ap (within whole) (replace_after-other a b (c ∷ key) d text n)
          ∙ rw not_first (within_self 0 text)
    ]
  ]

-- A key that is not in a text is not in the text that is redacted further.
within-replace_after :
    (p key text : List ℕ)
    → IsKey p
    → IsKey key
    → within p text ≡ false
    → within p (replace_after 0 key text) ≡ false
within-replace_after p key text (long x y z q is) (long a b c r h) gone =
    elim (Bool-cases (within (x ∷ y ∷ z ∷ q) (replace_after 0 (a ∷ b ∷ c ∷ r) text))) [
      | inl found ↦ absurd (cc (within-replaced a b (c ∷ r) 0 x (y ∷ z ∷ q) text is found, gone))
      | inr n ↦ n
    ]

within-own : (key text : List ℕ) → IsKey key → within key (replace_after 0 key text) ≡ false
within-own key text (long a b c r h) = within_self a b c r h 0 text

within-replace_each :
    (p : List ℕ) (keys : List (List ℕ)) (text : List ℕ)
    → IsKey p
    → All IsKey keys
    → within p text ≡ false
    → within p (replace_each keys text) ≡ false
unfolding replace_each
within-replace_each p [] text is all h = h
within-replace_each p (key ∷ keys) text is (now, all) h =
    within-replace_each p keys (replace_after 0 key text) is all
      (within-replace_after p key text is now h)

replace_each-removes :
    (keys : List (List ℕ)) (text : List ℕ)
    → All IsKey keys
    → All (λ k. within k (replace_each keys text) ≡ false) keys
unfolding replace_each
replace_each-removes [] text h = tt
replace_each-removes (key ∷ keys) text (now, all) = (
  within-replace_each key keys (replace_after 0 key text) now all (within-own key text now),
  replace_each-removes keys (replace_after 0 key text) all,
)

abbrev pub IsAbsent : List ℕ → List ℕ → Type 0
IsAbsent text key = within key text ≡ false

-- `str.lower` leaves the keys, which are in lower case, where they are.
abbrev KeepsKeys : (List ℕ → List ℕ) → List (List ℕ) → List ℕ → Type 0
KeepsKeys lower keys text = All (λ k. IsAbsent (lower text) k → IsAbsent text k) keys

none_within :
    (keys : List (List ℕ)) (lower : List ℕ → List ℕ) (text : List ℕ)
    → KeepsKeys lower keys text
    → any (λ k. within k (lower text)) keys ≡ false
    → All (λ k. within k text ≡ false) keys
none_within [] lower text keeps h = tt
none_within (key ∷ keys) lower text (now, keeps) h = elim (Bool-cases (within key (lower text))) [
  | inl y ↦ absurd (cc (rw y at h))
  | inr n ↦ (now n, none_within keys lower text keeps (rw n at h))
]

redact_text-removes :
    (lower : List ℕ → List ℕ) (keys : List (List ℕ)) (text : List ℕ)
    → All IsKey keys
    → KeepsKeys lower keys text
    → All (IsAbsent (redact_text lower keys text)) keys
unfolding redact_text
redact_text-removes lower keys text h keeps =
    elim (Bool-cases (any (λ k. within k (lower text)) keys)) [
      | inl y ↦ rw y (replace_each-removes keys text h)
      | inr n ↦ rw n (none_within keys lower text keeps n)
    ]

no_star : List ℕ → Bool
no_star [] = true
no_star (c ∷ key) = not (eqb c b'*') && no_star key

is_key : List ℕ → Bool
unfolding no_star
is_key (a ∷ b ∷ c ∷ key) = no_star (a ∷ b ∷ c ∷ key)
is_key _ = false

no_star-NoStar : (key : List ℕ) → no_star key ≡ true → NoStar key
unfolding no_star
no_star-NoStar [] h = tt
no_star-NoStar (c ∷ key) h = (ground arith, no_star-NoStar key (ground arith))

is_key-IsKey : (key : List ℕ) → is_key key ≡ true → IsKey key
unfolding is_key
is_key-IsKey [] h = absurd (cc h)
is_key-IsKey (a ∷ []) h = absurd (cc h)
is_key-IsKey (a ∷ b ∷ []) h = absurd (cc h)
is_key-IsKey (a ∷ b ∷ c ∷ key) h = long a b c key (no_star-NoStar (a ∷ b ∷ c ∷ key) h)

bool_prop : (a b : Bool) → IsProp (a ≡ b)
bool_prop a b = hlevel

All-of_members :
    {Q : List ℕ → Type 0} (keys : List (List ℕ)) → ((k : List ℕ) → Mem k keys → Q k) → All Q keys
All-of_members [] h = tt
All-of_members (k ∷ keys) h =
    (h k mem-cons_self, All-of_members keys (λ j m. h j (mem-cons_of_mem k m)))

member_of_All :
    (f : List ℕ → Bool) (b : Bool) (keys : List (List ℕ))
    → All (λ k. f k ≡ b) keys
    → (k : List ℕ) → Mem k keys
    → f k ≡ b
member_of_All f b [] h k m = absurd (not-mem-nil m)
member_of_All f b (j ∷ keys) h k m =
    Or.elim (bool_prop (f k) b) (mem-cons.0 m) (λ e. ap f e ∙ h.0) (member_of_All f b keys h.1 k)

-- In whatever order the set of the keys is gone through: if `str.lower` does not hide a key that is in
-- the text, then no key of REDACT_KEYS is in the redacted text.
pub redact_text-removes_keys :
    (lower : List ℕ → List ℕ) (order : List (List ℕ)) (text : List ℕ)
    → Perm order redact_keys
    → ((k : List ℕ) → Mem k redact_keys → IsAbsent (lower text) k → IsAbsent text k)
    → (k : List ℕ) → Mem k redact_keys
    → IsAbsent (redact_text lower order text) k
redact_text-removes_keys lower order text same keeps k m =
    let known : All (λ k. is_key k ≡ true) redact_keys =
      unfold is_key no_star in (refl, (refl, (refl, (refl, (refl, (refl, (refl, (refl, tt)))))))) in
    member_of_All (λ k. within k (redact_text lower order text)) false order
      (redact_text-removes lower order text
        (All-of_members order (λ j n.
          is_key-IsKey j (member_of_All is_key true redact_keys known j (Perm.subset same j n))))
        (All-of_members order (λ j n. keeps j (Perm.subset same j n))))
      k (Perm.subset (Perm.symm same) k m)
