-- ===== src/Config/Validation/Laws.antt =====
-- What a configuration that passes its validation is.
use hyperswitch_card_vault.Common.{
  ◌≡◌, ◌≢◌, ◌↔◌, refl, subst, inl, inr, Bool, true, false, Bool-cases, List, [], ◌∷◌, map, Text,
  same_text, same_text_refl, same_text_other, ok, err, if◌then◌else◌, All, arith,
}
use hyperswitch_card_vault.Error.Configuration.{ConfigurationError}
use hyperswitch_card_vault.Config.{TenantSecrets}
use hyperswitch_card_vault.Config.Validation.{Verdict, is_empty, contains, check_prefixes}

-- No two texts of a list are the same.
abbrev pub Distinct : List Text → Type 0
Distinct [] = Unit
Distinct (p ∷ ps) = All (λ q. p ≢ q) ps × Distinct ps

-- None of `ps` is one of `seen`.
abbrev Apart : List Text → List Text → Type 0
Apart seen ps = All (λ q. All (λ p. p ≢ q) seen) ps

contains→All : (q : Text) (ps : List Text) → contains q ps ≡ false → All (λ p. p ≢ q) ps
unfolding contains
contains→All q [] h = tt
contains→All q (p ∷ ps) h = elim (Bool-cases (same_text p q)) [
  | inl same ↦ absurd ground (arith, same)
  | inr other ↦ (
    λ e. absurd ground (arith, other, subst (λ t. same_text p t ≡ true) e (same_text_refl p)),
    contains→All q ps (ground (arith, other, h)),
  )
]

All→contains : (q : Text) (ps : List Text) → All (λ p. p ≢ q) ps → contains q ps ≡ false
unfolding contains
All→contains q [] h = refl
All→contains q (p ∷ ps) (ne, h) = simp (same_text_other p q ne, All→contains q ps h)

pub nonempty→ : (t : Text) → is_empty t ≡ false → t ≢ []
nonempty→ [] h e = absurd cc
nonempty→ (c ∷ cs) h e = absurd cc

pub nonempty← : (t : Text) → t ≢ [] → is_empty t ≡ false
nonempty← [] ne = absurd (ne refl)
nonempty← (c ∷ cs) ne = refl

-- Two tests before the rest.
tests→ :
    (a b : Bool) (e f : ConfigurationError) (rest : Verdict)
    → (if a then err e else if b then err f else rest) ≡ ok tt
    → (a ≡ false) × (b ≡ false) × (rest ≡ ok tt)
tests→ true b e f rest h = absurd cc
tests→ false true e f rest h = absurd cc
tests→ false false e f rest h = (refl, refl, h)

Apart-cons :
    (p : Text) (seen ps : List Text) → Apart (p ∷ seen) ps ↔ (All (λ q. p ≢ q) ps × Apart seen ps)
Apart-cons p seen [] = (λ h. (tt, tt), λ h. tt)
Apart-cons p seen (q ∷ qs) =
    let ih = Apart-cons p seen qs in
    (
      λ h. let r = ih.0 h.1 in ((h.0.0, r.0), (h.0.1, r.1)),
      λ h. ((h.0.0, h.1.0), ih.1 (h.0.1, h.1.1)),
    )

pub Apart-nil : (ps : List Text) → Apart [] ps
Apart-nil [] = tt
Apart-nil (p ∷ ps) = (tt, Apart-nil ps)

module _ (trim : Text → Text) where
  -- The prefixes as they are used.
  abbrev pub prefixes : List (Text × TenantSecrets) → List Text
  prefixes tenants = map (λ tenant. trim tenant.1.redis_key_prefix) tenants

  pub check→ :
      (seen : List Text) (tenants : List (Text × TenantSecrets))
      → check_prefixes trim seen tenants ≡ ok tt
      → let ps = prefixes tenants in All (λ p. p ≢ []) ps × Apart seen ps × Distinct ps
  unfolding check_prefixes
  check→ seen [] h = (tt, tt, tt)
  check→ seen ((tenant_id, secrets) ∷ tenants) h =
      let prefix = trim secrets.redis_key_prefix in
      let (full, fresh, rest) = tests→ (is_empty prefix) (contains prefix seen) _ _ _ h in
      let (all_full, apart, distinct) = check→ (prefix ∷ seen) tenants rest in
      let (others, apart') = (Apart-cons prefix seen (prefixes tenants)).0 apart in
      (
        (nonempty→ prefix full, all_full),
        (contains→All prefix seen fresh, apart'),
        (others, distinct),
      )

  pub check← :
      (seen : List Text) (tenants : List (Text × TenantSecrets))
      → let ps = prefixes tenants in
        All (λ p. p ≢ []) ps
        → Apart seen ps
        → Distinct ps
        → check_prefixes trim seen tenants ≡ ok tt
  unfolding check_prefixes
  check← seen [] h k d = refl
  check← seen ((tenant_id, secrets) ∷ tenants) (ne, h) (new, k) (others, d) = simp (
    nonempty← (trim secrets.redis_key_prefix) ne,
    All→contains (trim secrets.redis_key_prefix) seen new,
    check← (trim secrets.redis_key_prefix ∷ seen) tenants h
        ((Apart-cons (trim secrets.redis_key_prefix) seen (prefixes tenants)).1 (others, k)) d,
  )
