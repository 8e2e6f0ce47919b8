-- ===== src/Pi/Scope.antt =====
-- When the colonies can be read, `_get_colonies_or_none` of routes/pi.py.
use eve_build.Prelude.{
  ◌≡◌, ◌⊎◌, ◌↔◌, refl, ap, String, Bool, true, false, Option, none, some, List, nat_eq, ◌==◌,
  contains, arith, Bool-cases, if◌then◌else◌, inl, inr, string_eq,
}
use eve_build.Prelude.Exc.{
  Exc, http_status, value_error, key_error, type_error, zero_division, overflow_error,
  recursion_error, http_error, duplicate_key, lock_timeout, redis_error, Result, ok, err,
}
use eve_build.Pi.{pi_scope, on_error, get_colonies_or_none}

-- ESI refused the token.
abbrev pub IsRefused : Exc → Type 0
IsRefused exc = (exc ≡ http_status 401) ⊎ (exc ≡ http_status 403)

module _ {ℓ} {Colonies : Type ℓ} where
  on_error-none : (exc : Exc) → on_error {Colonies = Colonies} exc ≡ ok none → IsRefused exc
  on_error-none (http_status code) h = elim (Bool-cases (code == 401)) [
    | inl first ↦ inl (ap (λ c. http_status c) (ground (arith, first)))
    | inr other ↦ inr (ap (λ c. http_status c) (ground (arith, other, h)))
  ]
  on_error-none (value_error message) h = absurd (ground (arith, h))
  on_error-none key_error h = absurd (ground (arith, h))
  on_error-none type_error h = absurd (ground (arith, h))
  on_error-none zero_division h = absurd (ground (arith, h))
  on_error-none overflow_error h = absurd (ground (arith, h))
  on_error-none recursion_error h = absurd (ground (arith, h))
  on_error-none http_error h = absurd (ground (arith, h))
  on_error-none duplicate_key h = absurd (ground (arith, h))
  on_error-none lock_timeout h = absurd (ground (arith, h))
  on_error-none redis_error h = absurd (ground (arith, h))

  on_error-some : (exc : Exc) (colonies : Colonies) → on_error exc ≡ ok (some colonies) → ⊥
  on_error-some (http_status code) colonies h = ground (arith, h)
  on_error-some (value_error message) colonies h = ground (arith, h)
  on_error-some key_error colonies h = ground (arith, h)
  on_error-some type_error colonies h = ground (arith, h)
  on_error-some zero_division colonies h = ground (arith, h)
  on_error-some overflow_error colonies h = ground (arith, h)
  on_error-some recursion_error colonies h = ground (arith, h)
  on_error-some http_error colonies h = ground (arith, h)
  on_error-some duplicate_key colonies h = ground (arith, h)
  on_error-some lock_timeout colonies h = ground (arith, h)
  on_error-some redis_error colonies h = ground (arith, h)

  on_error-err : (exc raised : Exc) → on_error {Colonies = Colonies} exc ≡ err raised → exc ≡ raised
  on_error-err (http_status code) raised h = ground (arith, h)
  on_error-err (value_error message) raised h = ground (arith, h)
  on_error-err key_error raised h = ground (arith, h)
  on_error-err type_error raised h = ground (arith, h)
  on_error-err zero_division raised h = ground (arith, h)
  on_error-err overflow_error raised h = ground (arith, h)
  on_error-err recursion_error raised h = ground (arith, h)
  on_error-err http_error raised h = ground (arith, h)
  on_error-err duplicate_key raised h = ground (arith, h)
  on_error-err lock_timeout raised h = ground (arith, h)
  on_error-err redis_error raised h = ground (arith, h)

  on_error-refused : (exc : Exc) → IsRefused exc → on_error {Colonies = Colonies} exc ≡ ok none
  on_error-refused exc (inl first) = rw first refl
  on_error-refused exc (inr second) = rw second refl

  -- The answer, from whether the scope is there.
  abbrev Answers : Bool → Result Colonies → Bool × Result (Option Colonies) → Type ℓ
  Answers scoped fetched (asked, answer) =
      (asked ≡ scoped)
      × ((answer ≡ ok none ↔ (scoped ≡ false) ⊎ ((exc : Exc) × (fetched ≡ err exc) × IsRefused exc))
          × (((colonies : Colonies)
                → answer ≡ ok (some colonies)
                → (scoped ≡ true) × (fetched ≡ ok colonies))
              × ((raised : Exc) → answer ≡ err raised → (scoped ≡ true) × (fetched ≡ err raised))))

  Answers-of :
      (scoped : Bool) (fetched : Result Colonies)
      → Answers scoped fetched (
          if scoped
          then (true, elim fetched [ ok colonies ↦ ok (some colonies) | err exc ↦ on_error exc ])
          else (false, ok none))
  Answers-of false fetched = (
    refl,
    (
      ((λ h. inl refl), (λ h. refl)),
      ((λ colonies h. absurd (ground (arith, h))), (λ raised h. absurd (ground (arith, h)))),
    ),
  )
  Answers-of true (ok colonies) = (
    refl,
    (
      ((λ h. absurd (ground (arith, h))), (λ h. absurd (ground (arith, h)))),
      ((λ c h. (refl, ground (arith, h))), (λ raised h. absurd (ground (arith, h)))),
    ),
  )
  Answers-of true (err exc) = (
    refl,
    (
      (
        (λ h. inr (exc, refl, on_error-none exc h)),
        (λ h. elim h [
          | inl f ↦ absurd (ground (arith, f))
          | inr (e, same, refused) ↦
              let s : exc ≡ e = ground (arith, same) in rw s (on_error-refused e refused)
        ]),
      ),
      (
        (λ c h. absurd (on_error-some exc c h)),
        (λ raised h. (refl, ap (λ e. err e) (on_error-err exc raised h))),
      ),
    ),
  )

  -- ESI is asked only with the scope. The notice is shown exactly without the scope or where ESI
  -- refuses the token; colonies are shown only as ESI gives them, and every other failure is raised.
  pub get_colonies_or_none_cases :
      (scopes : List String) (fetched : Result Colonies)
      → ((get_colonies_or_none scopes fetched).0 ≡ contains pi_scope scopes)
        × (((get_colonies_or_none scopes fetched).1 ≡ ok none
              ↔ (contains pi_scope scopes ≡ false)
                ⊎ ((exc : Exc) × (fetched ≡ err exc) × IsRefused exc))
            × (((colonies : Colonies)
                  → (get_colonies_or_none scopes fetched).1 ≡ ok (some colonies)
                  → (contains pi_scope scopes ≡ true) × (fetched ≡ ok colonies))
                × ((raised : Exc)
                    → (get_colonies_or_none scopes fetched).1 ≡ err raised
                    → (contains pi_scope scopes ≡ true) × (fetched ≡ err raised))))
  unfolding get_colonies_or_none
  get_colonies_or_none_cases scopes fetched = Answers-of (contains pi_scope scopes) fetched
