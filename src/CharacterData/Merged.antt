-- ===== src/CharacterData/Merged.antt =====
-- What the merged lists of services/character_data.py hold.
use eve_build.Prelude.{
  ℕ, ◌≡◌, ◌⊎◌, refl, sym, ap, Bool, true, false, Option, none, some, List, ◌++◌, ◌==◌, nat_eq,
  arith, Bool-cases, Option-cases, inl, inr,
}
use eve_build.Prelude.Exc.{
  Exc, http_status, value_error, key_error, type_error, zero_division, overflow_error,
  recursion_error, http_error, duplicate_key, lock_timeout, redis_error, Result, ok, err,
  Result-cases, ok-injective,
}
use eve_build.External.Json.{Builtins, Value}
use eve_build.External.Redis.{Redis}
use eve_build.External.Rows.{Rows}
use eve_build.Esi.Entries.{Entry}
use eve_build.Tokens.{CharacterDocument}
use eve_build.CharacterData.{
  Source, Data, read_source, or_forbidden, corp_list_or_none, connected_corporation, merge_with,
  merge_corp, get_merged,
}

abbrev pub IsForbidden : Exc → Type 0
IsForbidden exc = (exc ≡ http_status 401) ⊎ (exc ≡ http_status 403)

module _ (python : Builtins) (collection : Rows (Value python))
    (redis : Redis (List (Value python))) where
  abbrev pub Entries : Type 0
  Entries = List (Entry python)

  -- What a corporation's list is, or why there is none.
  or_forbidden_cases :
      (result : Result Entries) (found : Option Entries)
      → or_forbidden python collection redis result ≡ ok found
      → ((entries : Entries) × (result ≡ ok entries) × (found ≡ some entries))
        ⊎ ((exc : Exc) × (result ≡ err exc) × IsForbidden exc × (found ≡ none))
  or_forbidden_cases (ok entries) found h = inl (entries, refl, sym (ok-injective h))
  or_forbidden_cases (err (http_status code)) found h = elim (Bool-cases (code == 401)) [
    | inl first ↦
        inr (http_status code, refl, inl (ground (arith, first)), ground (arith, first, h))
    | inr other ↦
        inr (http_status code, refl, inr (ground (arith, other, h)), ground (arith, other, h))
  ]
  or_forbidden_cases (err (value_error message)) found h = absurd (ground (arith, h))
  or_forbidden_cases (err key_error) found h = absurd (ground (arith, h))
  or_forbidden_cases (err type_error) found h = absurd (ground (arith, h))
  or_forbidden_cases (err zero_division) found h = absurd (ground (arith, h))
  or_forbidden_cases (err overflow_error) found h = absurd (ground (arith, h))
  or_forbidden_cases (err recursion_error) found h = absurd (ground (arith, h))
  or_forbidden_cases (err http_error) found h = absurd (ground (arith, h))
  or_forbidden_cases (err duplicate_key) found h = absurd (ground (arith, h))
  or_forbidden_cases (err lock_timeout) found h = absurd (ground (arith, h))
  or_forbidden_cases (err redis_error) found h = absurd (ground (arith, h))

  module _ (source corp_source : Source) (fetch fetch_corp : Result Entries)
      (character : CharacterDocument) (d : Data python collection redis) where
    abbrev personal_read : Data python collection redis × Result Entries
    personal_read = read_source python collection redis source character.character_id fetch d

    abbrev corp_read : ℕ → Data python collection redis × Result Entries
    corp_read corporation_id =
        read_source python collection redis corp_source corporation_id fetch_corp personal_read.0

    -- The corporation's list is read after the personal one, and appended.
    abbrev pub HasCorp : Entries → Entries → Bool → Type 0
    HasCorp personal merged flag =
        (corporation_id : ℕ) × (corp_entries : Entries) × (connected_corporation python collection
            redis character
          ≡ some corporation_id)
        × ((corp_read corporation_id).1 ≡ ok corp_entries)
        × (merged ≡ personal ++ corp_entries)
        × (flag ≡ true)

    -- There is no connection, or ESI refused the corporation's token.
    abbrev pub HasNoCorp : Entries → Entries → Bool → Type 0
    HasNoCorp personal merged flag =
        ((connected_corporation python collection redis character ≡ none)
          ⊎ ((corporation_id : ℕ) × (exc : Exc) × (connected_corporation python collection redis
                  character
                ≡ some corporation_id)
              × ((corp_read corporation_id).1 ≡ err exc)
              × IsForbidden exc))
        × ((merged ≡ personal) × (flag ≡ false))

    from_corp :
        (personal merged : Entries) (flag : Bool) (corporation_id : ℕ)
        → connected_corporation python collection redis character ≡ some corporation_id
        → merge_with python collection redis personal
            (or_forbidden python collection redis (corp_read corporation_id).1)
          ≡ ok (merged, flag)
        → HasCorp personal merged flag ⊎ HasNoCorp personal merged flag
    from_corp personal merged flag corporation_id connected ran =
        elim (Result-cases (or_forbidden python collection redis (corp_read corporation_id).1)) [
          | inl (exc, failed) ↦ absurd (ground (arith, rw failed at ran))
          | inr (found, answered) ↦
              elim (or_forbidden_cases (corp_read corporation_id).1 found answered) [
                | inl (entries, read, has) ↦
                    let same = ok-injective (rw (answered, has) at ran) in
                    inl (
                      corporation_id,
                      entries,
                      connected,
                      read,
                      sym (ap (λ p. p.0) same),
                      sym (ap (λ p. p.1) same),
                    )
                | inr (exc, read, forbidden, has) ↦
                    let same = ok-injective (rw (answered, has) at ran) in
                    inr (
                      inr (corporation_id, exc, connected, read, forbidden),
                      (sym (ap (λ p. p.0) same), sym (ap (λ p. p.1) same)),
                    )
              ]
        ]

    -- A merged list that is returned is the personal list, followed by that of the connected
    -- corporation; and the flag tells whether the latter is there. It is left out only where the
    -- character is not connected, or where ESI answers with 401 or 403.
    pub get_merged_cases :
        (merged : Entries) (flag : Bool)
        → (get_merged python collection redis source corp_source fetch fetch_corp character d).1
          ≡ ok (merged, flag)
        → (personal : Entries) × (personal_read.1 ≡ ok personal)
          × (HasCorp personal merged flag ⊎ HasNoCorp personal merged flag)
    unfolding get_merged merge_corp corp_list_or_none
    get_merged_cases merged flag ran = elim (Result-cases personal_read.1) [
      | inl (exc, failed) ↦ absurd (ground (arith, rw (failed, get_merged) at ran))
      | inr (personal, got) ↦
          let later = rw (got, get_merged) at ran in
          (
            personal,
            got,
            elim (Option-cases (connected_corporation python collection redis character)) [
              | inl alone ↦
                  let same = ok-injective (rw (alone, merge_corp) at later) in
                  inr (inl alone, (sym (ap (λ p. p.0) same), sym (ap (λ p. p.1) same)))
              | inr (corporation_id, connected) ↦
                  from_corp personal merged flag corporation_id connected
                    (rw (connected, merge_corp, corp_list_or_none) at later)
            ],
          )
    ]
