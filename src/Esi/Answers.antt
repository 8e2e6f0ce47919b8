-- ===== src/Esi/Answers.antt =====
-- services/esi.py: what is read from an answer that is one JSON object. `fetched` is that object, or
-- what the request raises.
use eve_build.Prelude.{ℕ, Option, none, some, [], ◌∷◌, String, if◌then◌else◌, get_or, ltb}
use eve_build.Prelude.Int.{ℤ, pos}
use eve_build.Prelude.Exc.{http_status, Result, ok, err, ◌>>=◌}
use eve_build.External.Json.{
  Builtins, Value, boolean, integer, floating, text, array, nil, Fields, get_field, get_item,
  int_of,
}
use eve_build.Esi.Entries.{Entry}

module _ (python : Builtins) where
  -- `except httpx.HTTPStatusError: return none`
  abbrev pub on_status {ℓ} : {A : Type ℓ} → A → Result A → Result A
  on_status missing (ok v) = ok v
  on_status missing (err (http_status code)) = ok missing
  on_status missing (err exc) = err exc

  -- `value if isinstance(value, str) else None`
  abbrev pub text_or_none : Option (Value python) → Option String
  text_or_none (some (text s)) = some s
  text_or_none _ = none

  -- `isinstance(value, int)` holds of a Boolean, too.
  abbrev pub int_or_none : Option (Value python) → Option ℤ
  int_or_none (some (integer n)) = some n
  int_or_none (some (boolean b)) = some (pos (if b then 1 else 0))
  int_or_none _ = none

  unfoldable pub get_name : Result (Fields python) → Result (Option String)
  get_name fetched =
      on_status none (fetched >>= λ payload. ok (text_or_none (get_field python "name" payload)))

  abbrev pub get_corporation_name : Result (Fields python) → Result (Option String)
  get_corporation_name = get_name

  abbrev pub get_planet_name : Result (Fields python) → Result (Option String)
  get_planet_name = get_name

  abbrev pub get_system_name : Result (Fields python) → Result (Option String)
  get_system_name = get_name

  -- `float_of` is `float(n)`.
  abbrev pub float_or_none :
      (ℤ → Builtins.Float python) → Option (Value python) → Option (Builtins.Float python)
  float_or_none float_of (some (integer n)) = some (float_of n)
  float_or_none float_of (some (floating x)) = some x
  float_or_none float_of (some (boolean b)) = some (float_of (pos (if b then 1 else 0)))
  float_or_none float_of _ = none

  unfoldable pub get_system_security_status :
      (ℤ → Builtins.Float python) → Result (Fields python) → Result (Option (Builtins.Float python))
  get_system_security_status float_of fetched = on_status none (
      fetched >>= λ payload.
      ok (float_or_none float_of (get_field python "security_status" payload)))

  pub record LocationDetails : Type 0 where
    pub name : Option String
    pub system_id : Option ℤ
    pub type_id : Option ℤ

  abbrev pub station_id_max : ℕ
  station_id_max = 64000000000

  -- Both requests, with the path; the token is sent for a structure only.
  pub data LocationRequest : Type 0 where
    station : ℕ → LocationRequest
    structure : ℕ → String → LocationRequest

  abbrev pub location_request : String → ℕ → LocationRequest
  location_request access_token location_id =
      if ltb location_id station_id_max
      then station location_id
      else structure location_id access_token

  unfoldable pub get_location_details :
      (LocationRequest → Result (Fields python)) → String → ℕ → Result LocationDetails
  get_location_details send access_token location_id =
      on_status (record { name = none; system_id = none; type_id = none })
        (do
          payload ← send (location_request access_token location_id)
          ok (record {
            name = text_or_none (get_field python "name" payload);
            system_id = int_or_none (get_field python "system_id" payload);
            type_id = int_or_none (get_field python "type_id" payload);
          }))

  -- The pins, links and routes of a colony.
  unfoldable pub get_character_colony_detail : Result (Fields python) → Result (Entry python)
  get_character_colony_detail fetched = do
    payload ← fetched
    ok (
        get_or (get_field python "pins" payload) (array nil)
        ∷ get_or (get_field python "links" payload) (array nil)
        ∷ get_or (get_field python "routes" payload) (array nil)
        ∷ [])

  abbrev optional_int : Option (Value python) → Result (Option ℤ)
  optional_int none = ok none
  optional_int (some value) = int_of python value >>= λ n. ok (some n)

  -- The corporation and the alliance of a character.
  unfoldable pub get_character_public_info : Result (Fields python) → Result (ℤ × Option ℤ)
  get_character_public_info fetched = do
    payload ← fetched
    corporation_id ← get_item python "corporation_id" payload >>= int_of python
    alliance_id ← optional_int (get_field python "alliance_id" payload)
    ok (corporation_id, alliance_id)
