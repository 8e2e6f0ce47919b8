-- ===== src/TrackedInfo/Jobs.antt =====
-- The numbers of jobs that the loops of `enqueue_all_refresh_jobs` publish, of services/tracked_info.py.
use eve_build.Prelude.{
  ℕ, ◌+◌, ◌≡◌, refl, Bool, ◌&&◌, Option, none, some, List, [], ◌∷◌, ◌++◌, String, if◌then◌else◌,
  ◌==◌, nat_eq, string_eq, length, arith, sum_by, sum_by-append, length-append,
}
use eve_build.Prelude.Dict.{Dict, weight}
use eve_build.Prelude.Equality.{option_eq}
use eve_build.Tokens.{CharacterDocument}
use eve_build.CharacterData.{Source}
use eve_build.TrackedInfo.{
  TrackedInfoRefreshJobMessage, personal_handlers, corp_handlers, Dispatched, publish_each,
  dispatch_characters, dispatch_corporations,
}

abbrev message : String → ℕ → Option ℕ → TrackedInfoRefreshJobMessage
message kind k corp = record { kind = kind; character_id = k; corporation_id = corp }

abbrev pub job_number : String → ℕ → Option ℕ → TrackedInfoRefreshJobMessage → ℕ
job_number kind k corp job =
    if job.kind == kind && (job.character_id == k && job.corporation_id == corp) then 1 else 0

-- The number of jobs of a kind for a character and, if there is one, a corporation.
abbrev pub jobs_of : String → ℕ → Option ℕ → List TrackedInfoRefreshJobMessage → ℕ
jobs_of kind k corp = sum_by (job_number kind k corp)

abbrev pub has_kind : String → Dict String Source → ℕ
has_kind kind handlers = sum_by (λ entry. if entry.0 == kind then 1 else 0) handlers

split :
    (same_kind same_character same_corporation : Bool) (before rest : ℕ)
    → before
        + ((if same_kind && (same_character && same_corporation) then 1 else 0) + 0)
        + (if same_character && same_corporation then rest else 0)
      ≡ before
        + (if same_character && same_corporation then (if same_kind then 1 else 0) + rest else 0)
split a b c before rest = ground arith

-- A loop over handlers adds one job of each of its kinds.
jobs_of-publish_each :
    (kind : String) (k j : ℕ) (corp c : Option ℕ) (handlers : Dict String Source) (d : Dispatched)
    → jobs_of kind k corp (publish_each handlers j c d).jobs
      ≡ jobs_of kind k corp d.jobs + (if j == k && c == corp then has_kind kind handlers else 0)
unfolding publish_each
jobs_of-publish_each kind k j corp c [] d = ground arith
jobs_of-publish_each kind k j corp c ((name, source) ∷ handlers) d =
    let here = message name j c in
    let one = sum_by-append (job_number kind k corp) d.jobs (here ∷ []) in
    let rest =
      jobs_of-publish_each kind k j corp c handlers
        (record d { jobs = d.jobs ++ here ∷ []; count = d.count + 1 }) in
    let cases =
      split (name == kind) (j == k) (c == corp) (jobs_of kind k corp d.jobs)
        (has_kind kind handlers) in
    omega (arith, rest, one, cases)

pub delegates-publish_each :
    (k : ℕ) (c : Option ℕ) (handlers : Dict String Source) (d : Dispatched)
    → (publish_each handlers k c d).delegate_by_corp ≡ d.delegate_by_corp
unfolding publish_each
delegates-publish_each k c [] d = refl
delegates-publish_each k c (entry ∷ handlers) d = delegates-publish_each k c handlers _

-- The count is the number of jobs.
abbrev pub IsCounted : Dispatched → Type 0
IsCounted d = d.count ≡ length d.jobs

publish_each-IsCounted :
    (k : ℕ) (c : Option ℕ) (handlers : Dict String Source) (d : Dispatched)
    → IsCounted d
    → IsCounted (publish_each handlers k c d)
unfolding publish_each
publish_each-IsCounted k c [] d h = h
publish_each-IsCounted k c ((name, source) ∷ handlers) d h =
    publish_each-IsCounted k c handlers _
      (omega (arith, h, length-append d.jobs (message name k c ∷ [])))

pub dispatch_characters-IsCounted :
    (characters : List CharacterDocument) (d : Dispatched)
    → IsCounted d
    → IsCounted (dispatch_characters characters d)
unfolding dispatch_characters
dispatch_characters-IsCounted [] d h = h
dispatch_characters-IsCounted (character ∷ characters) d h =
    dispatch_characters-IsCounted characters _
      (publish_each-IsCounted character.character_id none personal_handlers d h)

pub dispatch_corporations-IsCounted :
    (delegates : Dict ℕ ℕ) (d : Dispatched)
    → IsCounted d
    → IsCounted (dispatch_corporations delegates d)
unfolding dispatch_corporations
dispatch_corporations-IsCounted [] d h = h
dispatch_corporations-IsCounted ((corp, k) ∷ delegates) d h =
    dispatch_corporations-IsCounted delegates _
      (publish_each-IsCounted k (some corp) corp_handlers d h)

-- The loop over the characters publishes personal jobs only, and so many.
pub jobs_of-dispatch_characters :
    (kind : String) (k : ℕ) (corp : Option ℕ) (characters : List CharacterDocument) (d : Dispatched)
    → jobs_of kind k corp (dispatch_characters characters d).jobs
      ≡ jobs_of kind k corp d.jobs
        + sum_by
            (λ character.
              if character.character_id == k && none == corp
              then has_kind kind personal_handlers
              else 0)
            characters
unfolding dispatch_characters
jobs_of-dispatch_characters kind k corp [] d = omega arith
jobs_of-dispatch_characters kind k corp (character ∷ characters) d = omega (
  arith,
  jobs_of-dispatch_characters kind k corp characters _,
  jobs_of-publish_each kind k character.character_id corp none personal_handlers d,
)

pub jobs_of-dispatch_corporations :
    (kind : String) (k : ℕ) (corp : Option ℕ) (delegates : Dict ℕ ℕ) (d : Dispatched)
    → jobs_of kind k corp (dispatch_corporations delegates d).jobs
      ≡ jobs_of kind k corp d.jobs
        + weight
            (λ c delegate.
              if delegate == k && some c == corp then has_kind kind corp_handlers else 0)
            delegates
unfolding dispatch_corporations
jobs_of-dispatch_corporations kind k corp [] d = omega arith
jobs_of-dispatch_corporations kind k corp ((c, delegate) ∷ delegates) d = omega (
  arith,
  jobs_of-dispatch_corporations kind k corp delegates _,
  jobs_of-publish_each kind k delegate corp (some c) corp_handlers d,
)
