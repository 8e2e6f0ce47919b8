-- ===== src/Startup/Lock/Exclusion.antt =====
-- At most one pod holds the lock of db/startup_lock.py, while its lease lasts.
use eve_build.Prelude.{
  ℕ, ◌+◌, ◌≡◌, ◌<◌, ◌⊎◌, refl, ap, sym, ◌∙◌, Bool, true, false, some, String, if◌then◌else◌, ◌==◌,
  nat_eq, string_eq, arith, Bool-cases, Option-cases, inl, inr,
}
use eve_build.Prelude.Dict.{eq_of_beq, beq_self}
use eve_build.External.Mongo.{Collection}
use eve_build.External.Upsert.{Upserts}
use eve_build.Startup.Lock.{
  LockDoc, doc_id, Settings, lock_id, has_expired, lease, first_lease, try_acquire, release, Pod,
  outside, holding, released, crashed, World, set_pod, attempt, Step, tick, sweep, enter, poll,
  retry, leave, crash, Reach, start, step,
}

if_true {ℓ} :
    {A : Type ℓ} (b : Bool) (x y : A) {z : A} → b ≡ true → (if b then x else y) ≡ z → x ≡ z
if_true true x y h e = e
if_true false x y h e = absurd (ground arith)

if_false {ℓ} :
    {A : Type ℓ} (b : Bool) (x y : A) {z : A} → b ≡ false → (if b then x else y) ≡ z → y ≡ z
if_false true x y h e = absurd (ground arith)
if_false false x y h e = e

another_holder : (a b : String) → (a == b) ≡ false → (b == a) ≡ false
another_holder a b h = elim (Bool-cases (b == a)) [
  | inl same ↦
      let eq = eq_of_beq b a same in
      let yes : (a == b) ≡ true = rw eq (beq_self a) in absurd (ground arith)
  | inr other ↦ other
]

module _ (locks : Collection String LockDoc doc_id) (upserts : Upserts locks)
    (settings : Settings) where
  open locks use {Store, get}

  -- The lock is stored in the name of the holder, up to the end of the lease.
  abbrev pub IsLeased : String → ℕ → Store → Type 0
  IsLeased holder expires_at s =
      (doc : LockDoc) × (get lock_id s ≡ some doc)
      × (doc.holder ≡ holder)
      × (doc.expires_at ≡ expires_at)

  abbrev pub IsBacked : World locks upserts settings → Type 0
  IsBacked w =
      (holder : String) (expires_at : ℕ)
      → w.pods holder ≡ holding expires_at
      → w.now < expires_at
      → IsLeased holder expires_at w.stored

  abbrev pub Taken : ℕ → String → Store → Store × Bool → Type 0
  Taken now holder s result =
      (result.1 ≡ true)
      × IsLeased holder (now + settings.startup_lock_ttl_seconds) result.0
      × ((h : String) (e : ℕ) → now < e → IsLeased h e s → ⊥)

  -- An attempt takes the lock, which nobody held, and stores it, or it changes nothing.
  pub try_acquire_cases :
      (now : ℕ) (holder : String) (s : Store)
      → Taken now holder s (try_acquire locks upserts settings now holder s)
        ⊎ (try_acquire locks upserts settings now holder s ≡ (s, false))
  unfolding try_acquire
  try_acquire_cases now holder s =
      let p = has_expired locks upserts settings now in
      let f = lease locks upserts settings now holder in
      let new = first_lease locks upserts settings now holder in
      elim (Option-cases (get lock_id s)) [
        | inl absent ↦
            let (s', result, after) = upserts.inserts lock_id p f new s absent refl in
            inl (
              rw (result, try_acquire)
                (
                  beq_self holder,
                  (new, after lock_id, refl, refl),
                  λ h e live (d, at, _, _). absurd (ground (arith, sym absent ∙ at)),
                ))
        | inr (doc, found) ↦ elim (Bool-cases (p doc)) [
          | inl expired ↦
              let (s', result, after) = upserts.updates lock_id p f new s doc found expired refl in
              inl (
                rw (result, try_acquire)
                  (
                    beq_self holder,
                    (f doc, after lock_id, refl, refl),
                    λ h e live (d, at, _, until). absurd (ground (arith, sym found ∙ at)),
                  ))
          | inr live ↦ inr (rw (upserts.collides lock_id p f new s doc found live, try_acquire))
        ]
      ]

  abbrev PodType : Type 0
  PodType = Pod locks upserts settings

  holding-injective : {a b : ℕ} → ◌≡◌ {A = PodType} (holding a) (holding b) → a ≡ b
  holding-injective e = ground arith

  attempt-IsBacked :
      (holder : String) (deadline : ℕ) (w : World locks upserts settings)
      → IsBacked w
      → IsBacked (attempt locks upserts settings holder deadline w)
  unfolding attempt
  attempt-IsBacked holder deadline w h j e holds live =
      elim (try_acquire_cases w.now holder w.stored) [
        | inl (acquired, leased, free) ↦ elim (Bool-cases (holder == j)) [
          | inl same ↦
              let (doc, at, by, until) = leased in
              let mine = holding-injective (if_true _ _ _ acquired (if_true _ _ _ same holds)) in
              (doc, at, by ∙ eq_of_beq holder j same, until ∙ mine)
          | inr other ↦ absurd (free j e live (h j e (if_false _ _ _ other holds) live))
        ]
        | inr unchanged ↦ elim (Bool-cases (holder == j)) [
          | inl same ↦
              let not_holding =
                if_false _ _ _ (ap (λ r. r.1) unchanged) (if_true _ _ _ same holds) in
              absurd (ground arith)
          | inr other ↦ rw (ap (λ r. r.0) unchanged) (h j e (if_false _ _ _ other holds) live)
        ]
      ]

  -- A release deletes the pod's own lock only, and a sweep only a lock whose lease is over.
  delete-IsLeased :
      (p : LockDoc → Bool) (j : String) (e : ℕ) (s : Store)
      → ((doc : LockDoc) → doc.holder ≡ j → doc.expires_at ≡ e → p doc ≡ false)
      → IsLeased j e s
      → IsLeased j e (locks.delete_one lock_id p s).0
  delete-IsLeased p j e s spared (doc, at, by, until) =
      (doc, locks.get-delete_one lock_id p s lock_id ∙ rw (at, spared doc by until) refl, by, until)

  set_pod-IsBacked :
      (holder : String) (pod : PodType) (w : World locks upserts settings)
      → ((e : ℕ) → pod ≡ holding e → ⊥)
      → IsBacked w
      → IsBacked (set_pod locks upserts settings holder pod w)
  set_pod-IsBacked holder pod w idle h j e holds live = elim (Bool-cases (holder == j)) [
    | inl same ↦ absurd (idle e (if_true _ _ _ same holds))
    | inr other ↦ h j e (if_false _ _ _ other holds) live
  ]

  release-IsBacked :
      (holder : String) (w : World locks upserts settings)
      → IsBacked w
      → IsBacked (
          set_pod locks upserts settings holder released
            (record w { stored = release locks upserts settings holder w.stored }))
  unfolding release
  release-IsBacked holder w h j e holds live = elim (Bool-cases (holder == j)) [
    | inl same ↦ let over = if_true _ _ _ same holds in absurd (ground arith)
    | inr other ↦
        delete-IsLeased _ j e w.stored (λ doc by until. rw by (another_holder holder j other))
          (h j e (if_false _ _ _ other holds) live)
  ]

  Step-IsBacked :
      {u v : World locks upserts settings}
      → Step locks upserts settings u v
      → IsBacked u
      → IsBacked v
  Step-IsBacked (tick w n) h = λ j e holds live. h j e holds (omega arith)
  Step-IsBacked (sweep w) h = λ j e holds live.
      delete-IsLeased _ j e w.stored (λ doc by until. ground arith) (h j e holds live)
  Step-IsBacked (enter w holder outside_yet) h = attempt-IsBacked holder _ w h
  Step-IsBacked (poll w holder deadline waits) h = set_pod-IsBacked holder _ w (λ e. ground arith) h
  Step-IsBacked (retry w holder deadline sleeps) h = attempt-IsBacked holder deadline w h
  Step-IsBacked (leave w holder expires_at holds) h = release-IsBacked holder w h
  Step-IsBacked (crash w holder) h = set_pod-IsBacked holder crashed w (λ e. ground arith) h

  Reach-IsBacked :
      {u v : World locks upserts settings}
      → Reach locks upserts settings u v
      → IsBacked u
      → IsBacked v
  Reach-IsBacked start h = h
  Reach-IsBacked (step before last) h = Step-IsBacked last (Reach-IsBacked before h)

  -- No two pods hold the lock at a moment at which neither lease is over, whatever the steps so far.
  pub lock_excludes :
      (u v : World locks upserts settings) (a b : String) (a_until b_until : ℕ)
      → ((holder : String) → u.pods holder ≡ outside)
      → Reach locks upserts settings u v
      → v.pods a ≡ holding a_until
      → v.pods b ≡ holding b_until
      → v.now < a_until
      → v.now < b_until
      → a ≡ b
  lock_excludes u v a b a_until b_until fresh reached a_holds b_holds a_live b_live =
      let backed =
        Reach-IsBacked reached (λ j e holds live. absurd (ground (arith, sym (fresh j) ∙ holds))) in
      let (x, at_x, by_x, _) = backed a a_until a_holds a_live in
      let (y, at_y, by_y, _) = backed b b_until b_holds b_live in
      let same : x ≡ y = ground (arith, sym at_x ∙ at_y) in
      sym by_x ∙ ap (λ doc. doc.holder) same ∙ by_y
