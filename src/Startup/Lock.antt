-- ===== src/Startup/Lock.antt =====
-- db/startup_lock.py: the lock in the collection `_locks` that one pod at a time holds while it
-- starts up. Each pod is named by its `holder`, which `uuid.uuid4()` makes unique. All clocks are
-- one, in seconds.
pub mod Exclusion
pub mod Takeover
use eve_build.Prelude.{
  ℕ, ◌+◌, ◌≡◌, Bool, true, false, not, String, if◌then◌else◌, ◌==◌, nat_eq, string_eq, ltb, leb,
}
use eve_build.Prelude.Exc.{Result, ok, err}
use eve_build.External.Mongo.{Collection}
use eve_build.External.Upsert.{Upserts}

pub record LockDoc : Type 0 where
  pub id : String
  pub holder : String
  pub acquired_at : ℕ
  pub expires_at : ℕ

abbrev pub doc_id : LockDoc → String
doc_id doc = doc.id

pub record Settings : Type 0 where
  pub startup_lock_ttl_seconds : ℕ
  pub startup_lock_wait_timeout_seconds : ℕ

abbrev pub lock_id : String
lock_id = "startup"

module _ (locks : Collection String LockDoc doc_id) (upserts : Upserts locks)
    (settings : Settings) where
  open locks use {Store, delete_one}

  -- `{"expires_at": {"$lt": now}}`
  abbrev pub has_expired : ℕ → LockDoc → Bool
  has_expired now doc = ltb doc.expires_at now

  -- `{"$set": ...}`
  abbrev pub lease : ℕ → String → LockDoc → LockDoc
  lease now holder doc = record doc {
    holder = holder;
    acquired_at = now;
    expires_at = now + settings.startup_lock_ttl_seconds;
  }

  abbrev pub first_lease : ℕ → String → LockDoc
  first_lease now holder = record {
    id = lock_id;
    holder = holder;
    acquired_at = now;
    expires_at = now + settings.startup_lock_ttl_seconds;
  }

  -- `DuplicateKeyError` is the only exception that `Upserts` leaves possible.
  unfoldable pub try_acquire : ℕ → String → Store → Store × Bool
  try_acquire now holder s =
      elim (Upserts.find_one_and_update upserts lock_id (has_expired now) (lease now holder)
        (first_lease now holder) s) [
          | err duplicate ↦ (s, false)
          | ok (s', result) ↦ (s', result.holder == holder)
        ]

  -- The collection after the release; the warning is left out.
  unfoldable pub release : String → Store → Store
  release holder s = (delete_one lock_id (λ doc. doc.holder == holder) s).0

  -- Where a pod is in `startup_lock`: before it, in the `while` loop before the test of the
  -- deadline or after it, in the body of the `with`, or at an end.
  pub data Pod : Type 0 where
    outside : Pod
    waiting : ℕ → Pod
    sleeping : ℕ → Pod
    holding : ℕ → Pod
    released timed_out crashed : Pod

  pub record World : Type 0 where
    pub now : ℕ
    pub stored : Store
    pub pods : String → Pod

  abbrev pub set_pod : String → Pod → World → World
  set_pod holder pod w = record w { pods = λ h. if holder == h then pod else w.pods h }

  -- One call of `_try_acquire` by a pod that gives up at `deadline`.
  unfoldable pub attempt : String → ℕ → World → World
  attempt holder deadline w =
      let (s', acquired) = try_acquire w.now holder w.stored in
      set_pod holder
        (if acquired then holding (w.now + settings.startup_lock_ttl_seconds) else waiting deadline)
        (record w { stored = s' })

  -- The steps of all pods, in any order. `sweep` is the index `expires_at_ttl` at work.
  pub data Step : World → World → Type 0 where
    tick : (w : World) (seconds : ℕ) → Step w (record w { now = w.now + seconds })
    sweep :
        (w : World)
        → Step w (record w {
          stored = (delete_one lock_id (λ doc. leb doc.expires_at w.now) w.stored).0;
        })
    enter :
        (w : World) (holder : String)
        → w.pods holder ≡ outside
        → Step w (attempt holder (w.now + settings.startup_lock_wait_timeout_seconds) w)
    poll :
        (w : World) (holder : String) (deadline : ℕ)
        → w.pods holder ≡ waiting deadline
        → Step w (set_pod holder (if leb deadline w.now then timed_out else sleeping deadline) w)
    retry :
        (w : World) (holder : String) (deadline : ℕ)
        → w.pods holder ≡ sleeping deadline
        → Step w (attempt holder deadline w)
    leave :
        (w : World) (holder : String) (expires_at : ℕ)
        → w.pods holder ≡ holding expires_at
        → Step w (set_pod holder released (record w { stored = release holder w.stored }))
    crash : (w : World) (holder : String) → Step w (set_pod holder crashed w)

  pub data Reach (w : World) : World → Type 0 where
    start : Reach w w
    step : {u v : World} → Reach w u → Step u v → Reach w v
