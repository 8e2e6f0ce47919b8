-- ===== src/Plan/Doc.antt =====
-- The plan and job documents of services/plan.py.
use eve_build.Prelude.{ℕ, Bool, false, Option, none, List, String}
use eve_build.Prelude.Int.{ℤ}
use eve_build.Prelude.SortedSet.{sorted_set}

pub record Job : Type 0 where
  pub job_id : String
  pub target_type_id : ℤ
  pub target_quantity : ℤ
  pub build_set : List ℤ
  pub blueprint_item_id : Option ℤ
  pub has_engineering_complex : Bool
  pub rig_tier : Option String
  pub security_band : String

-- Times are seconds; the program never computes with them.
pub record Plan : Type 0 where
  pub id : String
  pub character_id : ℕ
  pub name : String
  pub jobs : List Job
  pub created_at : ℕ
  pub updated_at : ℕ

abbrev pub plan_id : Plan → String
plan_id doc = doc.id

-- `uuid` is the result of `uuid.uuid4()`.
unfoldable pub job_doc : String → ℤ → ℤ → List ℤ → Option ℤ → Job
job_doc uuid target_type_id target_quantity build_set blueprint_item_id = record {
  job_id = uuid;
  target_type_id = target_type_id;
  target_quantity = target_quantity;
  build_set = sorted_set build_set;
  blueprint_item_id = blueprint_item_id;
  has_engineering_complex = false;
  rig_tier = none;
  security_band = "high";
}
