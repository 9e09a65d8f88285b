-- ===== src/Plans/Tests.antt =====
-- The theorems about plans at a concrete store and a concrete container.
use mikrus_mcp.Plans.Output.{plan_output}
use mikrus_mcp.Plans.Hidden.{plan_output-rename, rename_live, rename_desired}
use mikrus_mcp.Plans.Diff.{
  sorted, normalize_desired_networks, mismatched, keys_changed, keys_added, texts_eq, is_empty,
  semantic_diff, states_equal, Live, Desired,
}
use mikrus_mcp.Plans.Applied.{states_equal-IsApplied, IsApplied}
use mikrus_mcp.Plans.Store.{get}
use mikrus_mcp.Sample.{plain}
use mikrus_mcp.Plans.Store.{
  persist_unlocked, is_expired, trim, new_record, added, save, PlanRequest,
}
use mikrus_mcp.Plans.Record.{FloatsRead}
use mikrus_mcp.Plans.Found.{saved_plan-found, Spares, save_all, IsReadable}
use mikrus_mcp.Json.{pos, end, str, int, JsonLib, Json, IsLossless}
use mikrus_mcp.Prelude.{
  ◌==◌, lit, arith, true, refl, false, ap, All, text_eq, length, ◌≡◌, ℕ, zero, suc, [], ◌∷◌, none,
  some, Option, Text,
}
use mikrus_mcp.Errors.{ok}
use mikrus_mcp.RemoteJobs.Store.{Store, absent}

abbrev text_of : Json → Text
text_of (str t) = t
text_of _ = []

abbrev number_of : Json → Option ℕ
number_of (int (pos n)) = some n
number_of (str t) = some (length t)
number_of _ = none

-- A number is written in unary.
abbrev unary : ℕ → Text
unary zero = []
unary (suc n) = b'1' ∷ unary n

abbrev written : Json → Text
written (int (pos n)) = unary n
written v = text_of v

abbrev counting : JsonLib Json
counting = record plain { str_of = written; float_of = number_of }

length-unary : (n : ℕ) → length (unary n) ≡ n
length-unary zero = refl
length-unary (suc n) = ap suc (length-unary n)

counting-IsLossless : IsLossless counting
counting-IsLossless = record {
  loads-dumps = λ v. refl;
  str_of-str = λ t. refl;
  float_of-float_repr = λ n. refl;
}

counting-FloatsRead : FloatsRead counting
counting-FloatsRead = record { parsed = λ n. ap some (length-unary n); number = λ n. refl }

abbrev plan : Text → PlanRequest
plan digest = record {
  receipt_digest = digest;
  service = b's' ∷ [];
  project = b'p' ∷ [];
  compose_files = [];
  desired_image = none;
  desired_image_explicit = false;
  allow_runtime_drift = false;
  has_runtime_drift = false;
  payload = end;
}

abbrev first : Text
first = b'1' ∷ []

abbrev second : Text
second = b'2' ∷ []

abbrev third : Text
third = b'3' ∷ []

abbrev plans : Store Json
plans = record { disk = absent; max_records = 2; lockable = true; writable = true }

plans-IsReadable : IsReadable counting counting-IsLossless counting-FloatsRead 300 plans []
unfolding mikrus_mcp.Plans.Store.load_disk
plans-IsReadable = record { loaded = refl; lockable = refl; writable = refl }

second-Spares :
    All
      (Spares counting counting-IsLossless counting-FloatsRead 300 (new_record 5 (plan first)))
      ((9, plan second) ∷ [])
unfolding text_eq
second-Spares = ((refl, omega arith), tt)

-- A third plan takes the place of the first.
third_evicts :
    (get counting 300 20 first (
      save_all counting counting-IsLossless counting-FloatsRead 300
        ((9, plan second) ∷ (10, plan third) ∷ [])
        (save counting 300 5 (plan first) plans).1)).0
    ≡ ok none
unfolding get save added trim is_expired persist_unlocked mikrus_mcp.Plans.Store.load_disk text_eq
    mikrus_mcp.Plans.Record.from_dict mikrus_mcp.Plans.Record.as_dict lit
third_evicts = refl

saved_plan-found_example :
    (get counting 300 305 first (
      save_all counting counting-IsLossless counting-FloatsRead 300
        ((9, plan second) ∷ [])
        (save counting 300 5 (plan first) plans).1)).0
    ≡ ok (some (new_record 5 (plan first)))
saved_plan-found_example =
    saved_plan-found counting counting-IsLossless counting-FloatsRead 300 5 305 (plan first)
      ((9, plan second) ∷ []) plans [] plans-IsReadable (omega arith) second-Spares (omega arith)

abbrev desired : Desired ℕ ℕ
desired = record {
  image_ref = some first;
  image_id = some first;
  command = second ∷ [];
  entrypoint = [];
  env = (first, second) ∷ [];
  mounts = 0;
  networks = third ∷ [];
  ports = [];
  labels = (second, first) ∷ [];
  restart = ([], 0);
  healthcheck = none;
  depends_on = [];
}

-- The container has one variable and one label more.
abbrev live : Live ℕ ℕ
live = record {
  image_id = first;
  command = second ∷ [];
  entrypoint = [];
  env_values = (third, third) ∷ (first, second) ∷ [];
  mounts = 0;
  networks = third ∷ [];
  ports = [];
  all_labels = (second, first) ∷ (third, third) ∷ [];
  restart = none;
  healthcheck = some 4;
}

in_sync : states_equal ◌==◌ ◌==◌ first live desired ≡ true
unfolding states_equal semantic_diff is_empty texts_eq keys_added keys_changed mismatched
    normalize_desired_networks sorted text_eq lit
in_sync = refl

states_equal-IsApplied_example : IsApplied ◌==◌ ◌==◌ first live desired
states_equal-IsApplied_example = states_equal-IsApplied ◌==◌ ◌==◌ first live desired in_sync

abbrev prefixed : Text → Text
prefixed t = b'x' ∷ t

prefixed-apart : (a b : Text) → prefixed a ≡ prefixed b → a ≡ b
prefixed-apart a b h = cc

plan_output-rename_example :
    plan_output second second third []
      (rename_desired prefixed prefixed-apart ◌==◌ ◌==◌ desired)
      none
      (semantic_diff ◌==◌ ◌==◌ third
        (rename_live prefixed prefixed-apart ◌==◌ ◌==◌ live)
        (rename_desired prefixed prefixed-apart ◌==◌ ◌==◌ desired))
      true
    ≡ record (plan_output first second third [] desired none
        (semantic_diff ◌==◌ ◌==◌ third live desired)
        true) { plan_receipt = second }
plan_output-rename_example =
    plan_output-rename prefixed prefixed-apart ◌==◌ ◌==◌ first second second third [] none true live
      desired
