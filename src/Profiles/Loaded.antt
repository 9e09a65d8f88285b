-- ===== src/Profiles/Loaded.antt =====
-- cron_profiles.py: the keys of the profiles, and what the store reads back of what it wrote.
use std.Path.{subst}
use mikrus_mcp.Profiles.Store.{key_eq}
use mikrus_mcp.Errors.{ok}
use mikrus_mcp.Profiles.Store.{encode_records, decode_items, load_disk, Key}
use mikrus_mcp.RemoteJobs.Store.{regular, item_count}
use mikrus_mcp.Profiles.Record.{from_dict-as_dict, is_schedule, CronProfileRecord}
use mikrus_mcp.Json.{arr, IsLossless, JsonLib}
use mikrus_mcp.Prelude.{
  text_eq_refl, text_eq_iff, refl, [], ltb-false, arith, ◌≤◌, ◌∷◌, ◌↔◌, length, ℕ, true, All, ◌≡◌,
  List,
}

key-ext :
    (k j : Key)
    → k.profile_id ≡ j.profile_id
    → k.principal ≡ j.principal
    → k.server_id ≡ j.server_id
    → k ≡ j
key-ext k j a b c = λ i. record { profile_id = a i; principal = b i; server_id = c i }

pub key_eq_iff : (k j : Key) → (key_eq k j ≡ true) ↔ (k ≡ j)
unfolding key_eq
key_eq_iff k j = (
  λ h.
      key-ext k j ((text_eq_iff k.profile_id j.profile_id).0 ground arith)
        ((text_eq_iff k.principal j.principal).0 ground arith)
        ((text_eq_iff k.server_id j.server_id).0 ground arith),
  λ e.
      subst (λ j. key_eq k j ≡ true) e
        (rw (text_eq_refl k.profile_id, text_eq_refl k.principal, text_eq_refl k.server_id) refl),
)

abbrev pub IsStored : CronProfileRecord → Type 0
IsStored r = is_schedule r.schedule ≡ true

module _ {C : Type 0} (json : JsonLib C) (lib : IsLossless json) where
  decode_items-encode_records :
      (rs : List CronProfileRecord) → All IsStored rs → decode_items (encode_records rs) ≡ ok rs
  decode_items-encode_records [] h = refl
  decode_items-encode_records (r ∷ rs) h =
      rw (from_dict-as_dict r h.0, decode_items-encode_records rs h.1) refl

  item_count-encode_records :
      (rs : List CronProfileRecord) → item_count (encode_records rs) ≡ length rs
  item_count-encode_records [] = refl
  item_count-encode_records (r ∷ rs) = omega (arith, item_count-encode_records rs)

  -- What was persisted is loaded again.
  pub load_disk-persisted :
      (max_records : ℕ) (rs : List CronProfileRecord)
      → All IsStored rs
      → length rs ≤ max_records
      → load_disk json max_records (regular (json.dumps (arr (encode_records rs)))) ≡ ok rs
  unfolding load_disk
  load_disk-persisted max_records rs h fits =
      rw (lib.loads-dumps, item_count-encode_records rs, ltb-false max_records (length rs) fits)
        (decode_items-encode_records rs h)
