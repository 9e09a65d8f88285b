-- ===== src/Profiles/Refines.antt =====
-- The store refines the map: no sequence of calls tells them apart.
use std.Path.{ap₂}
use mikrus_mcp.Profiles.Loaded.{IsStored, key_eq_iff, load_disk-persisted}
use mikrus_mcp.Profiles.Store.{has_key, upsert, delete, get, load, key_eq}
use mikrus_mcp.Profiles.Spec.{answers, Call, upsert_call, delete_call, store_call}
use mikrus_mcp.Keyed.{
  at-unreplaced, unheld-unreplaced, at-dropped, dropped-IsDistinct, at-append, length-replaced,
  at-replaced, append-IsDistinct, length-dropped, All-replaced, replaced-IsDistinct, find_last-at,
  replace_first, IsDistinct, at,
}
use mikrus_mcp.Profiles.Spec.{get_call, map_call, ProfileMap}
use mikrus_mcp.Errors.{ok, Result}
use mikrus_mcp.Profiles.Store.{key_of, encode_records, load_disk, Key}
use mikrus_mcp.RemoteJobs.Store.{Store, regular}
use mikrus_mcp.Profiles.Record.{CronProfileRecord}
use mikrus_mcp.Json.{arr, IsLossless, JsonLib}
use mikrus_mcp.Prelude.{
  leb→lt, length-append, All-filter, not, All-append, filter, ◌++◌, sym, leb, inr, inl, Bool-cases,
  Option-cases, ◌∙◌, refl, [], arith, ◌≤◌, ◌∷◌, length, true, Option, All, ◌≡◌, List, none, some,
}

module _ {C : Type 0} (json : JsonLib C) (lib : IsLossless json) where
  abbrev pub found : Key → List CronProfileRecord → Option CronProfileRecord
  found k rs = at key_of key_eq key_eq_iff k rs

  -- The file holds the map's entries, each key once, and can be written.
  pub record Refines (s : Store C) (m : ProfileMap) : Type 0 where
    pub records : List CronProfileRecord
    pub loaded : load_disk json s.max_records s.disk ≡ ok records
    pub distinct : IsDistinct key_of key_eq key_eq_iff records
    pub stored : All IsStored records
    pub fits : length records ≤ s.max_records
    pub lockable : s.lockable ≡ true
    pub writable : s.writable ≡ true
    pub entries : (k : Key) → m.entry k ≡ found k records
    pub counted : m.count ≡ length records
    pub capacity : m.capacity ≡ s.max_records

  -- Both ends of a call: the answers agree, and the states still do.
  abbrev pub Agree :
      Result CronProfileRecord × Store C → Result CronProfileRecord × ProfileMap → Type 0
  Agree x y = (x.0 ≡ y.0) × Refines x.1 y.1

  get-Agree :
      (k : Key) (s : Store C) (m : ProfileMap)
      → Refines s m
      → Agree (store_call json (get_call k) s) (map_call (get_call k) m)
  unfolding store_call map_call get load
  get-Agree k s m h = simp (h.lockable, h.loaded, h.entries k) (refl, h)

  -- The state behind a write of records.
  abbrev written : List CronProfileRecord → Store C → Store C
  written rs s = record {
    disk = regular (json.dumps (arr (encode_records rs)));
    max_records = s.max_records;
    lockable = true;
    writable = true;
  }

  written-Refines :
      (rs : List CronProfileRecord) (s : Store C) (m m' : ProfileMap)
      → Refines s m
      → IsDistinct key_of key_eq key_eq_iff rs
      → All IsStored rs
      → length rs ≤ s.max_records
      → ((k : Key) → m'.entry k ≡ found k rs)
      → m'.count ≡ length rs
      → m'.capacity ≡ s.max_records
      → Refines (written rs s) m'
  written-Refines rs s m m' h d st f e c cp = record {
    records = rs;
    loaded = load_disk-persisted json lib s.max_records rs st f;
    distinct = d;
    stored = st;
    fits = f;
    lockable = refl;
    writable = refl;
    entries = e;
    counted = c;
    capacity = cp;
  }

  upsert_replaced-Agree :
      (r old : CronProfileRecord) (ys : List CronProfileRecord) (s : Store C) (m : ProfileMap)
      → IsStored r
      → (h : Refines s m) → found (key_of r) h.records ≡ some old
      → replace_first (has_key (key_of r)) r h.records ≡ some ys
      → Agree (store_call json (upsert_call r) s) (map_call (upsert_call r) m)
  unfolding store_call map_call upsert
  upsert_replaced-Agree r old ys s m st h held e =
      simp (h.lockable, h.loaded, e, h.writable, h.entries (key_of r), held)
        (
          refl,
          written-Refines ys s m _ h
              (replaced-IsDistinct key_of key_eq key_eq_iff r h.records ys e h.distinct)
              (All-replaced IsStored (has_key (key_of r)) r h.records ys e st h.stored)
              (omega (
                arith,
                length-replaced key_of key_eq key_eq_iff (has_key (key_of r)) r h.records ys e,
                h.fits,
              ))
              (λ k.
                rw (h.entries k) (sym (at-replaced key_of key_eq key_eq_iff k r h.records ys e)))
              (h.counted
                ∙ sym (
                    length-replaced key_of key_eq key_eq_iff (has_key (key_of r)) r h.records ys e))
              h.capacity,
        )

  upsert_new-Agree :
      (r : CronProfileRecord) (s : Store C) (m : ProfileMap)
      → IsStored r
      → (h : Refines s m) → found (key_of r) h.records ≡ none
      → replace_first (has_key (key_of r)) r h.records ≡ none
      → Agree (store_call json (upsert_call r) s) (map_call (upsert_call r) m)
  unfolding store_call map_call upsert
  upsert_new-Agree r s m st h free e = elim (Bool-cases (leb s.max_records (length h.records))) [
    | inl full ↦
        simp (h.lockable, h.loaded, e, h.entries (key_of r), free, h.capacity, h.counted, full)
          (refl, h)
    | inr room ↦
        simp
          (
            h.lockable,
            h.loaded,
            e,
            h.writable,
            h.entries (key_of r),
            free,
            h.capacity,
            h.counted,
            room,
          )
          (
            refl,
            written-Refines (h.records ++ r ∷ []) s m _ h
                (append-IsDistinct key_of key_eq key_eq_iff r h.records free h.distinct)
                (All-append IsStored h.records (r ∷ []) h.stored (st, tt))
                (omega (
                  arith,
                  length-append h.records (r ∷ []),
                  leb→lt s.max_records (length h.records) room,
                ))
                (λ k.
                  rw (h.entries k) (sym (at-append key_of key_eq key_eq_iff k r h.records free)))
                (omega (arith, length-append h.records (r ∷ []), h.counted)) refl,
          )
  ]

  delete-Agree :
      (k : Key) (s : Store C) (m : ProfileMap)
      → Refines s m
      → Agree (store_call json (delete_call k) s) (map_call (delete_call k) m)
  unfolding store_call map_call delete
  delete-Agree k s m h =
      let last = find_last-at key_of key_eq key_eq_iff k h.records h.distinct in
      elim (Option-cases (found k h.records)) [
        | inl free ↦ simp (h.lockable, h.loaded, last, free, h.entries k) (refl, h)
        | inr (old, held) ↦
            let shorter = length-dropped key_of key_eq key_eq_iff k old h.records h.distinct held in
            simp (h.lockable, h.loaded, last, held, h.writable, h.entries k)
              (
                refl,
                written-Refines (filter (λ (r : CronProfileRecord). not (has_key k r)) h.records) s
                    m _ h (dropped-IsDistinct key_of key_eq key_eq_iff k h.records h.distinct)
                    (All-filter IsStored (λ r. not (has_key k r)) h.records h.stored)
                    (omega (arith, shorter, h.fits))
                    (λ j.
                      rw (h.entries j) (sym (at-dropped key_of key_eq key_eq_iff k j h.records)))
                    (omega (arith, shorter, h.counted)) h.capacity,
              )
      ]

  abbrev pub IsStorable : Call → Type 0
  IsStorable (get_call k) = Unit
  IsStorable (upsert_call r) = IsStored r
  IsStorable (delete_call k) = Unit

  upsert-Agree :
      (r : CronProfileRecord) (s : Store C) (m : ProfileMap)
      → IsStored r
      → Refines s m
      → Agree (store_call json (upsert_call r) s) (map_call (upsert_call r) m)
  upsert-Agree r s m st h = elim (Option-cases (found (key_of r) h.records)) [
    | inl free ↦
        upsert_new-Agree r s m st h free
          (unheld-unreplaced key_of key_eq key_eq_iff (key_of r) r h.records free)
    | inr (old, held) ↦ elim (Option-cases (replace_first (has_key (key_of r)) r h.records)) [
      | inl unreplaced ↦
          let free = at-unreplaced key_of key_eq key_eq_iff (key_of r) r h.records unreplaced in
          let bad : ◌≡◌ {A = Option CronProfileRecord} none (some old) = sym free ∙ held in cc
      | inr (ys, replaced) ↦ upsert_replaced-Agree r old ys s m st h held replaced
    ]
  ]

  pub call-Agree :
      (c : Call) (s : Store C) (m : ProfileMap)
      → IsStorable c
      → Refines s m
      → Agree (store_call json c s) (map_call c m)
  call-Agree (get_call k) s m st h = get-Agree k s m h
  call-Agree (upsert_call r) s m st h = upsert-Agree r s m st h
  call-Agree (delete_call k) s m st h = delete-Agree k s m h

  -- A store whose file holds the entries of a map answers every sequence of get, upsert and delete
  -- calls as that map does, capacity and missing keys included, when the profiles that are written
  -- have the five schedule fields and the JSON library loses nothing.
  pub answers_refine :
      (cs : List Call) (s : Store C) (m : ProfileMap)
      → All IsStorable cs
      → Refines s m
      → answers (store_call json) cs s ≡ answers map_call cs m
  answers_refine [] s m st h = refl
  answers_refine (c ∷ cs) s m st h =
      let (same, next) = call-Agree c s m st.0 h in
      ap₂ (λ x xs. x ∷ xs) same
        (answers_refine cs (store_call json c s).1 (map_call c m).1 st.1 next)
