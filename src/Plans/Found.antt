-- ===== src/Plans/Found.antt =====
-- A saved plan is found until it expires, however many plans are saved behind it, as long as they
-- fit beside it.
use mikrus_mcp.Plans.Store.{get}
use mikrus_mcp.Plans.Holds.{
  find_first-Holds, filtered-without, fresh-Holds, filter-Holds, append-Holds, trim-Holds,
  length-trim, Holds,
}
use mikrus_mcp.RemoteJobs.Store.{regular, item_count, Store}
use mikrus_mcp.Plans.Record.{from_dict-as_dict, FloatsRead, PlanRecord}
use mikrus_mcp.Json.{arr, IsLossless, JsonLib}
use mikrus_mcp.Prelude.{
  Option, text_eq_refl, ap, some, All-filter, All, ◌-◌, refl, not, ltb-false, true, false, arith,
  ◌≤◌, ◌+◌, length, ℕ, List, [], ◌∷◌, ◌≡◌,
}
use mikrus_mcp.Plans.Store.{
  new_record, encode_records, added, save, load_disk, decode_items, PlanRequest, has_digest,
  is_expired,
}
use mikrus_mcp.Errors.{Result, ok}

module _ {C : Type 0} (json : JsonLib C) (lib : IsLossless json) (floats : FloatsRead json)
    (ttl : ℕ) where
  decode_items-encode_records :
      (rs : List PlanRecord) → decode_items json (encode_records json rs) ≡ ok rs
  decode_items-encode_records [] = refl
  decode_items-encode_records (r ∷ rs) =
      rw (from_dict-as_dict json lib floats r, decode_items-encode_records rs) refl

  item_count-encode_records :
      (rs : List PlanRecord) → item_count (encode_records json rs) ≡ length rs
  item_count-encode_records [] = refl
  item_count-encode_records (r ∷ rs) = omega (arith, item_count-encode_records rs)

  load_disk-persisted :
      (max_records : ℕ) (rs : List PlanRecord)
      → length rs ≤ max_records
      → load_disk json max_records (regular (json.dumps (arr (encode_records json rs)))) ≡ ok rs
  unfolding load_disk
  load_disk-persisted max_records rs fits =
      rw (lib.loads-dumps, item_count-encode_records rs, ltb-false max_records (length rs) fits)
        (decode_items-encode_records rs)

  -- A store that can be locked and written, with its records.
  pub record IsReadable (s : Store C) (rs : List PlanRecord) : Type 0 where
    pub loaded : load_disk json s.max_records s.disk ≡ ok rs
    pub lockable : s.lockable ≡ true
    pub writable : s.writable ≡ true

  save-IsReadable :
      (now : ℕ) (q : PlanRequest) (s : Store C) (rs : List PlanRecord)
      → IsReadable s rs
      → IsReadable (save json ttl now q s).1 (added s.max_records ttl now q rs)
        × ((save json ttl now q s).1.max_records ≡ s.max_records)
  unfolding save added
  save-IsReadable now q s rs h =
      simp (h.lockable, h.loaded, h.writable)
        (
          record {
            loaded =
                load_disk-persisted s.max_records (added s.max_records ttl now q rs)
                  (length-trim s.max_records _);
            lockable = refl;
            writable = refl;
          },
          refl,
        )

  -- The store behind further saves.
  abbrev pub save_all : List (ℕ × PlanRequest) → Store C → Store C
  save_all [] s = s
  save_all (e ∷ es) s = save_all es (save json ttl e.0 e.1 s).1

  -- A further save of another digest, while the plan lives, leaves it one place further.
  added-Holds :
      (max_records n now : ℕ) (r : PlanRecord) (q : PlanRequest) (rs : List PlanRecord)
      → n + 2 ≤ max_records
      → has_digest q.receipt_digest r ≡ false
      → now ≤ r.created_at + ttl
      → Holds r.receipt_digest r n rs
      → Holds r.receipt_digest r (n + 1) (added max_records ttl now q rs)
  unfolding added is_expired
  added-Holds max_records n now r q rs room other alive h =
      let here = r.receipt_digest in
      trim-Holds here r max_records (n + 1) _ (omega arith) (
        append-Holds here r n (new_record now q) _ (
          filter-Holds here r n (λ x. not (is_expired ttl now x)) _
            (rw (ltb-false ttl (now - r.created_at) (omega arith)) refl)
            (filter-Holds here r n (λ x. not (has_digest q.receipt_digest x)) rs (rw other refl)
              h)))

  new-Holds :
      (max_records now : ℕ) (q : PlanRequest) (rs : List PlanRecord)
      → 1 ≤ max_records
      → Holds q.receipt_digest (new_record now q) 0 (added max_records ttl now q rs)
  unfolding added
  new-Holds max_records now q rs room =
      trim-Holds q.receipt_digest (new_record now q) max_records 0 _ room (
        fresh-Holds q.receipt_digest (new_record now q) _ (
          All-filter (λ x. has_digest q.receipt_digest x ≡ false) (λ x. not (is_expired ttl now x))
            _ (filtered-without q.receipt_digest rs)))

  -- Saves that leave a plan alone: of other digests, before it expires.
  abbrev pub Spares : PlanRecord → ℕ × PlanRequest → Type 0
  Spares r e = (has_digest e.1.receipt_digest r ≡ false) × (e.0 ≤ r.created_at + ttl)

  save_all-Holds :
      (later : List (ℕ × PlanRequest)) (n : ℕ) (r : PlanRecord) (s : Store C) (rs : List PlanRecord)
      → IsReadable s rs
      → Holds r.receipt_digest r n rs
      → n + length later + 1 ≤ s.max_records
      → All (Spares r) later
      → (m : ℕ) × (rs' : List PlanRecord) × IsReadable (save_all later s) rs'
        × Holds r.receipt_digest r m rs'
  save_all-Holds [] n r s rs readable h room spared = (n, rs, readable, h)
  save_all-Holds (e ∷ es) n r s rs readable h room spared =
      let (next, same) = save-IsReadable e.0 e.1 s rs readable in
      save_all-Holds es (n + 1) r (save json ttl e.0 e.1 s).1 (added s.max_records ttl e.0 e.1 rs)
        next (added-Holds s.max_records n e.0 r e.1 rs (omega arith) spared.0.0 spared.0.1 h)
        (omega (arith, same, room)) spared.1

  get-Holds :
      (now n : ℕ) (r : PlanRecord) (s : Store C) (rs : List PlanRecord)
      → IsReadable s rs
      → Holds r.receipt_digest r n rs
      → now ≤ r.created_at + ttl
      → get json ttl now r.receipt_digest s ≡ (ok (some r), s)
  unfolding get is_expired
  get-Holds now n r s rs readable h alive =
      let found =
        find_first-Holds r.receipt_digest r n (λ x. not (is_expired ttl now x)) rs
          (text_eq_refl r.receipt_digest)
          (rw (ltb-false ttl (now - r.created_at) (omega arith)) refl) h in
      simp (readable.lockable, readable.loaded, found) refl

  -- A plan that was saved in a readable store is what a lookup of its digest returns until it
  -- expires, behind any further saves of other digests before that time, when there are fewer of
  -- them than the store has places.
  pub saved_plan-found :
      (then now : ℕ) (q : PlanRequest) (later : List (ℕ × PlanRequest)) (s : Store C)
      (rs : List PlanRecord)
      → IsReadable s rs
      → length later + 1 ≤ s.max_records
      → All (Spares (new_record then q)) later
      → now ≤ then + ttl
      → (get json ttl now q.receipt_digest (save_all later (save json ttl then q s).1)).0
        ≡ ok (some (new_record then q))
  saved_plan-found then now q later s rs readable room spared alive =
      let r = new_record then q in
      let (saved, same) = save-IsReadable then q s rs readable in
      let (m, rs', still, holds) =
        save_all-Holds later 0 r (save json ttl then q s).1 (added s.max_records ttl then q rs)
          saved (new-Holds s.max_records then q rs (omega arith)) (omega (arith, same, room))
          spared in
      ap (λ (x : Result (Option PlanRecord) × Store C). x.0)
        (get-Holds now m r (save_all later (save json ttl then q s).1) rs' still holds alive)
