-- ===== src/RemoteJobs/Stored.antt =====
-- What a reader of the file sees, before and after each operation of the store.
use mikrus_mcp.Results.{Result-cases}
use mikrus_mcp.Prelude.{
  ltb, none, some, some, Option, Bool-cases, inr, inl, ltb-false, ℕ, suc, ◌≡◌, refl, ◌≤◌, false,
  List, [], ◌∷◌, arith, length, ap,
}
use mikrus_mcp.Errors.{Result, ok, err}
use mikrus_mcp.Exec.{continue, ◌>>=◌, Exec}
use mikrus_mcp.Json.{Json, nil, obj, cons, arr, Items, JsonLib, IsLossless}
use mikrus_mcp.RemoteJobs.Record.{RemoteJobRecord}
use mikrus_mcp.RemoteJobs.Codec.{from_dict, cut_error}
use mikrus_mcp.RemoteJobs.RoundTrip.{from_dict-as_dict}
use mikrus_mcp.RemoteJobs.Store.{
  decode_payload, irregular, Store, Disk, regular, absent, load_disk, encode_records, decode_items,
  transaction, item_count,
}
use mikrus_mcp.RemoteJobs.Lifecycle.{Extends-refl, Extends, Extends-trans, Evolves-cut}

-- A record as it is read back.
abbrev pub cut : RemoteJobRecord → RemoteJobRecord
cut r = record r { error = cut_error r.error }

abbrev pub cuts : List RemoteJobRecord → List RemoteJobRecord
cuts [] = []
cuts (r ∷ rs) = cut r ∷ cuts rs

pub length-cuts : (rs : List RemoteJobRecord) → length (cuts rs) ≡ length rs
length-cuts [] = refl
length-cuts (r ∷ rs) = ap suc (length-cuts rs)

pub Extends-cuts : (rs : List RemoteJobRecord) → Extends rs (cuts rs)
Extends-cuts [] = tt
Extends-cuts (r ∷ rs) = (Evolves-cut r, Extends-cuts rs)

item_count-encode_records : (rs : List RemoteJobRecord) → item_count (encode_records rs) ≡ length rs
item_count-encode_records [] = refl
item_count-encode_records (r ∷ rs) = omega (arith, item_count-encode_records rs)

module _ {C : Type 0} (json : JsonLib C) where
  -- The records that are in the file.
  abbrev pub stored : Store C → Result (List RemoteJobRecord)
  stored s = load_disk json s.max_records s.disk

  decode_items-length :
      (items : Items) (rs : List RemoteJobRecord)
      → decode_items json items ≡ ok rs
      → length rs ≡ item_count items
  decode_items-length nil rs e = ground arith
  decode_items-length (cons (obj p) rest) rs e = elim (Result-cases (from_dict json p)) [
    | inl (r, a) ↦ elim (Result-cases (decode_items json rest)) [
      | inl (rs0, b) ↦ ground (arith, decode_items-length rest rs0)
      | inr (x, b) ↦ ground arith
    ]
    | inr (x, a) ↦ ground arith
  ]
  decode_items-length (cons _ rest) rs e = cc

  decode_payload-length :
      (n : ℕ) (o : Option Json) (rs : List RemoteJobRecord)
      → decode_payload json n o ≡ ok rs
      → length rs ≤ n
  decode_payload-length n (some (arr items)) rs e = elim (Result-cases (decode_items json items)) [
    | inl (rs0, d) ↦ ground (arith, decode_items-length items rs0 d)
    | inr (x, d) ↦ ground arith
  ]
  decode_payload-length n none rs e = cc
  decode_payload-length n (some _) rs e = cc

  load_disk-length :
      (n : ℕ) (d : Disk C) (rs : List RemoteJobRecord) → load_disk json n d ≡ ok rs → length rs ≤ n
  unfolding load_disk
  load_disk-length n absent rs e = ground arith
  load_disk-length n irregular rs e = cc
  load_disk-length n (regular c) rs e = decode_payload-length n (json.loads c) rs e

  -- A file that can be read holds no more records than the capacity.
  pub stored-length :
      (s : Store C) (rs : List RemoteJobRecord) → stored s ≡ ok rs → length rs ≤ s.max_records
  stored-length s rs e = load_disk-length s.max_records s.disk rs e

  module _ (lib : IsLossless json) where
    decode_items-encode_records :
        (rs : List RemoteJobRecord) → decode_items json (encode_records rs) ≡ ok (cuts rs)
    decode_items-encode_records [] = refl
    decode_items-encode_records (r ∷ rs) =
        rw (from_dict-as_dict json lib r, decode_items-encode_records rs) refl

    pub load_disk-written :
        (rs : List RemoteJobRecord) (n : ℕ)
        → length rs ≤ n
        → load_disk json n (regular (json.dumps (arr (encode_records rs)))) ≡ ok (cuts rs)
    unfolding load_disk
    load_disk-written rs n h =
        rw
          (
            lib.loads-dumps,
            ltb-false n (item_count (encode_records rs))
                (omega (arith, item_count-encode_records rs)),
          )
          (decode_items-encode_records rs)

    -- A method keeps the history: from a readable file it leaves a readable file, in which every
    -- earlier record has evolved at its place.
    abbrev pub KeepsHistory : {A : Type 0} → Exec (Store C) A → Type 0
    KeepsHistory m =
        (s : Store C) (rs : List RemoteJobRecord)
        → stored s ≡ ok rs
        → (rs' : List RemoteJobRecord) × (stored (m s).1 ≡ ok rs') × Extends rs rs'

    pub KeepsHistory-bind :
        {A B : Type 0} (m : Exec (Store C) A) (f : A → Exec (Store C) B)
        → KeepsHistory m
        → ((a : A) → KeepsHistory (f a))
        → KeepsHistory (m >>= f)
    KeepsHistory-bind {A} {B} m f km kf s rs h =
        let (rs1, h1, x1) = km s rs h in next (m s) rs1 h1 x1
      where
        next :
            (r : Result A × Store C) (rs1 : List RemoteJobRecord)
            → stored r.1 ≡ ok rs1
            → Extends rs rs1
            → (rs' : List RemoteJobRecord) × (stored (continue {B = B} r f).1 ≡ ok rs')
              × Extends rs rs'
        next (ok a, s1) rs1 h1 x1 =
            let (rs2, h2, x2) = kf a s1 rs1 h1 in (rs2, h2, Extends-trans rs rs1 rs2 x1 x2)
        next (err e, s1) rs1 h1 x1 = (rs1, h1, x1)

    -- A transaction whose body only lets records evolve.
    pub transaction-KeepsHistory :
        {A : Type 0} (body : List RemoteJobRecord → Result (A × List RemoteJobRecord))
        → ((rs : List RemoteJobRecord) (a : A) (rs' : List RemoteJobRecord)
            → body rs ≡ ok (a, rs')
            → Extends rs rs' × (length rs' ≡ length rs))
        → KeepsHistory (transaction json body)
    unfolding transaction
    transaction-KeepsHistory body keeps s rs h = elim (Bool-cases s.lockable) [
      | inr locked ↦ (rs, rw locked h, Extends-refl rs)
      | inl free ↦ elim (Result-cases (body rs)) [
        | inr (x, failed) ↦ (rs, rw (free, h, failed) h, Extends-refl rs)
        | inl ((a, rs'), done) ↦ elim (Bool-cases s.writable) [
          | inr stuck ↦
              (rs, rw (free, h, done, fits rs' (keeps rs a rs' done).1, stuck) h, Extends-refl rs)
          | inl writes ↦ (
            cuts rs',
            rw (free, h, done, fits rs' (keeps rs a rs' done).1, writes)
                (load_disk-written rs' s.max_records (bound rs' (keeps rs a rs' done).1)),
            Extends-trans rs rs' (cuts rs') (keeps rs a rs' done).0 (Extends-cuts rs'),
          )
        ]
      ]
    ]
      where
        bound : (rs' : List RemoteJobRecord) → length rs' ≡ length rs → length rs' ≤ s.max_records
        bound rs' n = omega (arith, stored-length s rs h)

        fits :
            (rs' : List RemoteJobRecord)
            → length rs' ≡ length rs
            → ltb s.max_records (length rs') ≡ false
        fits rs' n = ltb-false s.max_records (length rs') (bound rs' n)
