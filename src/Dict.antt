-- ===== src/Dict.antt =====
-- A Python `dict` with text keys, in insertion order.
use mikrus_mcp.Prelude.{
  text_eq_refl, All, Text, text_eq, text_eq_iff, ◌+◌, ◌≤◌, ◌≡◌, refl, Bool, Option, none, some,
  List, [], ◌∷◌, length, is_some, if◌then◌else◌, arith,
}

abbrev pub Dict {ℓ} : Type ℓ → Type ℓ
Dict V = List (Text × V)

module _ {ℓ} {V : Type ℓ} where
  -- `d.get(k)`
  abbrev pub lookup : Text → Dict V → Option V
  lookup k [] = none
  lookup k ((j, v) ∷ d) = if text_eq j k then some v else lookup k d

  -- `k in d`
  abbrev pub contains : Text → Dict V → Bool
  contains k d = is_some (lookup k d)

  -- `d[k] = v`
  abbrev pub insert : Text → V → Dict V → Dict V
  insert k v [] = (k, v) ∷ []
  insert k v ((j, w) ∷ d) = if text_eq j k then (j, v) ∷ d else (j, w) ∷ insert k v d

  -- `d.pop(k, None)`; every entry at the key goes, and a dict has one at most.
  abbrev pub erase : Text → Dict V → Dict V
  erase k [] = []
  erase k ((j, v) ∷ d) = if text_eq j k then erase k d else (j, v) ∷ erase k d

  pub lookup-insert :
      (k j : Text) (v : V) (d : Dict V)
      → lookup j (insert k v d) ≡ (if text_eq k j then some v else lookup j d)
  lookup-insert k j v [] = refl
  lookup-insert k j v ((i, w) ∷ d) =
      ground (arith, text_eq_iff k j, text_eq_iff i k, text_eq_iff i j, lookup-insert k j v d)

  pub lookup-erase :
      (k j : Text) (d : Dict V) → lookup j (erase k d) ≡ (if text_eq k j then none else lookup j d)
  lookup-erase k j [] = ground arith
  lookup-erase k j ((i, w) ∷ d) =
      ground (arith, text_eq_iff k j, text_eq_iff i k, text_eq_iff i j, lookup-erase k j d)

  pub length-insert : (k : Text) (v : V) (d : Dict V) → length (insert k v d) ≤ length d + 1
  length-insert k v [] = omega arith
  length-insert k v ((i, w) ∷ d) = ground (arith, length-insert k v d)

  pub length-insert_new :
      (k : Text) (v : V) (d : Dict V) → lookup k d ≡ none → length (insert k v d) ≡ length d + 1
  length-insert_new k v [] h = omega arith
  length-insert_new k v ((i, w) ∷ d) h = ground (arith, length-insert_new k v d)

  pub length-insert_old :
      (k : Text) (v w : V) (d : Dict V) → lookup k d ≡ some w → length (insert k v d) ≡ length d
  length-insert_old k v w [] h = cc
  length-insert_old k v w ((i, u) ∷ d) h = ground (arith, length-insert_old k v w d)

  pub length-erase : (k : Text) (d : Dict V) → length (erase k d) ≤ length d
  length-erase k [] = omega arith
  length-erase k ((i, w) ∷ d) = ground (arith, length-erase k d)

  -- Removing a key that is there makes the dict smaller.
  pub length-erase_lt :
      (k : Text) (v : V) (d : Dict V) → lookup k d ≡ some v → length (erase k d) + 1 ≤ length d
  length-erase_lt k v [] h = cc
  length-erase_lt k v ((i, w) ∷ d) h = ground (arith, length-erase_lt k v d, length-erase k d)

  -- No key is listed twice: what a `dict` keeps by itself.
  abbrev pub IsDict : Dict V → Type ℓ
  IsDict [] = Unit
  IsDict ((k, v) ∷ d) = (lookup k d ≡ none) × IsDict d

  pub insert-IsDict : (k : Text) (v : V) (d : Dict V) → IsDict d → IsDict (insert k v d)
  insert-IsDict k v [] h = (refl, tt)
  insert-IsDict k v ((i, w) ∷ d) h =
      ground
        (arith, insert-IsDict k v d h.1, lookup-insert k i v d, text_eq_iff i k, text_eq_iff k i)

  pub erase-IsDict : (k : Text) (d : Dict V) → IsDict d → IsDict (erase k d)
  erase-IsDict k [] h = tt
  erase-IsDict k ((i, w) ∷ d) h =
      ground (arith, erase-IsDict k d h.1, lookup-erase k i d, text_eq_iff i k, text_eq_iff k i)

  -- `{k: v for k, v in d.items() if p(v)}`
  abbrev pub keep : (V → Bool) → Dict V → Dict V
  keep p [] = []
  keep p ((k, v) ∷ d) = if p v then (k, v) ∷ keep p d else keep p d

  pub length-keep : (p : V → Bool) (d : Dict V) → length (keep p d) ≤ length d
  length-keep p [] = omega arith
  length-keep p ((k, v) ∷ d) = ground (arith, length-keep p d)

  pub lookup-keep-none :
      (p : V → Bool) (k : Text) (d : Dict V) → lookup k d ≡ none → lookup k (keep p d) ≡ none
  lookup-keep-none p k [] h = refl
  lookup-keep-none p k ((i, w) ∷ d) h = ground (arith, lookup-keep-none p k d)

  pub keep-IsDict : (p : V → Bool) (d : Dict V) → IsDict d → IsDict (keep p d)
  keep-IsDict p [] h = tt
  keep-IsDict p ((i, w) ∷ d) h = ground (arith, keep-IsDict p d h.1, lookup-keep-none p i d h.0)

  -- In a dict with no key twice, filtering keeps exactly the entries that pass.
  abbrev pub only : (V → Bool) → Option V → Option V
  only p none = none
  only p (some v) = if p v then some v else none

  pub lookup-keep :
      (p : V → Bool) (k : Text) (d : Dict V) → IsDict d → lookup k (keep p d) ≡ only p (lookup k d)
  lookup-keep p k [] h = refl
  lookup-keep p k ((i, w) ∷ d) h =
      ground (arith, lookup-keep p k d h.1, lookup-keep-none p k d, text_eq_iff i k)

  -- Every entry of a dict is what its key looks up.
  abbrev IsListedIn : Dict V → Text × V → Type ℓ
  IsListedIn d e = lookup e.0 d ≡ some e.1

  lookup-weaken :
      (k : Text) (v : V) (d xs : Dict V)
      → lookup k d ≡ none
      → All (IsListedIn d) xs
      → All (IsListedIn ((k, v) ∷ d)) xs
  lookup-weaken k v d [] h l = tt
  lookup-weaken k v d (x ∷ xs) h l =
      (ground (arith, text_eq_iff k x.0), lookup-weaken k v d xs h l.1)

  pub All-lookup : (d : Dict V) → IsDict d → All (λ e. lookup e.0 d ≡ some e.1) d
  All-lookup [] h = tt
  All-lookup ((k, v) ∷ d) h = (rw text_eq_refl refl, lookup-weaken k v d d h.0 (All-lookup d h.1))
