-- ===== src/Validators/SafePaths.antt =====
-- What an admitted path is, and that admission is stable.
use mikrus_mcp.Prelude.{
  split-join, inr, split-any, inl, starts_with, split-Lacks, ap, Bool-cases, ◌∙◌, text_eq, split,
  join-any, filter, join, any, Lacks, ◌≡◌, refl, Text, Bool, true, false, List, [], ◌∷◌, arith, All,
}
use mikrus_mcp.Errors.{ok}
use mikrus_mcp.Validators.Paths.{
  is_control, PosixPath, of_text, to_text, within, check_path, validate_path, write_roots,
  write_denied, is_traversal, is_part,
}

-- Components that a path can have: no slash, no control character, not empty and not `.`.
pub record IsPart (t : Text) : Type 0 where
  pub slash : Lacks b'/' t
  pub kept : is_part t ≡ true
  pub printable : any is_control t ≡ false

filter-IsPart :
    (ts : List Text)
    → All (Lacks b'/') ts
    → All (λ t. any is_control t ≡ false) ts
    → All IsPart (filter is_part ts)
filter-IsPart [] a b = tt
filter-IsPart (t ∷ ts) a b = elim (Bool-cases (is_part t)) [
  | inl keep ↦
      rw keep (record { slash = a.0; kept = keep; printable = b.0 }, filter-IsPart ts a.1 b.1)
  | inr drop ↦ rw drop (filter-IsPart ts a.1 b.1)
]

parts-IsPart : (path : Text) → any is_control path ≡ false → All IsPart (of_text path).parts
unfolding of_text
parts-IsPart path h =
    filter-IsPart (split b'/' path) (split-Lacks b'/' path) (split-any is_control b'/' path h)

-- The three lists of facts in a list of components.
slashes : (ts : List Text) → All IsPart ts → All (Lacks b'/') ts
slashes [] h = tt
slashes (t ∷ ts) h = (h.0.slash, slashes ts h.1)

printables : (ts : List Text) → All IsPart ts → All (λ t. any is_control t ≡ false) ts
printables [] h = tt
printables (t ∷ ts) h = (h.0.printable, printables ts h.1)

filter_kept : (ts : List Text) → All IsPart ts → filter is_part ts ≡ ts
filter_kept [] h = refl
filter_kept (t ∷ ts) h = rw (h.0.kept, filter_kept ts h.1) refl

-- A component is not empty and does not begin with a slash.
starts_with-join :
    (t : Text) (ts : List Text) → IsPart t → starts_with (b'/' ∷ []) (join b'/' (t ∷ ts)) ≡ false
unfolding text_eq
starts_with-join [] ts h = ground (arith, h.kept)
starts_with-join (x ∷ t) [] h = ground (arith, h.slash)
starts_with-join (x ∷ t) (u ∷ ts) h = ground (arith, h.slash)

-- `PurePosixPath(str(p)) == p`
of_text-to_text : (p : PosixPath) → All IsPart p.parts → of_text (to_text p) ≡ p
unfolding of_text to_text text_eq
of_text-to_text p h = go p.double_root p.parts h
  where
    go :
        (d : Bool) (ts : List Text)
        → All IsPart ts
        → of_text (to_text (record { double_root = d; parts = ts }))
          ≡ record { double_root = d; parts = ts }
    go false [] k = refl
    go true [] k = refl
    go false (t ∷ ts) k =
        rw
          (
            starts_with-join t ts k.0,
            split-join b'/' t ts (slashes (t ∷ ts) k),
            filter_kept (t ∷ ts) k,
          )
          refl
    go true (t ∷ ts) k =
        rw
          (
            starts_with-join t ts k.0,
            split-join b'/' t ts (slashes (t ∷ ts) k),
            filter_kept (t ∷ ts) k,
          )
          refl

to_text-printable : (p : PosixPath) → All IsPart p.parts → any is_control (to_text p) ≡ false
unfolding to_text
to_text-printable p h = ground (arith, join-any is_control b'/' p.parts refl (printables p.parts h))

to_text-rooted : (p : PosixPath) → starts_with (b'/' ∷ []) (to_text p) ≡ true
unfolding to_text
to_text-rooted p = ground arith

to_text-nonempty : (p : PosixPath) → text_eq (to_text p) [] ≡ false
unfolding to_text text_eq
to_text-nonempty p = ground arith

-- Admission of the text of a path with proper components is the test on the path.
validate_path-to_text :
    (for_write : Bool) (p : PosixPath)
    → All IsPart p.parts
    → validate_path for_write (to_text p) ≡ check_path for_write p
unfolding validate_path
validate_path-to_text for_write p h =
    rw (to_text-rooted p, to_text-nonempty p, to_text-printable p h, of_text-to_text p h) refl

check_path-ok :
    (for_write : Bool) (p : PosixPath) (t : Text) → check_path for_write p ≡ ok t → t ≡ to_text p
unfolding check_path
check_path-ok for_write p t h = ground arith

admitted :
    (for_write : Bool) (path t : Text)
    → validate_path for_write path ≡ ok t
    → (check_path for_write (of_text path) ≡ ok t) × (any is_control path ≡ false)
unfolding validate_path
admitted for_write path t h = ground arith

-- What a path is that was admitted for writing.
pub record IsSafeWrite (p : PosixPath) : Type 0 where
  pub rooted : any (within p) write_roots ≡ true
  pub allowed : any (within p) write_denied ≡ false
  pub no_traversal : any is_traversal p.parts ≡ false
  pub single_root : p.double_root ≡ false
  pub proper : All IsPart p.parts

check_path-IsSafeWrite :
    (p : PosixPath) (t : Text) → All IsPart p.parts → check_path true p ≡ ok t → IsSafeWrite p
unfolding check_path
check_path-IsSafeWrite p t parts h = record {
  rooted = ground arith;
  allowed = ground arith;
  no_traversal = ground arith;
  single_root = ground arith;
  proper = parts;
}

-- Every path that is admitted for writing lies in a safe root and in no denied directory, on its
-- components: no `..`, no `~`, no `.`, no empty one; and the returned text is that path's.
pub validate_path-IsSafeWrite :
    (path t : Text)
    → validate_path true path ≡ ok t
    → (p : PosixPath) × (t ≡ to_text p) × IsSafeWrite p
validate_path-IsSafeWrite path t h =
    let (checked, printable) = admitted true path t h in
    let p = of_text path in
    (
      p,
      check_path-ok true p t checked,
      check_path-IsSafeWrite p t (parts-IsPart path printable) checked,
    )

-- The text that was admitted is admitted again, and is not changed by that.
pub validate_path_idempotent :
    (for_write : Bool) (path t : Text)
    → validate_path for_write path ≡ ok t
    → validate_path for_write t ≡ ok t
validate_path_idempotent for_write path t h =
    let (checked, printable) = admitted for_write path t h in
    let p = of_text path in
    rw (check_path-ok for_write p t checked) (
      validate_path-to_text for_write p (parts-IsPart path printable)
      ∙ (checked ∙ ap ok (check_path-ok for_write p t checked)))

-- A path that begins with exactly two slashes is read whatever its components are, also those of
-- a denied file: its root is not the root that the denied paths have.
pub double_slash_read :
    (part : Text) (parts : List Text)
    → All IsPart (part ∷ parts)
    → any is_traversal (part ∷ parts) ≡ false
    → validate_path false (b'/' ∷ b'/' ∷ join b'/' (part ∷ parts))
      ≡ ok (b'/' ∷ b'/' ∷ join b'/' (part ∷ parts))
unfolding check_path to_text within
double_slash_read part parts h k =
    let p : PosixPath = record { double_root = true; parts = part ∷ parts } in
    validate_path-to_text false p h ∙ rw k refl
