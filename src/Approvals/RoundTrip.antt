-- ===== src/Approvals/RoundTrip.antt =====
-- What `_parse_records` reads back from the file that `_payload` wrote.
use mikrus_mcp.Prelude.{
  ltb-false, ◌∙◌, ◌+◌, text_eq_iff, if◌then◌else◌, Option, All, ℕ, ◌≡◌, ◌≤◌, refl, false, some,
  none, [], ◌∷◌, arith, Text, length, text_eq, lit,
}
use mikrus_mcp.Errors.{ok}
use mikrus_mcp.Dict.{Dict, lookup, insert, IsDict, lookup-insert}
use mikrus_mcp.Json.{obj, JsonLib, IsLossless}
use mikrus_mcp.Approvals.Record.{ApprovalRecord, validate_arguments_digest}
use mikrus_mcp.Approvals.File.{
  parse_entry, parse_tokens, parse_records, record_payload, payload, has_empty_field, token_fields,
  sorted_items, insert_sorted, field_count,
}

-- An entry that the file may hold: a long token, a digest, and no empty binding.
pub record IsStorable (e : Text × ApprovalRecord) : Type 0 where
  pub token_length : 32 ≤ length e.0
  pub digest : validate_arguments_digest e.1.arguments_digest ≡ ok e.1.arguments_digest
  pub filled : has_empty_field e.1 ≡ false

insert_all : Dict ApprovalRecord → Dict ApprovalRecord → Dict ApprovalRecord
insert_all [] acc = acc
insert_all ((t, r) ∷ d) acc = insert_all d (insert t r acc)

-- The value of the first dict, or that of the second where the first has none.
abbrev or_else : Option ApprovalRecord → Option ApprovalRecord → Option ApprovalRecord
or_else none o = o
or_else (some r) o = some r

or_else-none : (o : Option ApprovalRecord) → or_else o none ≡ o
or_else-none none = refl
or_else-none (some r) = refl

lookup-insert_all :
    (k : Text) (d acc : Dict ApprovalRecord)
    → IsDict d
    → lookup k (insert_all d acc) ≡ or_else (lookup k d) (lookup k acc)
unfolding insert_all
lookup-insert_all k [] acc h = refl
lookup-insert_all k ((t, r) ∷ d) acc h =
    ground
      (arith, lookup-insert_all k d (insert t r acc) h.1, lookup-insert t k r acc, text_eq_iff t k)

lookup-insert_sorted :
    (k : Text) (e : Text × ApprovalRecord) (d : Dict ApprovalRecord)
    → lookup e.0 d ≡ none
    → lookup k (insert_sorted e d) ≡ (if text_eq e.0 k then some e.1 else lookup k d)
lookup-insert_sorted k e [] h = refl
lookup-insert_sorted k e (f ∷ d) h =
    ground
      (arith, lookup-insert_sorted k e d, text_eq_iff e.0 k, text_eq_iff f.0 e.0, text_eq_iff f.0 k)

lookup-sorted_items :
    (k : Text) (d : Dict ApprovalRecord) → IsDict d → lookup k (sorted_items d) ≡ lookup k d
lookup-sorted_items k [] h = refl
lookup-sorted_items k ((t, r) ∷ d) h = ground (
  arith,
  lookup-insert_sorted k (t, r) (sorted_items d),
  lookup-sorted_items k d h.1,
  lookup-sorted_items t d h.1,
)

insert_sorted-IsDict :
    (e : Text × ApprovalRecord) (d : Dict ApprovalRecord)
    → lookup e.0 d ≡ none
    → IsDict d
    → IsDict (insert_sorted e d)
insert_sorted-IsDict e [] n h = (refl, tt)
insert_sorted-IsDict e (f ∷ d) n h = ground (
  arith,
  insert_sorted-IsDict e d,
  lookup-insert_sorted f.0 e d,
  text_eq_iff f.0 e.0,
  text_eq_iff e.0 f.0,
)

sorted_items-IsDict : (d : Dict ApprovalRecord) → IsDict d → IsDict (sorted_items d)
sorted_items-IsDict [] h = tt
sorted_items-IsDict ((t, r) ∷ d) h =
    insert_sorted-IsDict (t, r) (sorted_items d) (lookup-sorted_items t d h.1 ∙ h.0)
      (sorted_items-IsDict d h.1)

insert_sorted-All :
    (P : Text × ApprovalRecord → Type 0) (e : Text × ApprovalRecord) (d : Dict ApprovalRecord)
    → P e
    → All P d
    → All P (insert_sorted e d)
insert_sorted-All P e [] p h = (p, tt)
insert_sorted-All P e (f ∷ d) p h = ground (arith, insert_sorted-All P e d p h.1)

sorted_items-All :
    (P : Text × ApprovalRecord → Type 0) (d : Dict ApprovalRecord)
    → All P d
    → All P (sorted_items d)
sorted_items-All P [] h = tt
sorted_items-All P (e ∷ d) h = insert_sorted-All P e (sorted_items d) h.0 (sorted_items-All P d h.1)

length-insert_sorted :
    (e : Text × ApprovalRecord) (d : Dict ApprovalRecord)
    → length (insert_sorted e d) ≡ length d + 1
length-insert_sorted e [] = omega arith
length-insert_sorted e (f ∷ d) = ground (arith, length-insert_sorted e d)

length-sorted_items : (d : Dict ApprovalRecord) → length (sorted_items d) ≡ length d
length-sorted_items [] = omega arith
length-sorted_items (e ∷ d) =
    omega (arith, length-insert_sorted e (sorted_items d), length-sorted_items d)

field_count-token_fields :
    {C : Type 0} (json : JsonLib C) (d : Dict ApprovalRecord)
    → field_count (token_fields json d) ≡ length d
field_count-token_fields json [] = omega arith
field_count-token_fields json (e ∷ d) = omega (arith, field_count-token_fields json d)

module _ {C : Type 0} (json : JsonLib C) (lib : IsLossless json) where
  parse_entry-payload :
      (t : Text) (r : ApprovalRecord)
      → IsStorable (t, r)
      → parse_entry json t (obj (record_payload json r)) ≡ ok r
  unfolding parse_entry record_payload text_eq lit
  parse_entry-payload t r h = simp (
    lib.str_of-str,
    lib.float_of-float_repr,
    h.digest,
    ltb-false (length t) 32 h.token_length,
    h.filled,
  )

  parse_tokens-token_fields :
      (d acc : Dict ApprovalRecord)
      → All IsStorable d
      → parse_tokens json (token_fields json d) acc ≡ ok (insert_all d acc)
  unfolding parse_tokens insert_all
  parse_tokens-token_fields [] acc h = refl
  parse_tokens-token_fields ((t, r) ∷ d) acc h =
      rw (parse_entry-payload t r h.0) (parse_tokens-token_fields d (insert t r acc) h.1)

  -- A file that the registry wrote is read back to a dict with the same records, whenever they fit
  -- the capacity and each could have come from a file.
  pub parse_records-payload :
      (d : Dict ApprovalRecord) (n : ℕ)
      → IsDict d
      → All IsStorable d
      → length d ≤ n
      → (d' : Dict ApprovalRecord) × (parse_records json (payload json d) n ≡ ok d')
        × ((k : Text) → lookup k d' ≡ lookup k d)
  unfolding parse_records payload text_eq lit
  parse_records-payload d n h a fits = (
    insert_all (sorted_items d) [],
    rw
        (
          lib.loads-dumps,
          ltb-false n (field_count (token_fields json (sorted_items d))) (
              omega (arith, field_count-token_fields json (sorted_items d), length-sorted_items d)),
        )
        (parse_tokens-token_fields (sorted_items d) [] (sorted_items-All IsStorable d a)),
    λ k.
        lookup-insert_all k (sorted_items d) [] (sorted_items-IsDict d h)
        ∙ (or_else-none (lookup k (sorted_items d)) ∙ lookup-sorted_items k d h),
  )
