-- ===== src/Targets/Bound.antt =====
-- A client is held for a target only when it has shown the identity that is configured for it.
use mikrus_mcp.Results.{ok-inj, Result-cases}
use mikrus_mcp.Errors.{authorization, app_error, err, Error, ok, Result}
use mikrus_mcp.Prelude.{
  refl, ap, Option-cases, ◌∙◌, text_eq_refl, text_eq_iff, inr, inl, text_eq, Bool-cases, some,
  Option, ◌≡◌, Text, true, none, some,
}
use mikrus_mcp.Dict.{Dict, lookup, insert, lookup-insert, erase, lookup-erase}
use mikrus_mcp.Policy.Scopes.{Target}
use mikrus_mcp.Targets.Registry.{
  config, get, unavailable_error, TargetRegistry, Client, Opening, identity_matches, connect,
  reuse_or_connect, check_identity,
}

abbrev pub Held : Option Target → Option Client → Type 0
Held t none = Unit
Held none (some client) = ⊥
Held (some t) (some client) = identity_matches t client.stable_identity ≡ true

-- Each client that is held belongs to a configured target and matches its identity.
abbrev pub IsBound : TargetRegistry → Type 0
IsBound r = (name : Text) → Held (lookup name r.targets) (lookup name r.clients)

forget-IsBound :
    (target : Text) (r : TargetRegistry)
    → IsBound r
    → IsBound (record r { clients = erase target r.clients })
forget-IsBound target r h name = elim (Bool-cases (text_eq target name)) [
  | inl same ↦ rw (lookup-erase target name r.clients, same) tt
  | inr other ↦ rw (lookup-erase target name r.clients, other) (h name)
]

accept-IsBound :
    (target : Text) (t : Target) (client : Client) (r : TargetRegistry)
    → lookup target r.targets ≡ some t
    → identity_matches t client.stable_identity ≡ true
    → IsBound r
    → IsBound
        (record r { clients = insert target client r.clients; failures = erase target r.failures })
accept-IsBound target t client r e m h name = elim (Bool-cases (text_eq target name)) [
  | inl same ↦
      let here : lookup name r.targets ≡ some t = rw ((text_eq_iff target name).0 same) at e in
      rw (lookup-insert target name client r.clients, same, here) m
  | inr other ↦ rw (lookup-insert target name client r.clients, other) (h name)
]

module _ (target : Text) (t : Target) where
  -- How a `get` that found the target ends: the clients are still bound, and a client that is handed
  -- out is held for the target, connected or just opened, with the identity that is configured.
  pub record Ends (before : Dict Target) (end : Result Client × TargetRegistry) : Type 0 where
    pub bound : IsBound end.1
    pub configured : end.1.targets ≡ before
    pub shown :
        (client : Client) → end.0 ≡ ok client → identity_matches t client.stable_identity ≡ true
    pub held : (client : Client) → end.0 ≡ ok client → lookup target end.1.clients ≡ some client

  raised-Ends :
      (x : Error) (before : Dict Target) (r : TargetRegistry)
      → IsBound r
      → r.targets ≡ before
      → Ends before (err x, r)
  raised-Ends x before r h e = record {
    bound = h;
    configured = e;
    shown = λ client no. cc;
    held = λ client no. cc;
  }

module _ (target : Text) (t : Target) (opening : Opening) where
  check_identity-Ends :
      (client : Client) (r : TargetRegistry)
      → lookup target r.targets ≡ some t
      → IsBound r
      → Ends target t r.targets (check_identity target t client opening.close_new r)
  check_identity-Ends client r e h = elim (Bool-cases (identity_matches t client.stable_identity)) [
    | inl matching ↦ rw matching (record {
      bound = accept-IsBound target t client r e matching h;
      configured = refl;
      shown = λ c same. rw (ok-inj same) at matching;
      held = λ c same. rw (lookup-insert, text_eq_refl) (ap some (ok-inj same));
    })
    | inr wrong ↦ elim (Result-cases opening.close_new) [
      | inl (_, closed) ↦
          rw (wrong, closed) (raised-Ends target t (app_error authorization) r.targets r h refl)
      | inr (x, failed) ↦ rw (wrong, failed) (raised-Ends target t x r.targets r h refl)
    ]
  ]

  connect-Ends :
      (r : TargetRegistry)
      → lookup target r.targets ≡ some t
      → IsBound r
      → Ends target t r.targets (connect target t opening r)
  connect-Ends r e h = elim (Result-cases opening.built) [
    | inl (client, built) ↦ elim (Option-cases opening.failure) [
      | inl opened ↦ rw (built, opened) (check_identity-Ends client r e h)
      | inr (class, failed) ↦
          rw (built, failed)
            (raised-Ends target t unavailable_error r.targets
              (record r { failures = insert target class r.failures }) h refl)
    ]
    | inr (x, failed) ↦ rw failed (raised-Ends target t x r.targets r h refl)
  ]

  reuse_or_connect-Ends :
      (held : Option Client) (r : TargetRegistry)
      → lookup target r.clients ≡ held
      → lookup target r.targets ≡ some t
      → IsBound r
      → Ends target t r.targets (reuse_or_connect target t opening held r)
  reuse_or_connect-Ends none r c e h = connect-Ends r e h
  reuse_or_connect-Ends (some client) r c e h = elim (Bool-cases client.is_connected) [
    | inl alive ↦ simp alive (record {
      bound = h;
      configured = refl;
      shown = λ k same.
          let m : Held (lookup target r.targets) (lookup target r.clients) = h target in
          let m2 : identity_matches t client.stable_identity ≡ true = rw (e, c) at m in
          rw (ok-inj same) at m2;
      held = λ k same. c ∙ ap some (ok-inj same);
    })
    | inr dead ↦
        let forgotten : TargetRegistry = record r { clients = erase target r.clients } in
        let kept = forget-IsBound target r h in
        elim (Result-cases opening.close_old) [
          | inl (_, closed) ↦ rw (dead, closed) (connect-Ends forgotten e kept)
          | inr (x, failed) ↦
              rw (dead, failed) (raised-Ends target t x r.targets forgotten kept refl)
        ]
  ]

-- However `get` ends, each client that is held belongs to a configured target and matches its
-- identity, the configuration is what it was, and a client that is returned is the one held for
-- the target.
pub get-IsBound :
    (target : Text) (opening : Opening) (r : TargetRegistry)
    → IsBound r
    → IsBound (get target opening r).1
      × ((get target opening r).1.targets ≡ r.targets)
      × ((client : Client)
          → (get target opening r).0 ≡ ok client
          → lookup target (get target opening r).1.clients ≡ some client)
unfolding get config
get-IsBound target opening r h = elim (Option-cases (lookup target r.targets)) [
  | inl unknown ↦ rw unknown (h, refl, λ client no. cc)
  | inr (t, known) ↦
      let ends = reuse_or_connect-Ends target t opening (lookup target r.clients) r refl known h in
      rw known (ends.bound, ends.configured, ends.held)
]
