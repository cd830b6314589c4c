-- ===== src/Evidence/Registry/Sealed.antt =====
-- The provider registry over any sequence of calls, and the trust that it grants.
use runmantle.Prelude.{
  ℕ, ◌≡◌, refl, sym, ◌∙◌, ap, String, true, Option, none, some, List, [], ◌∷◌, eqb, ok, >>=-eq-ok,
  >>-eq-ok, raise_if, not, ◌==◌, eq_iff, arith, Bool-cases, inl, inr, leb, value_error,
}
use runmantle.Validation.{require_non_empty}
use runmantle.Value.{Entries, Value}
use runmantle.Evidence.{EvidenceItem, Hashing, rank, agent_claim}
use runmantle.Evidence.Origin.{
  trust_established, effective_trust_level, establish_evidence_origin, origin_of,
}
use runmantle.Evidence.Trust.{construct-token}
use runmantle.Evidence.Registry.{
  ProviderRegistration, ProviderRegistry, lookup_provider, register, seal, check_registration,
  registration_for, establish, establish_with,
}

-- A call that changes a registry.
pub data RegistryCall : Type 0 where
  registers : ProviderRegistration → RegistryCall
  seals : RegistryCall

unfoldable pub make_call : RegistryCall → ProviderRegistry → ProviderRegistry
unfolding register seal
make_call (registers r) s = (register r s).1
make_call seals s = seal s

unfoldable pub make_calls : List RegistryCall → ProviderRegistry → ProviderRegistry
unfolding make_call
make_calls [] s = s
make_calls (c ∷ cs) s = make_calls cs (make_call c s)

make_call_sealed :
    (c : RegistryCall) (s : ProviderRegistry) → s.is_sealed ≡ true → make_call c s ≡ s
unfolding make_call
make_call_sealed (registers r) s h = rw h
make_call_sealed seals s h = ground arith

-- No sequence of registrations and seals changes a sealed registry.
pub make_calls_sealed :
    (cs : List RegistryCall) (s : ProviderRegistry) → s.is_sealed ≡ true → make_calls cs s ≡ s
unfolding make_calls
make_calls_sealed [] s h = refl
make_calls_sealed (c ∷ cs) s h = rw (make_call_sealed c s h) (make_calls_sealed cs s h)

make_call_keeps :
    (c : RegistryCall) (s : ProviderRegistry) (key : ℕ) (r : ProviderRegistration)
    → lookup_provider key s.registrations ≡ some r
    → lookup_provider key (make_call c s).registrations ≡ some r
unfolding make_call
make_call_keeps (registers r') s key r h = ground arith
make_call_keeps seals s key r h = h

-- A provider that is registered keeps its registration through every sequence of registrations and
-- seals.
pub make_calls_keeps :
    (cs : List RegistryCall) (s : ProviderRegistry) (key : ℕ) (r : ProviderRegistration)
    → lookup_provider key s.registrations ≡ some r
    → lookup_provider key (make_calls cs s).registrations ≡ some r
unfolding make_calls
make_calls_keeps [] s key r h = h
make_calls_keeps (c ∷ cs) s key r h =
    make_calls_keeps cs (make_call c s) key r (make_call_keeps c s key r h)

module _ (h : Hashing) where
  check_registration-eq-ok :
      (r : ProviderRegistration) (identity : String) (configuration : Entries)
      → (found : Option ProviderRegistration)
      → check_registration h r identity configuration ≡ ok found
      → (r.provider_identity ≡ identity) × (found ≡ some r)
  unfolding check_registration
  check_registration-eq-ok r identity configuration found e =
      let (same, e1) = >>-eq-ok (raise_if (not (r.provider_identity == identity)) _) _ e in
      let (a, _, e2) = >>=-eq-ok (h.dumps (Value.mapping r.provider_configuration)) _ e1 in
      let (b, _, e3) = >>=-eq-ok (h.dumps (Value.mapping configuration)) _ e2 in
      let (_, e4) = >>-eq-ok (raise_if (not (a == b)) _) _ e3 in
      (ground (arith, same, eq_iff r.provider_identity identity), ground (arith, e4))

  establish_evidence_origin-eq-ok :
      (item e : EvidenceItem) (boundary identity : String) (configuration : Entries)
      → (r : ProviderRegistration)
      → establish_evidence_origin h item boundary identity configuration r.trust_level
          r.acquisition_method
        ≡ ok e
      → (trust_established e ≡ true) × (effective_trust_level e ≡ r.trust_level)
  unfolding establish_evidence_origin
  establish_evidence_origin-eq-ok item e boundary identity configuration r made =
      let (_, e1) = >>-eq-ok (require_non_empty boundary "evidence trust boundary") _ made in
      let (_, e2) = >>-eq-ok (require_non_empty identity "evidence provider identity") _ e1 in
      let (_, e3) =
        >>-eq-ok
          (raise_if (leb (rank r.trust_level) (rank agent_claim))
            (value_error "established evidence must have elevated trust"))
          _ e2 in
      construct-token h
        (record item.fields {
          acquisition_method = r.acquisition_method;
          trust_level = r.trust_level;
        })
        (origin_of boundary identity configuration) none e e3

  -- The origin that the registry grants is that of the registration found.
  pub record Granted (provider : ℕ) (identity : String) (s : ProviderRegistry) (e : EvidenceItem)
      : Type 0 where
    pub registration : ProviderRegistration
    pub registered : lookup_provider provider s.registrations ≡ some registration
    pub identified : registration.provider_identity ≡ identity
    pub established : trust_established e ≡ true
    pub trusted : effective_trust_level e ≡ registration.trust_level

  found_registration :
      (provider : ℕ) (identity : String) (configuration : Entries) (s : ProviderRegistry)
      → (r : ProviderRegistration) (looked_up : Option ProviderRegistration)
      → lookup_provider provider s.registrations ≡ looked_up
      → registration_for h provider identity configuration s ≡ ok (some r)
      → (lookup_provider provider s.registrations ≡ some r) × (r.provider_identity ≡ identity)
  unfolding registration_for
  found_registration provider identity configuration s r none l e =
      cc (rw (registration_for, l) at e)
  found_registration provider identity configuration s r (some r') l e =
      elim (Bool-cases (eqb r'.provider provider)) [
        | inr other ↦ cc (rw (registration_for, l, other) at e)
        | inl same ↦
            let (identified, shape) =
              check_registration-eq-ok r' identity configuration (some r)
                (rw (registration_for, l, same) at e) in
            let same_registration : r' ≡ r = cc (shape) in
            (
              l ∙ ap some same_registration,
              ap (λ (x : ProviderRegistration). x.provider_identity) (sym same_registration)
                  ∙ identified,
            )
      ]

  -- Where the registry establishes an item for a provider, that very provider is registered under
  -- the identity given, and the item has an established trust whose effective level is the
  -- registered one.
  pub establish-Granted :
      (provider : ℕ) (item e : EvidenceItem) (boundary identity : String) (configuration : Entries)
      → (s : ProviderRegistry)
      → establish h provider item boundary identity configuration s ≡ ok (some e)
      → Granted provider identity s e
  unfolding establish
  establish-Granted provider item e boundary identity configuration s made =
      let (found, looked_up, granted) =
        >>=-eq-ok (registration_for h provider identity configuration s) _ made in
      granted_by found looked_up granted
    where
      granted_by :
          (found : Option ProviderRegistration)
          → registration_for h provider identity configuration s ≡ ok found
          → establish_with h item boundary found ≡ ok (some e)
          → Granted provider identity s e
      granted_by none l g = cc (g)
      granted_by (some r) l g =
          let (registered, identified) =
            found_registration provider identity configuration s r
              (lookup_provider provider s.registrations) refl l in
          let (e', made_of, shape) =
            >>=-eq-ok
              (establish_evidence_origin h item boundary r.provider_identity
                r.provider_configuration r.trust_level r.acquisition_method)
              _ g in
          let same : e' ≡ e = cc (shape) in
          let (trust, level) =
            establish_evidence_origin-eq-ok item e' boundary r.provider_identity
              r.provider_configuration r made_of in
          record {
            registration = r;
            registered = registered;
            identified = identified;
            established = rw (← same) trust;
            trusted = rw (← same) level;
          }
